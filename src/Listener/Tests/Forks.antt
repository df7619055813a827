-- ===== src/Listener/Tests/Forks.antt =====
-- The listener, the stall monitor and the alerter on a fork of two blocks.
use subspace_chain_alerts.Base.{ℕ, ◌+◌, ◌≡◌, refl, List, [], ◌∷◌, none, some, map, Text, codes}
use subspace_chain_alerts.Error.{running, done, failed, value_or}
use subspace_chain_alerts.Chain.{BlockExt, BlocksExt, ReorgData}
use subspace_chain_alerts.Config.{StallAndReorgConfig, seconds}
use subspace_chain_alerts.Alert.{Alert, reorg}
use subspace_chain_alerts.Monitor.{received, timed_out}
use subspace_chain_alerts.Monitor
use subspace_chain_alerts.EventTypes.{sudo}
use subspace_chain_alerts.Message.{format_alert, format_event}
use subspace_chain_alerts.Message.Fixture.{rendering, config}
use subspace_chain_alerts.Slack.{SlackAlerter, post_request, run}
use subspace_chain_alerts.Slack
use subspace_chain_alerts.Startup.Pipeline.{reorg_posts, run-deep_reorgs}
use subspace_chain_alerts.Stall.{
  watch_chain_stall_and_reorg, round, on_blocks, on_timeout, recovery_alert, reorg_alert,
  stall_alert,
}
use subspace_chain_alerts.Stall.Listening.{Sees}
use subspace_chain_alerts.Stall.Reorgs.{reorgs, deep_reorgs, watch_chain_stall_and_reorg-reorgs}
use subspace_chain_alerts.Listener.Sessions.{arrived, Session, listen_for_all_blocks}
use subspace_chain_alerts.Listener.Fixture.{lib, header, block, node}
use subspace_chain_alerts.Listener.Tests.{program, any_header, fresh}

-- The session loads the chain up to block 1000, 2001 becomes the best block, and 2002 takes its place.
abbrev forked : List Session
forked =
    record {
      subscribed = done tt;
      items =
          (node 1000 (header 0 1 0), arrived (block 0 1 0))
          ∷ (node 2001 any_header, arrived (block 1000 2 1))
          ∷ (node 2002 any_header, arrived (block 1000 2 2))
          ∷ [];
    }
    ∷ []

abbrev ext : ℕ → BlockExt
ext root = record {
  number = 2;
  hash = 2000 + root;
  parent_hash = 1000;
  state_root = root;
  extrinsics_root = 0;
}

abbrev fork : ReorgData
fork = record {
  enacted = [];
  retracted = record { number = 2; hash = 2001 } ∷ [];
  common_block = record { number = 1; hash = 1000 };
}

abbrev first_message : BlocksExt
first_message = record { blocks = ext 1 ∷ []; maybe_reorg_data = none }

abbrev second_message : BlocksExt
second_message = record { blocks = ext 2 ∷ []; maybe_reorg_data = some fork }

abbrev watch_config : StallAndReorgConfig
watch_config = record { non_block_import_threshold = seconds 60; reorg_depth_threshold = 1 }

-- A wait runs out between the two messages.
abbrev waits : List (Monitor.Input BlocksExt)
waits = received (done first_message) ∷ timed_out ∷ received (done second_message) ∷ []

watch_chain_stall_and_reorg-reorgs_example :
    ((watch_chain_stall_and_reorg watch_config waits).ends ≡ running)
    × (reorgs (watch_chain_stall_and_reorg watch_config waits).alerts
        ≡ deep_reorgs 1 (listen_for_all_blocks lib 5 forked fresh).1.sent)
unfolding program
watch_chain_stall_and_reorg-reorgs_example =
    watch_chain_stall_and_reorg-reorgs lib 5 forked fresh watch_config waits refl
      (Sees.message first_message (Sees.wait (Sees.message second_message Sees.nothing)))

abbrev fork_alert : Alert
fork_alert = reorg (record {
  best_block = record { number = 2; hash = 2002 };
  common_block = record { number = 1; hash = 1000 };
  enacted = [];
  retracted = record { number = 2; hash = 2001 } ∷ [];
})

one_reorg : deep_reorgs 1 (listen_for_all_blocks lib 5 forked fresh).1.sent ≡ fork_alert ∷ []
unfolding program
one_reorg = refl

abbrev slack : SlackAlerter
slack = record {
  bot_name = codes "bot";
  bot_icon = codes "robot_face";
  channel_name = codes "#alerts";
  secret = record { token_value = codes "xoxb"; team_id = codes "T1" };
}

-- Another monitor's alert comes first, and Slack refuses it.
abbrev slack_inputs : List Slack.Input
slack_inputs =
    Slack.Input.alert (Alert.event sudo) (failed []) ∷ Slack.Input.alert fork_alert (done tt) ∷ []

abbrev text : Alert → Text
text a = value_or [] (format_alert rendering config a)

run-deep_reorgs_example :
    reorg_posts (run (codes "1") rendering config slack (done tt) (done tt) slack_inputs).1
    ≡ map
        (λ a. post_request (codes "1") slack (text a))
        (deep_reorgs 1 (listen_for_all_blocks lib 5 forked fresh).1.sent)
unfolding program watch_chain_stall_and_reorg Monitor.run round on_blocks on_timeout recovery_alert
    reorg_alert stall_alert
run-deep_reorgs_example =
    run-deep_reorgs lib 5 forked fresh watch_config waits (codes "1") rendering config slack text
      slack_inputs refl
      (Sees.message first_message (Sees.wait (Sees.message second_message Sees.nothing))) refl
      (unfold format_alert format_event in (refl, (refl, tt)))
