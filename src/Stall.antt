-- ===== src/Stall.antt =====
-- alerter/src/stall_and_reorg.rs: `watch_chain_stall_and_reorg`. One round of its loop handles a
-- message of the block listener, or the time-out of the wait for one.
pub mod Rounds
pub mod Timeouts
pub mod Listening
pub mod Reorgs
mod Tests
use subspace_chain_alerts.Base.{
  ℕ, ◌+◌, List, [], ◌∷◌, ◌++◌, Option, none, some, last, length, leb, if◌then◌else◌, min,
}
use subspace_chain_alerts.Error.{Exec, ok, err, panic, Call, done, failed, from, Source}
use subspace_chain_alerts.Chain.{HashAndNumber, BlockExt, ReorgData, BlocksExt}
use subspace_chain_alerts.Config.{Duration, duration_max, StallAndReorgConfig}
use subspace_chain_alerts.Alert.{Alert, chain_stall, chain_recovery, reorg}
use subspace_chain_alerts.Monitor.{Input, received, timed_out, Run, run}

-- The loop's variables.
pub record Watch : Type 0 where
  pub timeout_fired : Option Duration
  pub maybe_last_best_block : Option HashAndNumber

abbrev pub start : Watch
start = record { timeout_fired = none; maybe_last_best_block = none }

-- `Duration::saturating_add`.
unfoldable pub saturating_add : Duration → Duration → Duration
saturating_add a b = min (a + b) duration_max

abbrev pub best_of : BlockExt → HashAndNumber
best_of block = record { number = block.number; hash = block.hash }

-- The alert that block production has resumed, if a time-out had fired.
unfoldable pub recovery_alert : HashAndNumber → Option Duration → List Alert
recovery_alert best none = []
recovery_alert best (some timeout) =
    chain_recovery (record { best_block = best; duration = timeout }) ∷ []

-- The alert of a re-org that retracts at least the threshold's number of blocks.
unfoldable pub reorg_alert : ℕ → HashAndNumber → Option ReorgData → List Alert
reorg_alert threshold best none = []
reorg_alert threshold best (some reported) =
    if leb threshold (length reported.retracted)
    then reorg (record {
      best_block = best;
      common_block = reported.common_block;
      enacted = reported.enacted;
      retracted = reported.retracted;
    })
      ∷ []
    else []

-- A message: `latest` is `blocks.last()`, and none is a panic of `expect`.
unfoldable pub on_blocks :
    StallAndReorgConfig → Watch → BlocksExt → Option BlockExt → Exec Watch × List Alert
unfolding recovery_alert reorg_alert
on_blocks config w message none = (panic, [])
on_blocks config w message (some latest) = (
  ok (record { timeout_fired = none; maybe_last_best_block = some (best_of latest) }),
  recovery_alert (best_of latest) w.timeout_fired
      ++ reorg_alert config.reorg_depth_threshold (best_of latest) message.maybe_reorg_data,
)

-- How long no block has come, when one more wait has run out.
unfoldable pub non_import_duration : Duration → Option Duration → Duration
unfolding saturating_add
non_import_duration threshold none = threshold
non_import_duration threshold (some timeout) = saturating_add timeout threshold

unfoldable pub stall_alert : Duration → Option HashAndNumber → List Alert
stall_alert duration none = []
stall_alert duration (some last_block) =
    chain_stall (record { last_block = last_block; duration = duration }) ∷ []

unfoldable pub on_timeout : StallAndReorgConfig → Watch → Exec Watch × List Alert
unfolding non_import_duration stall_alert
on_timeout config w =
    let duration = non_import_duration config.non_block_import_threshold w.timeout_fired in
    (
      ok (record {
        timeout_fired = some duration;
        maybe_last_best_block = w.maybe_last_best_block;
      }),
      stall_alert duration w.maybe_last_best_block,
    )

unfoldable pub round : StallAndReorgConfig → Watch → Input BlocksExt → Exec Watch × List Alert
unfolding on_blocks on_timeout
round config w (received (done message)) = on_blocks config w message (last message.blocks)
round config w (received (failed e)) = (err (from Source.recv_error e), [])
round config w timed_out = on_timeout config w

-- The whole loop, by what its waits give.
unfoldable pub watch_chain_stall_and_reorg :
    StallAndReorgConfig → List (Input BlocksExt) → Run Watch
watch_chain_stall_and_reorg config inputs = run (round config) start inputs
