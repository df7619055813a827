-- ===== src/Startup/Pipeline.antt =====
-- alerter/src/main.rs, the way of a re-org from the listener over the stall monitor to Slack.
use subspace_chain_alerts.Base.{
  ℕ, ◌≡◌, refl, ap, ◌∙◌, List, [], ◌∷◌, Option, some, Bool, true, false, if◌then◌else◌, map, All,
  Text,
}
use subspace_chain_alerts.Error.{ok, done}
use subspace_chain_alerts.Chain.{BlocksExt}
use subspace_chain_alerts.Config.{StallAndReorgConfig}
use subspace_chain_alerts.EventTypes.{
  Event, transfer, domain_runtime_upgraded, domain_instantiated, fraud_proof_processed,
  operator_slashed, operator_offline, sudo,
}
use subspace_chain_alerts.Alert.{
  Alert, event, chain_stall, chain_recovery, reorg, timekeeper_stall, timekeeper_recovery,
  slow_slot, avg_slow_slots,
}
use subspace_chain_alerts.Monitor.{Input}
use subspace_chain_alerts.Message.{Rendering, FormatConfig, format_alert}
use subspace_chain_alerts.Message.Kinds.{
  Kind, chain_reorg, kind, event_kind, read_kind, read_kind-format_alert,
}
use subspace_chain_alerts.Slack.{SlackAlerter, PostRequest, post_request, run}
use subspace_chain_alerts.Slack
use subspace_chain_alerts.Slack.Posting.{received, run-received}
use subspace_chain_alerts.Listener.Actions.{Library, Listener}
use subspace_chain_alerts.Listener.Sessions.{Session, listen_for_all_blocks}
use subspace_chain_alerts.Stall.{watch_chain_stall_and_reorg}
use subspace_chain_alerts.Stall.Listening.{Sees}
use subspace_chain_alerts.Stall.Reorgs.{reorgs, deep_reorgs, watch_chain_stall_and_reorg-reorgs}

abbrev says_reorg : Option Kind → Bool
says_reorg (some chain_reorg) = true
says_reorg _ = false

-- The requests whose text says that it is of a re-org.
abbrev pub reorg_posts : List PostRequest → List PostRequest
reorg_posts [] = []
reorg_posts (p ∷ posts) =
    let rest = reorg_posts posts in if says_reorg (read_kind p.markdown) then p ∷ rest else rest

event_kind-no_reorg : (e : Event) → says_reorg (some (event_kind e)) ≡ false
event_kind-no_reorg (transfer t) = refl
event_kind-no_reorg (domain_runtime_upgraded x) = refl
event_kind-no_reorg (domain_instantiated x) = refl
event_kind-no_reorg (fraud_proof_processed x) = refl
event_kind-no_reorg (operator_slashed x) = refl
event_kind-no_reorg (operator_offline x) = refl
event_kind-no_reorg sudo = refl
event_kind-no_reorg (Event.code_updated x) = refl

module _ (version : Text) (r : Rendering) (config : FormatConfig) (slack : SlackAlerter)
    (text : Alert → Text) where
  abbrev request : Alert → PostRequest
  request a = post_request version slack (text a)

  -- A request is a re-org's exactly if its alert is.
  reorg_posts-cons :
      (a : Alert) (alerts : List Alert)
      → read_kind (request a).markdown ≡ some (kind a)
      → reorg_posts (map request alerts) ≡ map request (reorgs alerts)
      → reorg_posts (map request (a ∷ alerts)) ≡ map request (reorgs (a ∷ alerts))
  reorg_posts-cons (event e) alerts k rest = rw (k, event_kind-no_reorg e) rest
  reorg_posts-cons (chain_stall s) alerts k rest = rw k rest
  reorg_posts-cons (chain_recovery s) alerts k rest = rw k rest
  reorg_posts-cons (reorg s) alerts k rest = rw k (ap (λ l. request (reorg s) ∷ l) rest)
  reorg_posts-cons (timekeeper_stall s) alerts k rest = rw k rest
  reorg_posts-cons (timekeeper_recovery s) alerts k rest = rw k rest
  reorg_posts-cons (slow_slot s) alerts k rest = rw k rest
  reorg_posts-cons (avg_slow_slots s) alerts k rest = rw k rest

  reorg_posts-map :
      (alerts : List Alert)
      → All (λ a. format_alert r config a ≡ ok (text a)) alerts
      → reorg_posts (map request alerts) ≡ map request (reorgs alerts)
  reorg_posts-map [] h = refl
  reorg_posts-map (a ∷ alerts) (formatted, h) =
      reorg_posts-cons a alerts
        (unfold post_request in read_kind-format_alert r config a (text a) formatted)
        (reorg_posts-map alerts h)

-- The re-orgs reach Slack: where the monitor gets all the messages of a listener that had broadcast
-- nothing before, in order, and the alerter, whose session is open, gets the monitor's re-org alerts in
-- order, among any others that are not of re-orgs, and all that it gets have texts, the requests that it
-- posts whose text is a re-org's are one for each re-org that the listener broadcasts and that retracts
-- at least the threshold's number of blocks, in order, each with the text of that re-org's alert.
pub run-deep_reorgs :
    (lib : Library) (fuel : ℕ) (sessions : List Session) (s : Listener)
    → (stall_config : StallAndReorgConfig) (inputs : List (Input BlocksExt))
    → (version : Text) (r : Rendering) (config : FormatConfig) (slack : SlackAlerter)
    → (text : Alert → Text) (slack_inputs : List Slack.Input) → s.sent ≡ []
    → Sees (listen_for_all_blocks lib fuel sessions s).1.sent inputs
    → reorgs (received slack_inputs)
      ≡ reorgs (watch_chain_stall_and_reorg stall_config inputs).alerts
    → All (λ a. format_alert r config a ≡ ok (text a)) (received slack_inputs)
    → reorg_posts (run version r config slack (done tt) (done tt) slack_inputs).1
      ≡ map
          (λ a. post_request version slack (text a))
          (deep_reorgs stall_config.reorg_depth_threshold
            (listen_for_all_blocks lib fuel sessions s).1.sent)
run-deep_reorgs lib fuel sessions s stall_config inputs version r config slack text slack_inputs
      none_sent sees passed formatted =
    let posted = run-received version r config text slack slack_inputs formatted in
    let (goes_on, reported) =
      watch_chain_stall_and_reorg-reorgs lib fuel sessions s stall_config inputs none_sent sees in
    ap reorg_posts posted
    ∙ reorg_posts-map version r config slack text (received slack_inputs) formatted
    ∙ ap (map (λ a. post_request version slack (text a))) (passed ∙ reported)
