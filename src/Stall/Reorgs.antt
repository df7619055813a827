-- ===== src/Stall/Reorgs.antt =====
-- alerter/src/stall_and_reorg.rs behind alerter/src/subspace.rs: the re-orgs that the listener reports,
-- and the monitor's re-org alerts.
use subspace_chain_alerts.Base.{
  ℕ, ◌≡◌, refl, ap, List, [], ◌∷◌, ◌++◌, Option, none, some, last, All, length, leb, if◌then◌else◌,
  Bool-cases, inl, inr,
}
use subspace_chain_alerts.Error.{ok, running, done}
use subspace_chain_alerts.Chain.{HashAndNumber, BlockExt, BlocksExt, ReorgData}
use subspace_chain_alerts.Config.{StallAndReorgConfig}
use subspace_chain_alerts.Alert.{Alert, reorg, chain_stall, chain_recovery}
use subspace_chain_alerts.Monitor.{Input, received, timed_out, run, run-round}
use subspace_chain_alerts.Listener.Actions.{Library, Listener}
use subspace_chain_alerts.Listener.Sessions.{Session, listen_for_all_blocks}
use subspace_chain_alerts.Listener.Tips.{HasTip, listen_for_all_blocks-HasTips}
use subspace_chain_alerts.Stall.{
  Watch, start, round, on_timeout, best_of, recovery_alert, reorg_alert, stall_alert,
  non_import_duration, watch_chain_stall_and_reorg,
}
use subspace_chain_alerts.Stall.Listening.{Sees, nothing, message, wait}
use subspace_chain_alerts.Stall.Timeouts.{message-round}

-- The re-org alerts among some alerts.
abbrev pub reorgs : List Alert → List Alert
reorgs [] = []
reorgs (reorg r ∷ alerts) = reorg r ∷ reorgs alerts
reorgs (_ ∷ alerts) = reorgs alerts

-- The alert that a message calls for: a re-org whose retracted blocks are as many as the threshold,
-- with the last block of the message as the best one.
abbrev pub deep_reorg : ℕ → Option BlockExt → Option ReorgData → List Alert
deep_reorg threshold (some latest) (some r) =
    if leb threshold (length r.retracted)
    then reorg (record {
      best_block = record { number = latest.number; hash = latest.hash };
      common_block = r.common_block;
      enacted = r.enacted;
      retracted = r.retracted;
    })
      ∷ []
    else []
deep_reorg threshold _ _ = []

abbrev pub deep_reorgs : ℕ → List BlocksExt → List Alert
deep_reorgs threshold [] = []
deep_reorgs threshold (m ∷ messages) =
    deep_reorg threshold (last m.blocks) m.maybe_reorg_data ++ deep_reorgs threshold messages

reorgs-append : (xs ys : List Alert) → reorgs (xs ++ ys) ≡ reorgs xs ++ reorgs ys
reorgs-append [] ys = refl
reorgs-append (reorg r ∷ xs) ys = ap (λ l. reorg r ∷ l) (reorgs-append xs ys)
reorgs-append (chain_stall x ∷ xs) ys = reorgs-append xs ys
reorgs-append (chain_recovery x ∷ xs) ys = reorgs-append xs ys
reorgs-append (Alert.event x ∷ xs) ys = reorgs-append xs ys
reorgs-append (Alert.timekeeper_stall x ∷ xs) ys = reorgs-append xs ys
reorgs-append (Alert.timekeeper_recovery x ∷ xs) ys = reorgs-append xs ys
reorgs-append (Alert.slow_slot x ∷ xs) ys = reorgs-append xs ys
reorgs-append (Alert.avg_slow_slots x ∷ xs) ys = reorgs-append xs ys

recovery_alert-reorgs :
    (best : HashAndNumber) (w : Watch) → reorgs (recovery_alert best w.timeout_fired) ≡ []
unfolding recovery_alert
recovery_alert-reorgs best w = by_timeout w.timeout_fired
  where
    by_timeout : (o : Option ℕ) → reorgs (recovery_alert best o) ≡ []
    by_timeout none = refl
    by_timeout (some x) = refl

reorg_alert-deep_reorg :
    (threshold : ℕ) (latest : BlockExt) (o : Option ReorgData)
    → reorgs (reorg_alert threshold (best_of latest) o) ≡ deep_reorg threshold (some latest) o
unfolding reorg_alert
reorg_alert-deep_reorg threshold latest none = refl
reorg_alert-deep_reorg threshold latest (some r) =
    elim (Bool-cases (leb threshold (length r.retracted))) [
      | inl deep ↦ rw deep refl
      | inr shallow ↦ rw shallow refl
    ]

stall_alert-reorgs : (d : ℕ) (o : Option HashAndNumber) → reorgs (stall_alert d o) ≡ []
unfolding stall_alert
stall_alert-reorgs d none = refl
stall_alert-reorgs d (some b) = refl

module _ (config : StallAndReorgConfig) where
  -- The alerts of a message, but for the recovery, are its deep re-org.
  message-reorgs :
      (w : Watch) (m : BlocksExt) (latest : BlockExt)
      → last m.blocks ≡ some latest
      → reorgs (
          recovery_alert (best_of latest) w.timeout_fired
          ++ reorg_alert config.reorg_depth_threshold (best_of latest) m.maybe_reorg_data)
        ≡ deep_reorg config.reorg_depth_threshold (last m.blocks) m.maybe_reorg_data
  message-reorgs w m latest found =
      rw
        (
          reorgs-append (recovery_alert (best_of latest) w.timeout_fired)
              (reorg_alert config.reorg_depth_threshold (best_of latest) m.maybe_reorg_data),
          recovery_alert-reorgs (best_of latest) w,
          found,
        )
        (reorg_alert-deep_reorg config.reorg_depth_threshold latest m.maybe_reorg_data)

  run-reorgs :
      (w : Watch) {messages : List BlocksExt} {inputs : List (Input BlocksExt)}
      → Sees messages inputs
      → All HasTip messages
      → ((run (round config) w inputs).ends ≡ running)
        × (reorgs (run (round config) w inputs).alerts
            ≡ deep_reorgs config.reorg_depth_threshold messages)
  run-reorgs w nothing tips = unfold run in (refl, refl)
  run-reorgs w (message m sees) ((latest, found), tips) =
      let w' : Watch = record {
        timeout_fired = none;
        maybe_last_best_block = some (best_of latest);
      } in
      let (goes_on, rest) = run-reorgs w' sees tips in
      rw
        (run-round (round config) w (received (done m)) _ _ _
          (message-round config w m latest found))
        (goes_on, rw (reorgs-append _ _, message-reorgs w m latest found, rest) refl)
  run-reorgs w (wait sees) tips =
      let d = non_import_duration config.non_block_import_threshold w.timeout_fired in
      let w' : Watch = record {
        timeout_fired = some d;
        maybe_last_best_block = w.maybe_last_best_block;
      } in
      let (goes_on, rest) = run-reorgs w' sees tips in
      rw
        (run-round (round config) w timed_out _ (ok w') (stall_alert d w.maybe_last_best_block)
          (unfold round on_timeout in refl))
        (goes_on, rw (reorgs-append _ _, stall_alert-reorgs d w.maybe_last_best_block) rest)

-- The monitor behind a listener that had broadcast nothing before: whatever the node answers over all
-- sessions, if the monitor gets all the messages in order, whatever waits run out between them, it
-- stays in its loop, and its re-org alerts are one for each broadcast re-org that retracts at least the
-- threshold's number of blocks, in order.
pub watch_chain_stall_and_reorg-reorgs :
    (lib : Library) (fuel : ℕ) (sessions : List Session) (s : Listener)
    → (config : StallAndReorgConfig) (inputs : List (Input BlocksExt)) → s.sent ≡ []
    → Sees (listen_for_all_blocks lib fuel sessions s).1.sent inputs
    → ((watch_chain_stall_and_reorg config inputs).ends ≡ running)
      × (reorgs (watch_chain_stall_and_reorg config inputs).alerts
          ≡ deep_reorgs config.reorg_depth_threshold
              (listen_for_all_blocks lib fuel sessions s).1.sent)
unfolding watch_chain_stall_and_reorg
watch_chain_stall_and_reorg-reorgs lib fuel sessions s config inputs none_sent sees =
    run-reorgs config start sees
      ((listen_for_all_blocks-HasTips lib fuel sessions).at s (rw none_sent tt))
