-- ===== src/Stall/Rounds.antt =====
-- alerter/src/stall_and_reorg.rs: re-org alerts, and counts of alerts over whole runs.
use subspace_chain_alerts.Base.{
  ℕ, suc, ◌+◌, ◌≤◌, ◌≡◌, ◌↔◌, refl, List, [], ◌∷◌, ◌++◌, Option, none, some, length, arith, last,
  Bool, true, false, if◌then◌else◌, Option-cases, inl, inr,
}
use subspace_chain_alerts.Error.{Exec, ok, err, panic, running, done, failed}
use subspace_chain_alerts.Chain.{HashAndNumber, BlocksExt, ReorgData}
use subspace_chain_alerts.Config.{StallAndReorgConfig}
use subspace_chain_alerts.Alert.{Alert, chain_stall, chain_recovery, reorg}
use subspace_chain_alerts.Monitor.{Input, received, timed_out, Run, run, run-round, finish}
use subspace_chain_alerts.Stall.{
  Watch, round, on_timeout, on_blocks, stall_alert, recovery_alert, reorg_alert, best_of,
}

-- How many alerts of some kind there are.
abbrev count_if : (Alert → Bool) → List Alert → ℕ
count_if p [] = 0
count_if p (a ∷ alerts) = if p a then suc (count_if p alerts) else count_if p alerts

abbrev is_recovery : Alert → Bool
is_recovery (chain_recovery r) = true
is_recovery _ = false

abbrev is_stall : Alert → Bool
is_stall (chain_stall s) = true
is_stall _ = false

abbrev pub recoveries : List Alert → ℕ
recoveries = count_if is_recovery

abbrev pub stall_alerts : List Alert → ℕ
stall_alerts = count_if is_stall

abbrev pub timeouts : List (Input BlocksExt) → ℕ
timeouts [] = 0
timeouts (timed_out ∷ inputs) = suc (timeouts inputs)
timeouts (received m ∷ inputs) = timeouts inputs

-- 1 if a time-out is remembered.
abbrev pub pending : Watch → ℕ
pending w = elim w.timeout_fired [ none ↦ 0 | some t ↦ 1 ]

count_if-append :
    (p : Alert → Bool) (xs ys : List Alert) → count_if p (xs ++ ys) ≡ count_if p xs + count_if p ys
count_if-append p [] ys = omega arith
count_if-append p (x ∷ xs) ys = ground (arith, count_if-append p xs ys)

-- A message gives a re-org alert exactly when it reports a re-org of at least the threshold's depth,
-- and then the alert has the message's re-org data and its last block.
reorg_alert_iff :
    (threshold : ℕ) (best : HashAndNumber) (reported : Option ReorgData) (alert : Alert)
    → (reorg_alert threshold best reported ≡ alert ∷ []) ↔ (
        (r : ReorgData) × (reported ≡ some r)
        × (threshold ≤ length r.retracted)
        × (alert
            ≡ reorg (record {
              best_block = best;
              common_block = r.common_block;
              enacted = r.enacted;
              retracted = r.retracted;
            })))
unfolding reorg_alert
reorg_alert_iff threshold best none alert = ground arith
reorg_alert_iff threshold best (some r) alert =
    (λ h. (r, refl, ground arith, ground arith), λ found. ground (arith, found))

-- What is pending at the end of a round.
abbrev pending_after : Exec Watch → ℕ
pending_after (ok w) = pending w
pending_after _ = 0

reorg_alert-recoveries :
    (threshold : ℕ) (best : HashAndNumber) (reported : Option ReorgData)
    → recoveries (reorg_alert threshold best reported) ≡ 0
unfolding reorg_alert
reorg_alert-recoveries threshold best none = refl
reorg_alert-recoveries threshold best (some r) = ground arith

-- A round adds a recovery only where it takes back a time-out.
round-balance :
    (config : StallAndReorgConfig) (w : Watch) (i : Input BlocksExt)
    → recoveries (round config w i).1 + pending_after (round config w i).0
      ≤ timeouts (i ∷ []) + pending w
unfolding round on_timeout on_blocks stall_alert recovery_alert
round-balance config w (received (done m)) = elim (Option-cases (last m.blocks)) [
  | inl nothing ↦ ground arith
  | inr (latest, found) ↦ ground (
    arith,
    reorg_alert-recoveries config.reorg_depth_threshold (best_of latest) m.maybe_reorg_data,
  )
]
round-balance config w (received (failed x)) = ground arith
round-balance config w timed_out = ground arith

timeouts-cons :
    (i : Input BlocksExt) (inputs : List (Input BlocksExt))
    → timeouts (i ∷ inputs) ≡ timeouts (i ∷ []) + timeouts inputs
timeouts-cons (received m) inputs = omega arith
timeouts-cons timed_out inputs = omega arith

-- Over a whole run there are no more recovery alerts than waits that ran out, counting a wait that
-- was remembered before.
pub recoveries-le-timeouts :
    (config : StallAndReorgConfig) (w : Watch) (inputs : List (Input BlocksExt))
    → recoveries (run (round config) w inputs).alerts ≤ timeouts inputs + pending w
recoveries-le-timeouts config w [] = unfold run in omega arith
recoveries-le-timeouts config w (i ∷ inputs) = rw (run-round (round config) w i inputs _ _ refl) (
    by_end (round config w i).0 (round-balance config w i)
      (λ t. recoveries-le-timeouts config t inputs))
  where
    rest_of : Watch → Run Watch
    rest_of t = run (round config) t inputs

    by_end :
        (r : Exec Watch)
        → recoveries (round config w i).1 + pending_after r ≤ timeouts (i ∷ []) + pending w
        → ((t : Watch) → recoveries (rest_of t).alerts ≤ timeouts inputs + pending t)
        → recoveries (finish w (round config w i).1 rest_of r).alerts
          ≤ timeouts (i ∷ inputs) + pending w
    by_end (ok w') balance rest = omega (
      arith,
      rest w',
      timeouts-cons i inputs,
      count_if-append is_recovery (round config w i).1 (rest_of w').alerts,
    )
    by_end (err x) balance rest = omega (arith, timeouts-cons i inputs)
    by_end panic balance rest = omega (arith, timeouts-cons i inputs)
    by_end running balance rest = omega (arith, timeouts-cons i inputs)
