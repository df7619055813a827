-- ===== src/Slots/Timeouts.antt =====
-- alerter/src/slots.rs: waits for a proof that run out one after the other.
use subspace_chain_alerts.Base.{
  ℕ, zero, suc, ◌+◌, ◌≤◌, ◌≡◌, List, [], ◌∷◌, ◌++◌, some, last, replicate, arith,
}
use subspace_chain_alerts.Chain.{Slot}
use subspace_chain_alerts.Gossip.{PoTInfo}
use subspace_chain_alerts.Config.{SlotsConfig, duration_max}
use subspace_chain_alerts.Alert.{Alert, timekeeper_stall}
use subspace_chain_alerts.Monitor.{Input, timed_out, run, after}
use subspace_chain_alerts.Stall.Timeouts.{waited, remembered, next_duration}
use subspace_chain_alerts.Slots.{
  SlotDetails, BoundedVec, Monitor, round, on_timeout, stall_alert, slot_timeout,
}

-- The alerts of the waits number `k`, `k + 1`, …, `n` of them.
abbrev pub stalls : Slot → ℕ → ℕ → List Alert
stalls slot k zero = []
stalls slot k (suc n) =
    timekeeper_stall (record { last_slot = slot; duration = waited slot_timeout k })
    ∷ stalls slot (suc k) n

timeout_fits : slot_timeout ≤ duration_max
unfolding duration_max
timeout_fits = omega arith

-- While no proof comes every wait gives a stall alert with the last slot that was taken and the time
-- since the stall began, and only the remembered time changes; what comes after the `n` waits is
-- handled with the time of all of them.
pub stalled-run :
    (vec : BoundedVec) (config : SlotsConfig) (m : Monitor) (x : SlotDetails) (n k : ℕ)
    → (rest : List (Input PoTInfo)) → last m.slots ≡ some x
    → run
        (round vec config)
        (record m { timeout_fired = remembered slot_timeout k })
        (replicate n timed_out ++ rest)
      ≡ after (stalls x.proof.slot (suc k) n) (
          run
            (round vec config)
            (record m { timeout_fired = remembered slot_timeout (k + n) })
            rest)
unfolding run round on_timeout stall_alert
stalled-run vec config m x zero k rest at_end = let e : k + 0 ≡ k = omega arith in rw e
stalled-run vec config m x (suc n) k rest at_end =
    let e : suc k + n ≡ k + suc n = omega arith in
    rw (
      at_end,
      next_duration slot_timeout k timeout_fits,
      stalled-run vec config m x n (suc k) rest at_end,
      e,
    )
