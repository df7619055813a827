-- ===== src/Slots/Alerts.antt =====
-- alerter/src/slots.rs: the alerts of a proof that is taken into the window.
use subspace_chain_alerts.Base.{ℕ, zero, suc, ◌-◌, ◌/◌, ◌≡◌, List, ◌++◌, none}
use subspace_chain_alerts.Error.{ok, done}
use subspace_chain_alerts.Alert.{Alert}
use subspace_chain_alerts.Gossip.{PoTInfo}
use subspace_chain_alerts.Config.{Duration, SlotsConfig}
use subspace_chain_alerts.Monitor.{received}
use subspace_chain_alerts.Slots.{
  SlotDetails, BoundedVec, Monitor, round, recovery_alert, slow_alert, average_alert,
}
use subspace_chain_alerts.Slots.Window.{IsWindow, spent, count}
use subspace_chain_alerts.Slots.Rounds.{extended}

-- The average slot time of `n` entries.
abbrev pub average : Duration → ℕ → Duration
average spent zero = 0
average spent (suc n) = spent / suc n

-- The alerts of a proof in order: the recovery, the slow slot, and the average over the new window.
abbrev pub alerts_of :
    SlotsConfig → (m : Monitor) → SlotDetails → PoTInfo → (m' : Monitor) → IsWindow m' → List Alert
alerts_of config m x i m' window =
    (recovery_alert i.proof.slot m.timeout_fired
      ++ slow_alert config i.proof.slot x.proof.slot (i.at - m.last_instant))
    ++ average_alert config i.proof.slot (count m' window)
        (average (spent m' window) (count m' window))

-- What a round with a proof in order gives: the new window and the alerts.
pub record Extends (vec : BoundedVec) (config : SlotsConfig) (m : Monitor) (x : SlotDetails)
    (i : PoTInfo) : Type 0 where
  pub window : IsWindow (extended vec none m i)
  pub returned :
      round vec config m (received (done i))
      ≡ (ok (extended vec none m i), alerts_of config m x i (extended vec none m i) window)
