-- ===== src/Slots/Gaps.antt =====
-- alerter/src/slots.rs: proofs whose slot is not the one after the last.
use subspace_chain_alerts.Base.{
  ◌+◌, ◌≤◌, ◌<◌, ◌≡◌, ◌≢◌, refl, List, [], ◌∷◌, some, last, arith, All, map,
}
use subspace_chain_alerts.Error.{ok, running, done}
use subspace_chain_alerts.Gossip.{PoTInfo}
use subspace_chain_alerts.Config.{SlotsConfig}
use subspace_chain_alerts.Monitor.{Input, received, run, run-round}
use subspace_chain_alerts.Slots.{
  SlotDetails, BoundedVec, Monitor, round, on_proof, on_next, checked, slot_max,
}

-- The messages that bring these proofs.
abbrev pub proofs : List PoTInfo → List (Input PoTInfo)
proofs = map (λ i. received (done i))

-- A proof for any slot but the one after the last changes nothing and gives no alert.
out_of_order-round :
    (vec : BoundedVec) (config : SlotsConfig) (m : Monitor) (x : SlotDetails) (i : PoTInfo)
    → last m.slots ≡ some x
    → x.proof.slot + 1 ≤ slot_max
    → i.proof.slot ≢ x.proof.slot + 1
    → round vec config m (received (done i)) ≡ (ok m, [])
unfolding round on_proof on_next checked
out_of_order-round vec config m x i at_end fits other = rw (at_end, on_proof) (ground arith)

-- Once a slot has been missed, the monitor is deaf: whatever proofs for later slots arrive, and
-- however many, none is taken into the window and no alert is given.
pub deaf_after_gap :
    (vec : BoundedVec) (config : SlotsConfig) (m : Monitor) (x : SlotDetails) (infos : List PoTInfo)
    → last m.slots ≡ some x
    → x.proof.slot + 1 ≤ slot_max
    → All (λ i. x.proof.slot + 1 < i.proof.slot) infos
    → run (round vec config) m (proofs infos) ≡ record { ends = running; state = m; alerts = [] }
deaf_after_gap vec config m x [] at_end fits later = unfold run in refl
deaf_after_gap vec config m x (i ∷ infos) at_end fits later = rw (
  run-round (round vec config) m (received (done i)) (proofs infos) _ _
      (out_of_order-round vec config m x i at_end fits (omega arith)),
  deaf_after_gap vec config m x infos at_end fits later.1,
)
