-- ===== src/Slots/Full.antt =====
-- alerter/src/slots.rs: the monitor whose window is full.
use subspace_chain_alerts.Base.{
  ℕ, zero, suc, ◌≡◌, refl, ◌∙◌, List, [], ◌∷◌, inl, inr, init, init-snoc, length, length-append,
  arith,
}
use subspace_chain_alerts.Error.{Exec, ok, err, panic, running, done, failed}
use subspace_chain_alerts.Gossip.{PoTInfo}
use subspace_chain_alerts.Config.{SlotsConfig}
use subspace_chain_alerts.Monitor.{Input, received, timed_out, Run, finish, run, run-round}
use subspace_chain_alerts.Slots.{
  SlotDetails, BoundedVec, Truncates, Monitor, bound, round, on_timeout,
}
use subspace_chain_alerts.Slots.Rounds.{proof-Accepted}

length-init : (slots : List SlotDetails) (n : ℕ) → length slots ≡ suc n → length (init slots) ≡ n
length-init [] n e = omega arith
length-init (x ∷ []) n e = omega arith
length-init (x ∷ y ∷ slots) zero e = omega arith
length-init (x ∷ y ∷ slots) (suc n) e = omega (arith, length-init (y ∷ slots) n (omega arith))

-- `m'` has a full window that differs from that of `m` in its last entry at most.
abbrev pub KeepsAllButLast : Monitor → Monitor → Type 0
KeepsAllButLast m m' = (length m'.slots ≡ bound) × (init m'.slots ≡ init m.slots)

module _ (vec : BoundedVec) (truncates : Truncates vec) (config : SlotsConfig) where
  round-KeepsAllButLast :
      (m m' : Monitor) (i : Input PoTInfo)
      → length m.slots ≡ bound
      → (round vec config m i).0 ≡ ok m'
      → KeepsAllButLast m m'
  round-KeepsAllButLast m m' (received (done i)) filled e =
      elim (proof-Accepted vec config m m' i e) [
        | inl same ↦ rw same (filled, refl)
        | inr accepted ↦
            let pushed = accepted.pushed ∙ truncates.truncates m.slots _ filled in
            let kept = length-init m.slots 599 filled in
            (
              rw pushed (omega (arith, length-append (init m.slots) (_ ∷ []))),
              rw pushed (init-snoc (init m.slots) _),
            )
      ]
  round-KeepsAllButLast m m' (received (failed x)) filled e = absurd (unfold round in ground arith)
  round-KeepsAllButLast m m' timed_out filled e =
      let same : m'.slots ≡ m.slots = unfold round on_timeout in ground arith in
      rw same (filled, refl)

  -- Once the window has 600 entries it does not slide, where a full vector gives up its last item for a
  -- new one: whatever comes in, there are 600, and the first 599 of them stay what they are.
  pub run-KeepsAllButLast :
      (m : Monitor) (inputs : List (Input PoTInfo))
      → length m.slots ≡ bound
      → KeepsAllButLast m (run (round vec config) m inputs).state
  run-KeepsAllButLast m [] filled = unfold run in (filled, refl)
  run-KeepsAllButLast m (i ∷ inputs) filled =
      rw (run-round (round vec config) m i inputs _ _ refl)
        (by_end (round vec config m i).0 refl (λ t f. run-KeepsAllButLast t inputs f))
    where
      rest_of : Monitor → Run Monitor
      rest_of t = run (round vec config) t inputs

      by_end :
          (r : Exec Monitor)
          → (round vec config m i).0 ≡ r
          → ((t : Monitor) → length t.slots ≡ bound → KeepsAllButLast t (rest_of t).state)
          → KeepsAllButLast m (finish m (round vec config m i).1 rest_of r).state
      by_end (ok t) e rest =
          let (filled', kept) = round-KeepsAllButLast m t i filled e in
          let (filled'', kept') = rest t filled' in (filled'', kept' ∙ kept)
      by_end (err x) e rest = (filled, refl)
      by_end panic e rest = (filled, refl)
      by_end running e rest = (filled, refl)
