-- ===== src/Slots/Rounds.antt =====
-- alerter/src/slots.rs: the window over a round.
use subspace_chain_alerts.Base.{
  ℕ, suc, ◌+◌, ◌-◌, ◌≤◌, ◌≡◌, refl, sym, ap, ◌∙◌, ◌++◌, length, length-append, init-snoc, last-snoc,
  ◌⊎◌, inl, inr, List, [], ◌∷◌, Option, none, some, last, ◌==◌, ==_iff, Bool-cases, arith,
  last-cons,
}
use subspace_chain_alerts.Error.{Exec, ok, err, panic, running, done}
use subspace_chain_alerts.Alert.{Alert}
use subspace_chain_alerts.Gossip.{PoTInfo}
use subspace_chain_alerts.Config.{Duration, SlotsConfig}
use subspace_chain_alerts.Monitor.{Input, received}
use subspace_chain_alerts.Slots.{
  SlotDetails, BoundedVec, Truncates, Monitor, bound, start, round, on_proof, on_next, on_extension,
  with_average, checked, slot_max,
}
use subspace_chain_alerts.Slots.Window.{
  IsWindow, filling, full, After, After-of_last, After-suc, entries, entries-snoc, arrival-snoc,
  Ordered-snoc, Consecutive-snoc, length-entries,
}

-- The monitor took the proof into its window.
pub record Accepted (vec : BoundedVec) (i : PoTInfo) (m m' : Monitor) : Type 0 where
  pub pushed :
      m'.slots
      ≡ vec.force_push m.slots (record { proof = i.proof; duration = i.at - m.last_instant })
  pub at : m'.last_instant ≡ i.at
  pub first_or_next :
      (last m.slots ≡ none)
      ⊎ ((x : SlotDetails) × (last m.slots ≡ some x) × (i.proof.slot ≡ x.proof.slot + 1))

with_average-ok :
    (config : SlotsConfig) (m m' : Monitor) (slot : ℕ) (alerts : List Alert) (r : Exec Duration)
    → (with_average config m slot alerts r).0 ≡ ok m'
    → m' ≡ m
unfolding with_average
with_average-ok config m m' slot alerts (ok a) e = ground arith
with_average-ok config m m' slot alerts (err x) e = ground arith
with_average-ok config m m' slot alerts panic e = ground arith
with_average-ok config m m' slot alerts running e = ground arith

checked-ok : (limit n k : ℕ) → checked limit n ≡ ok k → (k ≡ n) × (n ≤ limit)
unfolding checked
checked-ok limit n k e = ground arith

-- The monitor after a proof is taken into the window, but for the time-out.
abbrev pub extended : BoundedVec → Option Duration → Monitor → PoTInfo → Monitor
extended vec timeout_fired m i = record {
  timeout_fired = timeout_fired;
  last_instant = i.at;
  slots = vec.force_push m.slots (record { proof = i.proof; duration = i.at - m.last_instant });
}

module _ (vec : BoundedVec) (config : SlotsConfig) (m m' : Monitor) (i : PoTInfo) where
  pub extended-Accepted :
      (timeout_fired : Option Duration)
      → m' ≡ extended vec timeout_fired m i
      → (last m.slots ≡ none)
        ⊎ ((x : SlotDetails) × (last m.slots ≡ some x) × (i.proof.slot ≡ x.proof.slot + 1))
      → Accepted vec i m m'
  extended-Accepted timeout_fired e f = record {
    pushed = ap (λ n. n.slots) e;
    at = ap (λ n. n.last_instant) e;
    first_or_next = f;
  }

  on_next-ok :
      (x : SlotDetails) (r : Exec ℕ)
      → (on_next vec config m i x r).0 ≡ ok m'
      → last m.slots ≡ some x
      → ((k : ℕ) → r ≡ ok k → k ≡ x.proof.slot + 1)
      → (m' ≡ m) ⊎ Accepted vec i m m'
  unfolding on_next on_extension
  on_next-ok x (ok k) e at_end next = elim (Bool-cases (i.proof.slot == k)) [
    | inl same ↦
        let extension : (on_extension vec config m i x).0 ≡ ok m' = rw same at e in
        inr (
          extended-Accepted none (with_average-ok config (extended vec none m i) m' _ _ _ extension)
            (inr (x, at_end, (==_iff i.proof.slot k).0 same ∙ next k refl)))
    | inr other ↦ inl (ground arith)
  ]
  on_next-ok x (err y) e at_end next = ground arith
  on_next-ok x panic e at_end next = ground arith
  on_next-ok x running e at_end next = ground arith

  on_proof-ok :
      (o : Option SlotDetails)
      → last m.slots ≡ o
      → (on_proof vec config m i o).0 ≡ ok m'
      → (m' ≡ m) ⊎ Accepted vec i m m'
  unfolding on_proof
  on_proof-ok none at_end e = inr (extended-Accepted m.timeout_fired (ground arith) (inl at_end))
  on_proof-ok (some x) at_end e =
      on_next-ok x (checked slot_max (x.proof.slot + 1)) e at_end
        (λ k h. (checked-ok slot_max (x.proof.slot + 1) k h).0)

  -- A proof that is handled leaves the monitor as it was, or is taken into the window; that only
  -- happens if it is the first, or for the slot after the last one.
  pub proof-Accepted :
      (round vec config m (received (done i))).0 ≡ ok m' → (m' ≡ m) ⊎ Accepted vec i m m'
  unfolding round
  proof-Accepted e = on_proof-ok (last m.slots) refl e

-- No proof comes before the last one that was taken.
abbrev pub Timely : Monitor → Input PoTInfo → Type 0
Timely m (received (done i)) = m.last_instant ≤ i.at
Timely m _ = Unit {0}

pub start-IsWindow : (now : ℕ) → IsWindow (start now)
start-IsWindow now = filling now [] refl refl tt tt (omega arith)

follows_last :
    (previous : ℕ) (infos : List PoTInfo) (i : PoTInfo)
    → (last (entries previous infos) ≡ none)
      ⊎ ((x : SlotDetails) × (last (entries previous infos) ≡ some x)
          × (i.proof.slot ≡ x.proof.slot + 1))
    → After 0 infos i
follows_last previous infos i (inr (x, at_end, next)) = After-of_last previous infos i x at_end next
follows_last previous [] i (inl e) = tt
follows_last previous (j ∷ infos) i (inl e) =
    let (x, there) =
      last-cons (record { proof = j.proof; duration = j.at - previous }) (entries j.at infos) in
    absurd (ground (arith, there))

-- The slot is the one after that of the entry at the end.
next_slot :
    (slots : List SlotDetails) (y : SlotDetails) (i : PoTInfo)
    → (last (slots ++ y ∷ []) ≡ none)
      ⊎ ((x : SlotDetails) × (last (slots ++ y ∷ []) ≡ some x) × (i.proof.slot ≡ x.proof.slot + 1))
    → i.proof.slot ≡ y.proof.slot + 1
next_slot slots y i (inl e) = absurd (ground (arith, last-snoc slots y))
next_slot slots y i (inr (x, e, next)) = ground (arith, last-snoc slots y)

module _ (vec : BoundedVec) (truncates : Truncates vec) (m m' : Monitor) (i : PoTInfo) where
  -- An arrival for a slot that may follow goes to the end of the window.
  pub Accepted-IsWindow : m.last_instant ≤ i.at → IsWindow m → Accepted vec i m m' → IsWindow m'
  Accepted-IsWindow later (filling previous infos h n o c f) a =
      let x : SlotDetails = record { proof = i.proof; duration = i.at - m.last_instant } in
      let long = length-entries previous infos in
      let follows = follows_last previous infos i (rw h at a.first_or_next) in
      let appended : m'.slots ≡ entries previous infos ++ x ∷ [] =
        a.pushed
        ∙ ap (λ slots. vec.force_push slots x) h
        ∙ truncates.appends (entries previous infos) x (omega arith) in
      elim (Bool-cases (suc (length infos) == bound)) [
        | inl at_bound ↦
            full previous infos m.last_instant 0 i appended a.at o c (omega arith) later follows
              ((==_iff (suc (length infos)) bound).0 at_bound)
        | inr room ↦
            filling previous (infos ++ i ∷ [])
              (appended
                ∙ ap
                    (λ t.
                      entries previous infos
                      ++ record { proof = i.proof; duration = i.at - t } ∷ [])
                    n
                ∙ sym (entries-snoc previous infos i))
              (a.at ∙ sym (arrival-snoc previous infos i))
              (Ordered-snoc previous infos i o (omega arith)) (Consecutive-snoc infos i c follows)
              (ground (arith, length-append infos (i ∷ [])))
      ]
  Accepted-IsWindow later (full previous infos before skipped latest h n o c b l s f) a =
      let x : SlotDetails = record { proof = i.proof; duration = i.at - m.last_instant } in
      let y : SlotDetails = record { proof = latest.proof; duration = latest.at - before } in
      let long = length-entries previous infos in
      let counted = length-append (entries previous infos) (y ∷ []) in
      full previous infos m.last_instant (suc skipped) i
        (a.pushed
          ∙ ap (λ slots. vec.force_push slots x) h
          ∙ truncates.truncates (entries previous infos ++ y ∷ []) x (omega arith)
          ∙ ap (λ slots. slots ++ x ∷ []) (init-snoc (entries previous infos) y))
        a.at o c (omega arith) later
        (After-suc skipped infos latest i s
          (next_slot (entries previous infos) y i (rw h at a.first_or_next)))
        f
