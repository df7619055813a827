-- ===== src/Slots/Window.antt =====
-- alerter/src/slots.rs: the window of the last slots, by the arrivals of their proofs.
use subspace_chain_alerts.Base.{
  ℕ, suc, ◌+◌, ◌-◌, ◌≤◌, ◌≡◌, refl, ap, ◌∙◌, List, [], ◌∷◌, ◌++◌, some, last, length, sum, map,
  arith, length-append,
}
use subspace_chain_alerts.Config.{Duration}
use subspace_chain_alerts.Gossip.{PoTInfo}
use subspace_chain_alerts.Slots.{SlotDetails, Monitor, bound}

-- The entries of arrivals, the first of them after `previous`.
abbrev pub entries : ℕ → List PoTInfo → List SlotDetails
entries previous [] = []
entries previous (i ∷ infos) =
    record { proof = i.proof; duration = i.at - previous } ∷ entries i.at infos

-- The time of the last arrival.
abbrev pub arrival : ℕ → List PoTInfo → ℕ
arrival previous [] = previous
arrival previous (i ∷ infos) = arrival i.at infos

-- No arrival is before the one that it follows.
abbrev pub Ordered : ℕ → List PoTInfo → Type 0
Ordered previous [] = Unit {0}
Ordered previous (i ∷ infos) = (previous ≤ i.at) × Ordered i.at infos

-- Each slot is the one after the slot before it.
abbrev pub Consecutive : List PoTInfo → Type 0
Consecutive [] = Unit {0}
Consecutive (i ∷ []) = Unit {0}
Consecutive (i ∷ j ∷ infos) = (j.proof.slot ≡ i.proof.slot + 1) × Consecutive (j ∷ infos)

-- The arrival `i` comes after `infos` and `skipped` slots more, if there are any.
abbrev pub After : ℕ → List PoTInfo → PoTInfo → Type 0
After skipped [] i = Unit {0}
After skipped (j ∷ []) i = i.proof.slot ≡ j.proof.slot + 1 + skipped
After skipped (j ∷ k ∷ infos) i = After skipped (k ∷ infos) i

-- The window of a monitor. While it fills, it is that of some arrivals with consecutive slots. When it is
-- full, it has 599 of these and the latest arrival, `skipped` slots after them, with the time since the
-- arrival before it, which came at `before` and need not be in the window.
pub data IsWindow (m : Monitor) : Type 0 where
  filling :
      (previous : ℕ) (infos : List PoTInfo)
      → m.slots ≡ entries previous infos
      → m.last_instant ≡ arrival previous infos
      → Ordered previous infos
      → Consecutive infos
      → suc (length infos) ≤ bound
      → IsWindow m
  full :
      (previous : ℕ) (infos : List PoTInfo) (before skipped : ℕ) (latest : PoTInfo)
      → m.slots
        ≡ entries previous infos
          ++ record { proof = latest.proof; duration = latest.at - before } ∷ []
      → m.last_instant ≡ latest.at
      → Ordered previous infos
      → Consecutive infos
      → arrival previous infos ≤ before
      → before ≤ latest.at
      → After skipped infos latest
      → suc (length infos) ≡ bound
      → IsWindow m

pub entries-snoc :
    (previous : ℕ) (infos : List PoTInfo) (i : PoTInfo)
    → entries previous (infos ++ i ∷ [])
      ≡ entries previous infos
        ++ record { proof = i.proof; duration = i.at - arrival previous infos } ∷ []
entries-snoc previous [] i = refl
entries-snoc previous (j ∷ infos) i = rw (entries-snoc j.at infos i)

pub arrival-snoc :
    (previous : ℕ) (infos : List PoTInfo) (i : PoTInfo) → arrival previous (infos ++ i ∷ []) ≡ i.at
arrival-snoc previous [] i = refl
arrival-snoc previous (j ∷ infos) i = arrival-snoc j.at infos i

pub Ordered-snoc :
    (previous : ℕ) (infos : List PoTInfo) (i : PoTInfo)
    → Ordered previous infos
    → arrival previous infos ≤ i.at
    → Ordered previous (infos ++ i ∷ [])
Ordered-snoc previous [] i o h = (h, tt)
Ordered-snoc previous (j ∷ infos) i o h = (o.0, Ordered-snoc j.at infos i o.1 h)

pub length-entries :
    (previous : ℕ) (infos : List PoTInfo) → length (entries previous infos) ≡ length infos
length-entries previous [] = refl
length-entries previous (i ∷ infos) = ap suc (length-entries i.at infos)

-- The durations of the window add up to the time from before its first arrival to its last.
pub sum-entries :
    (previous : ℕ) (infos : List PoTInfo)
    → Ordered previous infos
    → sum (map (λ x. x.duration) (entries previous infos)) + previous ≡ arrival previous infos
sum-entries previous [] o = omega arith
sum-entries previous (i ∷ infos) o = omega (arith, sum-entries i.at infos o.1)

pub Consecutive-snoc :
    (infos : List PoTInfo) (i : PoTInfo)
    → Consecutive infos
    → After 0 infos i
    → Consecutive (infos ++ i ∷ [])
Consecutive-snoc [] i c f = tt
Consecutive-snoc (j ∷ []) i c f = (ground arith, tt)
Consecutive-snoc (j ∷ k ∷ infos) i c f = (c.0, Consecutive-snoc (k ∷ infos) i c.1 f)

-- The last entry of the window tells which slot may follow.
pub After-of_last :
    (previous : ℕ) (infos : List PoTInfo) (i : PoTInfo) (x : SlotDetails)
    → last (entries previous infos) ≡ some x
    → i.proof.slot ≡ x.proof.slot + 1
    → After 0 infos i
After-of_last previous [] i x e h = tt
After-of_last previous (j ∷ []) i x e h = ground arith
After-of_last previous (j ∷ k ∷ infos) i x e h = After-of_last j.at (k ∷ infos) i x e h

-- The slot after a later one is one slot later.
pub After-suc :
    (skipped : ℕ) (infos : List PoTInfo) (i i' : PoTInfo)
    → After skipped infos i
    → i'.proof.slot ≡ i.proof.slot + 1
    → After (suc skipped) infos i'
After-suc skipped [] i i' a h = tt
After-suc skipped (j ∷ []) i i' a h = omega arith
After-suc skipped (j ∷ k ∷ infos) i i' a h = After-suc skipped (k ∷ infos) i i' a h

-- The time that the durations of a window add up to: while it fills from before the first arrival to the
-- last; then that of the first 599 entries, and of the last one.
abbrev pub spent : (m : Monitor) → IsWindow m → Duration
spent m (filling previous infos h n o c f) = arrival previous infos - previous
spent m (full previous infos before skipped latest h n o c a b s f) =
    (arrival previous infos - previous) + (latest.at - before)

abbrev pub count : (m : Monitor) → IsWindow m → ℕ
count m (filling previous infos h n o c f) = length infos
count m (full previous infos before skipped latest h n o c a b s f) = suc (length infos)

pub length-slots : (m : Monitor) (w : IsWindow m) → length m.slots ≡ count m w
length-slots m (filling previous infos h n o c f) = ap length h ∙ length-entries previous infos
length-slots m (full previous infos before skipped latest h n o c a b s f) = rw h (
    omega (
      arith,
      length-append (entries previous infos)
          (record { proof = latest.proof; duration = latest.at - before } ∷ []),
      length-entries previous infos,
    ))

sum_snoc :
    (slots : List SlotDetails) (x : SlotDetails)
    → sum (map (λ x. x.duration) (slots ++ x ∷ [])) ≡ sum (map (λ x. x.duration) slots) + x.duration
sum_snoc [] x = omega arith
sum_snoc (y ∷ slots) x = omega (arith, sum_snoc slots x)

pub sum-slots : (m : Monitor) (w : IsWindow m) → sum (map (λ x. x.duration) m.slots) ≡ spent m w
sum-slots m (filling previous infos h n o c f) = rw h (omega (arith, sum-entries previous infos o))
sum-slots m (full previous infos before skipped latest h n o c a b s f) =
    rw (h, sum_snoc (entries previous infos) _) (omega (arith, sum-entries previous infos o))

-- No more time is spent than has passed.
pub spent-le : (m : Monitor) (w : IsWindow m) → spent m w ≤ m.last_instant
spent-le m (filling previous infos h n o c f) = omega arith
spent-le m (full previous infos before skipped latest h n o c a b s f) =
    omega (arith, sum-entries previous infos o)

pub count-le : (m : Monitor) (w : IsWindow m) → count m w ≤ bound
count-le m (filling previous infos h n o c f) = omega arith
count-le m (full previous infos before skipped latest h n o c a b s f) = omega arith
