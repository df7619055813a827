-- ===== src/Base/Strings.antt =====
-- Rust's `String` as the list of its code points, its equality test, and the decimal `Display` of
-- the unsigned integers.
use Prim.Native.Nat.{ℕ, zero, suc, ◌+◌, ◌/◌, ◌%◌, ◌<◌}
use Prim.Native.Char.{code}
use Prim.Native.String.{String}
use mathlib.Core.Path.{◌≡◌}
use mathlib.Core.Logic.{◌↔◌, inl, inr}
use mathlib.Core.Bool.{Bool, true, false, ◌&&◌}
use mathlib.Core.List.{List, [], ◌∷◌, ◌++◌}
use native.Mathlib.Omega.{arith}
use subspace_chain_alerts.Base.Bools.{◌==◌, ltb, if◌then◌else◌, Bool-cases}
use subspace_chain_alerts.Base.Lists.{All}
use subspace_chain_alerts.Base.Maps.{Eq}

abbrev pub Text : Type 0
Text = List ℕ

-- The code points of a literal.
abbrev pub codes : String → Text
codes String.[] = []
codes (String.◌∷◌ c s) = code c ∷ codes s

abbrev pub same : Text → Text → Bool
same [] [] = true
same (a ∷ s) (b ∷ t) = a == b && same s t
same _ _ = false

pub same_iff : (s t : Text) → (same s t ≡ true) ↔ (s ≡ t)
same_iff [] [] = ground arith
same_iff (a ∷ s) (b ∷ t) = ground (arith, same_iff s t)
same_iff _ _ = ground arith

instance abbrev pub text_eq : Eq Text
text_eq = record { beq = same; beq_iff = same_iff }

-- Decimal digits, with one round of fuel for each digit: a number has at most itself + 1 digits.
show_digits : ℕ → ℕ → Text → Text
show_digits zero n acc = acc
show_digits (suc f) n acc =
    let more = show_digits f (n / 10) ((n % 10 + 48) ∷ acc) in
    if ltb n 10 then (n + 48) ∷ acc else more

unfoldable pub show_ℕ : ℕ → Text
unfolding show_digits
show_ℕ n = show_digits (suc n) n []

-- `format!`: the pieces one after the other.
abbrev pub concat : List Text → Text
concat [] = []
concat (piece ∷ pieces) = piece ++ concat pieces

module _ {κ} (P : ℕ → Type κ) (digit : (d : ℕ) → d < 10 → P (d + 48)) where
  show_digits-All : (f n : ℕ) (acc : Text) → All P acc → All P (show_digits f n acc)
  unfolding show_digits
  show_digits-All zero n acc h = h
  show_digits-All (suc f) n acc h = elim (Bool-cases (ltb n 10)) [
    | inl last ↦ rw last (digit n (ground arith), h)
    | inr more ↦
        rw more (show_digits-All f (n / 10) ((n % 10 + 48) ∷ acc) (digit (n % 10) (omega arith), h))
  ]

  -- A predicate of the ten digits holds of every character of a number's text.
  pub show_ℕ-All : (n : ℕ) → All P (show_ℕ n)
  unfolding show_ℕ
  show_ℕ-All n = show_digits-All (suc n) n [] tt
