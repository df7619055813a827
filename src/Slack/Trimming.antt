-- ===== src/Slack/Trimming.antt =====
-- What `str::trim` does, which alerter/src/slack.rs calls for the secret's text.
use mathlib.Core.List.{reverse-append, reverse-reverse, reverse-cons}
use subspace_chain_alerts.Base.{
  is_whitespace, trim_start, trim, ◌≡◌, refl, sym, ap, ◌∙◌, [], ◌∷◌, ◌++◌, true, false, All,
  All-append, reverse, Text, append_assoc, Bool-cases, inl, inr,
}

abbrev pub IsBlank : Text → Type 0
IsBlank = All (λ c. is_whitespace c ≡ true)

-- A text has no white space at its start.
abbrev pub StartsVisible : Text → Type 0
StartsVisible [] = Unit {0}
StartsVisible (c ∷ text) = is_whitespace c ≡ false

trim_start-split :
    (text : Text)
    → (before : Text) × IsBlank before
      × (text ≡ before ++ trim_start text)
      × StartsVisible (trim_start text)
unfolding trim_start
trim_start-split [] = ([], tt, refl, tt)
trim_start-split (c ∷ text) = elim (Bool-cases (is_whitespace c)) [
  | inl blank ↦
      let (before, blanks, split, visible) = trim_start-split text in
      (c ∷ before, (blank, blanks), rw blank (ap (λ t. c ∷ t) split), rw blank visible)
  | inr shown ↦ ([], tt, rw shown refl, rw shown shown)
]

IsBlank-reverse : (text : Text) → IsBlank text → IsBlank (reverse text)
IsBlank-reverse [] blank = tt
IsBlank-reverse (c ∷ text) blank = rw (reverse-cons c text) (
    All-append (λ d. is_whitespace d ≡ true) (reverse text) (c ∷ []) (IsBlank-reverse text blank.1)
      (blank.0, tt))

StartsVisible-prefix : (text after : Text) → StartsVisible (text ++ after) → StartsVisible text
StartsVisible-prefix [] after visible = tt
StartsVisible-prefix (c ∷ text) after visible = visible

-- `trimmed` is `text` without the white space around it.
pub record IsTrimmed (text trimmed : Text) : Type 0 where
  pub before : Text
  pub after : Text
  pub blank_before : IsBlank before
  pub blank_after : IsBlank after
  pub split : text ≡ before ++ trimmed ++ after
  pub starts_visible : StartsVisible trimmed
  pub ends_visible : StartsVisible (reverse trimmed)

-- Trimming a text takes away white space at both ends, and leaves none at either end.
pub trim-IsTrimmed : (text : Text) → IsTrimmed text (trim text)
unfolding trim
trim-IsTrimmed text =
    let (before, blank, split, visible) = trim_start-split text in
    let (after, blank', split', visible') = trim_start-split (reverse (trim_start text)) in
    let r = trim_start (reverse (trim_start text)) in
    let whole : trim_start text ≡ reverse r ++ reverse after =
      sym (reverse-reverse (trim_start text)) ∙ ap reverse split' ∙ reverse-append after r in
    record {
      before = before;
      after = reverse after;
      blank_before = blank;
      blank_after = IsBlank-reverse after blank';
      split =
          split
          ∙ ap (λ t. before ++ t) whole
          ∙ sym (append_assoc before (reverse r) (reverse after));
      starts_visible = StartsVisible-prefix (reverse r) (reverse after) (rw⁻¹ whole visible);
      ends_visible = rw (reverse-reverse r) visible';
    }
