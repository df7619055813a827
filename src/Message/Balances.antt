-- ===== src/Message/Balances.antt =====
-- alerter/src/md_format.rs, `format_balance`: which balances can be written.
use native.Mathlib.Nat.{pow-le-pow_right}
use subspace_chain_alerts.Base.{
  ℕ, [], ◌∷◌, concat, codes, ◌^◌, ◌≤◌, ◌<◌, ◌≡◌, ◌⊎◌, refl, inl, inr, arith, leb, ltb, Text,
  Bool-cases, true, false,
}
use subspace_chain_alerts.Error.{Exec, ok, panic}
use subspace_chain_alerts.Chain.{Balance}
use subspace_chain_alerts.Message.{Rendering, FormatConfig, format_balance, pow_10, u128_max}

-- rust_decimal's integers have 96 bits: `From<u128>` panics from there on, and the quotient by a
-- positive integer is always held.
pub record Has96Bits (r : Rendering) : Type 0 where
  pub holds : (n : ℕ) → n < 2 ^ 96 → (d : r.Decimal) × (r.decimal_from n ≡ ok d)
  pub refuses : (n : ℕ) → 2 ^ 96 ≤ n → r.decimal_from n ≡ panic
  pub divides :
      (a b : ℕ) (x y : r.Decimal)
      → r.decimal_from a ≡ ok x
      → r.decimal_from b ≡ ok y
      → 0 < b
      → (q : r.Decimal) × (r.decimal_div x y ≡ ok q)

pow_10_fits : (n : ℕ) → n ≤ 28 → (10 ^ n < 2 ^ 96) × (0 < 10 ^ n)
pow_10_fits n h = (
  omega (arith, pow-le-pow_right {n = 10} (omega arith) h),
  omega (arith, pow-le-pow_right {n = 10} (omega arith) {i = 0} {j = n} (omega arith)),
)

pow_10_big : (n : ℕ) → 29 ≤ n → 2 ^ 96 ≤ 10 ^ n
pow_10_big n h = omega (arith, pow-le-pow_right {n = 10} (omega arith) h)

module _ (r : Rendering) (bits : Has96Bits r) (config : FormatConfig) (balance : Balance) where
  format_balance-big : 2 ^ 96 ≤ balance → format_balance r config balance ≡ panic
  unfolding format_balance
  format_balance-big big = rw (bits.refuses balance big)

  format_balance-fits :
      balance < 2 ^ 96
      → config.token_decimals ≤ 28
      → (text : Text) × (format_balance r config balance ≡ ok text)
  unfolding format_balance pow_10
  format_balance-fits small few =
      let unit = 10 ^ config.token_decimals in
      let (fits, positive) = pow_10_fits config.token_decimals few in
      let (x, held) = bits.holds balance small in
      let (y, held') = bits.holds unit fits in
      let (q, divided) = bits.divides balance unit x y held held' positive in
      let test : leb unit u128_max ≡ true = ground arith in
      (
        concat (r.display_decimal q ∷ codes " " ∷ config.token_name ∷ []),
        rw (held, test, held', divided) refl,
      )

  format_balance-many :
      (x : r.Decimal)
      → r.decimal_from balance ≡ ok x
      → 29 ≤ config.token_decimals
      → format_balance r config balance ≡ panic
  unfolding format_balance pow_10
  format_balance-many x held many = elim (Bool-cases (leb (10 ^ config.token_decimals) u128_max)) [
    | inl fits ↦ rw (
      held,
      fits,
      bits.refuses (10 ^ config.token_decimals) (pow_10_big config.token_decimals many),
    )
    | inr over ↦ rw (held, over)
  ]

-- A balance is written, or refused by a panic.
pub data Written (balance : Balance) (decimals : ℕ) : Exec Text → Type 0 where
  written :
      {text : Text} {result : Exec Text}
      → balance < 2 ^ 96
      → decimals ≤ 28
      → result ≡ ok text
      → Written balance decimals result
  refused :
      {result : Exec Text}
      → (2 ^ 96 ≤ balance) ⊎ (29 ≤ decimals)
      → result ≡ panic
      → Written balance decimals result

module _ (r : Rendering) (bits : Has96Bits r) (config : FormatConfig) where
  -- A balance below 2 ^ 96 of a token with 28 decimals at most is written; for any other balance, and
  -- for any token with more decimals, the formatter panics.
  pub format_balance-Written :
      (balance : Balance) → Written balance config.token_decimals (format_balance r config balance)
  format_balance-Written balance = by_size (Bool-cases (ltb balance (2 ^ 96)))
    where
      by_size :
          (ltb balance (2 ^ 96) ≡ true) ⊎ (ltb balance (2 ^ 96) ≡ false)
          → Written balance config.token_decimals (format_balance r config balance)
      by_size (inr big) =
          refused (inl (ground arith)) (format_balance-big r bits config balance (ground arith))
      by_size (inl small) = by_decimals (Bool-cases (leb config.token_decimals 28))
        where
          by_decimals :
              (leb config.token_decimals 28 ≡ true) ⊎ (leb config.token_decimals 28 ≡ false)
              → Written balance config.token_decimals (format_balance r config balance)
          by_decimals (inl few) =
              let (text, e) =
                format_balance-fits r bits config balance (ground arith) (ground arith) in
              written (ground arith) (ground arith) e
          by_decimals (inr many) =
              let (x, held) = bits.holds balance (ground arith) in
              refused (inr (ground arith))
                (format_balance-many r bits config balance x held (ground arith))
