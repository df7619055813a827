-- ===== src/Message/Fixture.antt =====
-- Other crates' texts, in a simple form that keeps their contracts: a decimal is a quotient.
use subspace_chain_alerts.Base.{
  ℕ, ◌^◌, ◌/◌, ◌≢◌, refl, [], ltb, if◌then◌else◌, codes, show_ℕ, show_ℕ-All, arith,
}
use subspace_chain_alerts.Error.{Exec, ok, panic}
use subspace_chain_alerts.Message.{Rendering, FormatConfig}
use subspace_chain_alerts.Message.Balances.{Has96Bits}
use subspace_chain_alerts.Message.BlockLists.{IsFlat}

abbrev held : ℕ → Exec (ℕ × ℕ)
held n = if ltb n (2 ^ 96) then ok (n, 1) else panic

unfoldable pub rendering : Rendering
rendering = record {
  display_hash = show_ℕ;
  hex_encode = show_ℕ;
  url_encode = λ url. [];
  format_duration = show_ℕ;
  Decimal = ℕ × ℕ;
  decimal_from = held;
  decimal_div = λ x y. ok (x.0, y.0);
  display_decimal = λ d. show_ℕ (d.0 / d.1);
}

abbrev pub config : FormatConfig
config = record { rpc_url = codes "ws://node"; token_name = codes "AI3"; token_decimals = 18 }

pub rendering-Has96Bits : Has96Bits rendering
unfolding rendering
rendering-Has96Bits = record {
  holds = λ n h. ((n, 1), ground arith);
  refuses = λ n h. ground arith;
  divides = λ a b x y ex ey h. ((x.0, y.0), refl);
}

pub rendering-IsFlat : IsFlat rendering
unfolding rendering
rendering-IsFlat = record {
  flat_hash = λ h. show_ℕ-All (λ c. c ≢ 10) (λ d p. ground arith) h;
  flat_hex = λ h. show_ℕ-All (λ c. c ≢ 10) (λ d p. ground arith) h;
  flat_url = λ url. tt;
}
