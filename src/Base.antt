-- ===== src/Base.antt =====
-- The names that the other modules share: the libraries' names, passed on, and those of the
-- children (Boolean tests, lists, keyed maps and text, which the code takes from Rust's std).
mod Bools
mod Lists
mod Maps
mod Strings
mod Whitespace
pub use Bools.*
pub use Lists.*
unfoldable pub use Maps.{get, insert, remove, contains, set_insert, set_remove}
pub use Maps.{
  Eq, ◌===◌, ===_refl, nat_eq, Map, get-insert, get-remove, length-remove-le, length-remove-lt,
  map_laws,
}
pub use Maps.{contains-set_insert, contains-set_remove, set_laws}
unfoldable pub use Strings.{show_ℕ}
unfoldable pub use Whitespace.{trim_start, trim}
pub use Whitespace.{is_whitespace}
pub use Strings.{Text, codes, text_eq, concat, show_ℕ-All}
pub use Prim.Native.Nat.{ℕ, zero, suc, ◌+◌, ◌-◌, ◌*◌, ◌/◌, ◌%◌, ◌^◌, ◌≤◌, ◌<◌, min, max}
pub use mathlib.Core.Path.{◌≡◌, refl, sym, ap, ◌∙◌, fun_ext, ◌≡⟨◌⟩◌, ◌∎}
pub use mathlib.Core.Logic.{◌≢◌, ◌↔◌, ◌⊎◌, inl, inr}
pub use mathlib.Core.Bool.{Bool, true, false, not, ◌&&◌, ◌||◌}
pub use mathlib.Core.Option.{Option, none, some}
pub use mathlib.Core.List.{List, [], ◌∷◌, ◌++◌, map, reverse, append-nil, append_assoc, map-append}
pub use native.Mathlib.Omega.{arith}
