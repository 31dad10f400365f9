-- ===== src/Base.antt =====
-- The names that the other modules share: the library's, passed on, and those of the children.
mod Tests
mod Lists
mod Text
mod Results
mod Sorting
mod Decimal
pub use Tests.*
pub use Lists.*
unfoldable pub use Text.{
  Bytes, IsBytes, text, same_text, any_byte, all_bytes, starts_with, contains_text, less_text,
  no_break,
}
pub use Text.{
  IsPlain, same_text_iff, less_text_asym, less_text_connex, starts_with-append, plain, ◌⊕◌,
  IsPlain-take,
}
unfoldable pub use Sorting.{insert_by, sort_by}
pub use Sorting.{IsSorted, sort_by-IsSorted, sort_by-Perm, length-sort_by, All-sort_by}
unfoldable pub use Decimal.{digits, decimal, signed_decimal}
pub use Decimal.{decimal-IsPlain, signed_decimal-IsPlain}
pub use Results.{Result, ok, err, ◌>>=◌, bind-inversion, Result-cases}
pub use Prim.Native.Nat.{ℕ, zero, suc, ◌+◌, ◌-◌, ◌*◌, ◌/◌, ◌%◌, ◌^◌, ◌≤◌, ◌<◌, min}
pub use mathlib.Core.Path.{◌≡◌, refl, sym, ap, ◌∙◌, subst}
pub use mathlib.Core.Logic.{◌≢◌, ◌↔◌, ◌⊎◌, inl, inr}
pub use mathlib.Core.Bool.{Bool, true, false, not, ◌&&◌, ◌||◌}
pub use mathlib.Core.Option.{Option, none, some}
pub use mathlib.Core.List.{List, [], ◌∷◌, ◌++◌, map, append-nil, append_assoc, Perm}
pub use native.Mathlib.Omega.{arith}
