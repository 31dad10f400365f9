-- ===== src/Trim.antt =====
-- The trimming of blanks that native_module/src/dispatch_request.hpp (in `parse_dispatch_request`)
-- and native_module/src/dllmain.cpp (`trim` in `load_config`) write out with the same calls.
pub mod Spec
use mathlib.Core.Option
use open_scum_rcon.Base.{
  ℕ, zero, suc, ◌+◌, ◌-◌, ◌*◌, ◌/◌, ◌%◌, ◌^◌, ◌≤◌, ◌<◌, min, ◌≡◌, refl, sym, ap, ◌∙◌, subst, ◌≢◌,
  ◌↔◌, ◌⊎◌, inl, inr, Bool, true, false, not, ◌&&◌, ◌||◌, Option, none, some, List, [], ◌∷◌, ◌++◌,
  map, append-nil, append_assoc, arith, Bytes, IsBytes, text, same_text, same_text_iff, any_byte,
  all_bytes, ltb, leb, ◌==◌, if◌then◌else◌, ltb→lt, ltb→ge, leb→le, ==_iff, Bool-cases,
  Option-cases, length, get_or, take, drop, replicate, length-append, take-append-drop, length-take,
  length-drop, length-replicate, take_all, drop_all, take-append_eq, drop-append_eq,
  take-append_right, drop-drop, get_or-drop, drop-append_right, get_or-append_left,
  get_or-append_right, All, All-append, All-append_left, All-append_right, All-take, All-drop,
  All-get_or, All-get_or_lt,
}

-- A byte of " \t\r\n".
unfoldable pub is_blank : ℕ → Bool
is_blank c = c == b' ' || c == b'\t' || c == b'\r' || c == b'\n'

-- `find_first_not_of(" \t\r\n")`; `none` is npos.
unfoldable pub find_first_not_of : Bytes → Option ℕ
unfolding is_blank
find_first_not_of [] = none
find_first_not_of (c ∷ cs) = if is_blank c then Option.map suc (find_first_not_of cs) else some 0

-- `find_last_not_of(" \t\r\n")`
unfoldable pub find_last_not_of : Bytes → Option ℕ
unfolding is_blank
find_last_not_of [] = none
find_last_not_of (c ∷ cs) = elim (find_last_not_of cs) [
  | some i ↦ some (suc i)
  | none ↦ if is_blank c then none else some 0
]

-- `substr(first, last - first + 1)`; `none` where there is no first.
unfoldable pub trim : Bytes → Option Bytes
unfolding find_first_not_of find_last_not_of
trim input = elim (find_first_not_of input) [
  | none ↦ none
  | some first ↦
      Option.map (λ last. take (last - first + 1) (drop first input)) (find_last_not_of input)
]
