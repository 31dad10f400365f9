-- ===== src/Utf8.antt =====
-- native_module/src/response_buffer.hpp, `utf8_prefix_size`: where a byte string may be cut.
pub mod Boundary
pub mod Valid
use Prim.Native.Nat.{bit_and}
use open_scum_rcon.Base.{
  ℕ, zero, suc, ◌+◌, ◌-◌, ◌*◌, ◌/◌, ◌%◌, ◌^◌, ◌≤◌, ◌<◌, min, ◌≡◌, refl, sym, ap, ◌∙◌, subst, ◌≢◌,
  ◌↔◌, ◌⊎◌, inl, inr, Bool, true, false, not, ◌&&◌, ◌||◌, Option, none, some, List, [], ◌∷◌, ◌++◌,
  map, append-nil, append_assoc, arith, Bytes, IsBytes, text, same_text, same_text_iff, any_byte,
  all_bytes, ltb, leb, ◌==◌, if◌then◌else◌, ltb→lt, ltb→ge, leb→le, ==_iff, Bool-cases,
  Option-cases, length, get_or, take, drop, replicate, length-append, take-append-drop, length-take,
  length-drop, length-replicate, take_all, drop_all, take-append_eq, drop-append_eq,
  take-append_right, drop-append_right, get_or-append_left, get_or-append_right, All, All-append,
  All-append_left, All-append_right, All-take, All-drop, All-get_or, All-get_or_lt,
}

-- `(static_cast<unsigned char>(c) & 0xc0) == 0x80`
unfoldable pub is_continuation : ℕ → Bool
is_continuation c = bit_and c 0xc0 == 0x80

-- The `while` loop: one byte back as long as the cut would stand before a continuation byte.
back_up : Bytes → ℕ → ℕ
back_up input zero = 0
back_up input (suc k) =
    let earlier = back_up input k in
    if ltb (suc k) (length input) && is_continuation (get_or input (suc k) 0)
    then earlier
    else suc k

unfoldable pub utf8_prefix_size : Bytes → ℕ → ℕ
unfolding is_continuation back_up
utf8_prefix_size input limit = back_up input (min (length input) limit)
