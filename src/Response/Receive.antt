-- ===== src/Response/Receive.antt =====
-- native_module/src/response_capture.cpp, `receive`: the detour of the game's function that sends a
-- reply. Foreign memory and the conversion of WideCharToMultiByte are parameters. A wchar_t is a
-- number below 2 ^ 16, an int32_t its bit pattern.
use open_scum_rcon.Base.{
  ℕ, ◌*◌, ◌^◌, ◌≤◌, min, ◌≡◌, refl, Bool, true, false, not, ◌&&◌, ◌||◌, Option, none, some, List,
  [], ◌∷◌, map, arith, Bytes, ltb, leb, ◌==◌, if◌then◌else◌, length, All,
}
use open_scum_rcon.Response.{Scopes, matches, failure, accept}

pub record StringHeader : Type 0 where
  pub has_data : Bool
  pub num : ℕ
  pub capacity : ℕ

-- What stands behind the message: `none` is a read that fails. `to_utf8` is `none` for a text that is
-- no UTF-16.
pub record Message : Type 0 where
  pub header : Option StringHeader
  pub units : ℕ → Option (List ℕ)
  pub to_utf8 : List ℕ → Option Bytes

-- `num < 0 || num > 1048576 || capacity < num || (num && !data)`; a negative number is a large one.
unfoldable pub header_refused : StringHeader → Bool
header_refused header =
    ltb 1048576 header.num
    || leb (2 ^ 31) header.capacity
    || ltb header.capacity header.num
    || (not (header.num == 0) && not header.has_data)

-- `if (!wide.empty() && p(wide.back())) wide.pop_back()`
unfoldable pub pop_back_if : (ℕ → Bool) → List ℕ → List ℕ
pop_back_if p [] = []
pop_back_if p (c ∷ []) = if p c then [] else c ∷ []
pop_back_if p (c ∷ d ∷ cs) = c ∷ pop_back_if p (d ∷ cs)

abbrev pub is_high_surrogate : ℕ → Bool
is_high_surrogate c = leb 0xd800 c && leb c 0xdbff

abbrev pub is_other_control : ℕ → Bool
is_other_control c =
    c == 0 || (ltb c 32 && not (c == b'\n') && not (c == b'\r') && not (c == b'\t'))

unfoldable pub clean_unit : ℕ → ℕ
clean_unit c = if is_other_control c then b' ' else c

-- The text that is converted, from the `n` units that were read.
unfoldable pub clean : ℕ → ℕ → List ℕ → List ℕ
unfolding pop_back_if
clean n num wide =
    let whole = if n == num then pop_back_if (λ c. c == 0) wide else wide in
    let cut = if ltb n num then pop_back_if is_high_surrogate whole else whole in map clean_unit cut

-- From the conversion on.
unfoldable pub convert : (ℕ → Bool) → Message → List ℕ → ℕ → Scopes → Scopes
convert can_hold message wide command current =
    if length wide == 0
    then (accept can_hold command [] current).1
    else elim (message.to_utf8 wide) [
      | none ↦ failure current
      | some content ↦
          if can_hold (length content)
          then (accept can_hold command content current).1
          else failure current
    ]

-- The `try` block.
unfoldable pub receive_own : (ℕ → Bool) → Message → ℕ → Scopes → Scopes
receive_own can_hold message command current = elim message.header [
  | none ↦ failure current
  | some header ↦
      if header_refused header
      then failure current
      else if header.num == 0
      then (accept can_hold command [] current).1
      else (let n = min header.num 65538 in
          if not (can_hold (2 * n)) then failure current else elim (message.units n) [
            | none ↦ failure current
            | some wide ↦ convert can_hold message (clean n header.num wide) command current
          ])
]

-- Whether the call is passed through to the game, and the scopes behind it.
unfoldable pub receive : (ℕ → Bool) → Message → ℕ → Scopes → Bool × Scopes
receive can_hold message command current =
    if not (matches command current)
    then (true, current)
    else (false, receive_own can_hold message command current)

length-pop_back_if : (p : ℕ → Bool) (cs : List ℕ) → length (pop_back_if p cs) ≤ length cs
unfolding pop_back_if
length-pop_back_if p [] = omega arith
length-pop_back_if p (c ∷ []) = ground arith
length-pop_back_if p (c ∷ d ∷ cs) = omega (arith, length-pop_back_if p (d ∷ cs))

map-clean_unit :
    (cs : List ℕ)
    → All (λ c. is_other_control c ≡ false) (map clean_unit cs)
      × (length (map clean_unit cs) ≡ length cs)
unfolding clean_unit
map-clean_unit [] = (_, refl)
map-clean_unit (c ∷ cs) =
    let (rest, size) = map-clean_unit cs in ((ground arith, rest), omega (arith, size))

-- The text that is converted has no control characters but line breaks, returns and tabs, and no
-- more units than were read.
pub clean-bounded :
    (n num : ℕ) (wide : List ℕ)
    → All (λ c. is_other_control c ≡ false) (clean n num wide)
      × (length (clean n num wide) ≤ length wide)
unfolding clean
clean-bounded n num wide =
    let whole = if n == num then pop_back_if (λ c. c == 0) wide else wide in
    let cut = if ltb n num then pop_back_if is_high_surrogate whole else whole in
    let (sound, size) = map-clean_unit cut in
    let first : length whole ≤ length wide =
      ground (arith, length-pop_back_if (λ c. c == 0) wide) in
    let second : length cut ≤ length whole =
      ground (arith, length-pop_back_if is_high_surrogate whole) in
    (sound, omega arith)
