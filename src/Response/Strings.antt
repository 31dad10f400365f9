-- ===== src/Response/Strings.antt =====
-- What stands in memory behind a message, and what is converted of it.
use open_scum_rcon.Base.{
  ℕ, ◌+◌, ◌^◌, ◌≤◌, ◌<◌, min, ◌≡◌, refl, ap, ◌≢◌, inl, inr, Bool, true, false, none, some, List, [],
  ◌∷◌, ◌++◌, map, arith, Bytes, ltb, ◌==◌, if◌then◌else◌, Bool-cases, length, take, length-append,
  take_all, take-append_left,
}
use open_scum_rcon.Response.Receive.{
  StringHeader, Message, header_refused, pop_back_if, is_high_surrogate, clean_unit, clean,
}

-- The memory behind the message is a string: `units`, and a NUL behind them.
pub record Holds (message : Message) (units : List ℕ) : Type 0 where
  pub header : StringHeader
  pub read : message.header ≡ some header
  pub counted : header.num ≡ length units + 1
  pub small : length units < 1048576
  pub in_capacity : header.num ≤ header.capacity
  pub positive : header.capacity < 2 ^ 31
  pub stored : header.has_data ≡ true
  pub readable : (n : ℕ) → n ≤ length units + 1 → message.units n ≡ some (take n (units ++ 0 ∷ []))

-- What is taken of a string: all of it, or its first 65538 units, but no half of a surrogate pair.
abbrev pub taken : List ℕ → List ℕ
taken units =
    if ltb 65537 (length units) then pop_back_if is_high_surrogate (take 65538 units) else units

-- The text of a string, with blanks for control characters.
abbrev pub Converts : Message → List ℕ → Bytes → Type 0
Converts message [] content = content ≡ []
Converts message (c ∷ units) content = message.to_utf8 (map clean_unit (c ∷ units)) ≡ some content

-- No string, or one that is no UTF-16.
pub data IsBroken (message : Message) : Type 0 where
  no_header : message.header ≡ none → IsBroken message
  too_long : (h : StringHeader) → message.header ≡ some h → 1048576 < h.num → IsBroken message
  over_capacity :
      (h : StringHeader) → message.header ≡ some h → h.capacity < h.num → IsBroken message
  negative : (h : StringHeader) → message.header ≡ some h → 2 ^ 31 ≤ h.capacity → IsBroken message
  no_data :
      (h : StringHeader)
      → message.header ≡ some h
      → h.num ≢ 0
      → h.has_data ≡ false
      → IsBroken message
  not_readable :
      (h : StringHeader)
      → message.header ≡ some h
      → h.num ≢ 0
      → ((n : ℕ) → message.units n ≡ none)
      → IsBroken message
  not_utf16 :
      (c : ℕ) (units rest : List ℕ)
      → Holds message units
      → taken units ≡ c ∷ rest
      → message.to_utf8 (map clean_unit (c ∷ rest)) ≡ none
      → IsBroken message

pop_back-last :
    (p : ℕ → Bool) (units : List ℕ) (c : ℕ) → p c ≡ true → pop_back_if p (units ++ c ∷ []) ≡ units
unfolding pop_back_if
pop_back-last p [] c e = rw e refl
pop_back-last p (u ∷ []) c e = rw e refl
pop_back-last p (u ∷ v ∷ units) c e = ap (λ us. u ∷ us) (pop_back-last p (v ∷ units) c e)

clean-whole :
    (num : ℕ) (units : List ℕ)
    → num ≡ length units + 1
    → clean num num (take num (units ++ 0 ∷ [])) ≡ map clean_unit units
unfolding clean
clean-whole num units e =
    let size : length (units ++ 0 ∷ []) ≤ num = omega (arith, length-append units (0 ∷ [])) in
    let same : (num == num) ≡ true = ground arith in
    let equal : ltb num num ≡ false = ground arith in
    rw (same, equal, take_all num (units ++ 0 ∷ []) size, pop_back-last (λ c. c == 0) units 0 refl)
      refl

clean-part :
    (n num : ℕ) (units : List ℕ)
    → n < num
    → n ≤ length units
    → clean n num (take n (units ++ 0 ∷ []))
      ≡ map clean_unit (pop_back_if is_high_surrogate (take n units))
unfolding clean
clean-part n num units less inside =
    let other : (n == num) ≡ false = ground arith in
    let before : ltb n num ≡ true = ground arith in
    rw (other, before, take-append_left n units (0 ∷ []) inside) refl

pub clean-taken :
    (num : ℕ) (units : List ℕ)
    → num ≡ length units + 1
    → clean (min num 65538) num (take (min num 65538) (units ++ 0 ∷ []))
      ≡ map clean_unit (taken units)
clean-taken num units e = elim (Bool-cases (ltb 65537 (length units))) [
  | inl long ↦
      let part : min num 65538 ≡ 65538 = ground arith in
      rw (part, long) (clean-part 65538 num units (ground arith) (ground arith))
  | inr short ↦
      let whole : min num 65538 ≡ num = ground arith in rw (whole, short) (clean-whole num units e)
]

module _ (message : Message) (units : List ℕ) (holds : Holds message units) where
  pub sound_header : header_refused holds.header ≡ false
  unfolding header_refused
  sound_header =
      ground (arith, holds.counted, holds.small, holds.in_capacity, holds.positive, holds.stored)
