-- ===== src/Utf8/Valid.antt =====
-- Texts with the structure of UTF-8, and where they may be cut.
use open_scum_rcon.Base.{
  ℕ, zero, suc, ◌+◌, ◌-◌, ◌≤◌, ◌<◌, ◌≡◌, refl, sym, ap, ◌∙◌, subst, inl, inr, Bool, true, false,
  not, ◌&&◌, Option, none, some, [], ◌∷◌, ◌++◌, append_assoc, arith, Bytes, ltb, leb, if◌then◌else◌,
  ltb→lt, ltb→ge, Bool-cases, length, get_or, take, drop, length-append, take-append_right,
  drop-append_right, get_or-append_left, get_or-append_right, All, All-get_or_lt,
}
use open_scum_rcon.Utf8.{is_continuation, utf8_prefix_size}
use open_scum_rcon.Utf8.Boundary.{IsBoundary, utf8_prefix_size_greatest}

-- How many continuation bytes follow a lead byte; none for a byte that starts no code point.
abbrev pub tail_size : ℕ → Option ℕ
tail_size lead =
    if ltb lead 0x80
    then some 0
    else if ltb lead 0xc0
    then none
    else if ltb lead 0xe0
    then some 1
    else if ltb lead 0xf0
    then some 2
    else if ltb lead 0xf8
    then some 3
    else none

-- The structure of UTF-8: code points, each a lead byte with as many continuation bytes as it asks
-- for. Overlong forms, surrogates and values above 0x10ffff are not ruled out, for nothing here
-- looks at the value of a code point.
pub data IsUtf8 : Bytes → Type 0 where
  nil : IsUtf8 []
  point :
      (lead : ℕ) (tail : Bytes) {rest whole : Bytes}
      → tail_size lead ≡ some (length tail)
      → All (λ c. is_continuation c ≡ true) tail
      → IsUtf8 rest
      → whole ≡ lead ∷ (tail ++ rest)
      → IsUtf8 whole

lead_ok : ℕ → Bool
lead_ok c = elim (tail_size c) [ none ↦ true | some n ↦ not (is_continuation c) && leb n 3 ]

-- A test of all bytes below a bound.
each_under : (ℕ → Bool) → ℕ → Bool
each_under test zero = true
each_under test (suc bound) = each_under test bound && test bound

each_under-at :
    (test : ℕ → Bool) (bound c : ℕ) → c < bound → each_under test bound ≡ true → test c ≡ true
unfolding each_under
each_under-at test zero c under h = absurd (omega arith)
each_under-at test (suc bound) c under h = ground (arith, each_under-at test bound c)

lead_table : each_under lead_ok 256 ≡ true
unfolding each_under lead_ok is_continuation
lead_table = refl

tail_size-lead : (lead n : ℕ) → tail_size lead ≡ some n → (is_continuation lead ≡ false) × (n ≤ 3)
unfolding lead_ok
tail_size-lead lead n h = ground (arith, table)
  where
    small : lead < 256
    small = ground arith

    table : lead_ok lead ≡ true
    table = each_under-at lead_ok 256 lead small lead_table

no_cut_inside :
    (lead : ℕ) (tail rest : Bytes) (k : ℕ)
    → All (λ c. is_continuation c ≡ true) tail
    → k < length tail
    → ¬ IsBoundary (lead ∷ (tail ++ rest)) (suc k)
no_cut_inside lead tail rest k c h (inl e) = omega arith
no_cut_inside lead tail rest k c h (inr (inl e)) = omega (arith, length-append tail rest)
no_cut_inside lead tail rest k c h (inr (inr f)) =
    let own = All-get_or_lt (λ x. is_continuation x ≡ true) tail k 0 c h in
    let found : is_continuation (get_or (tail ++ rest) k 0) ≡ true =
      rw (get_or-append_left tail rest k 0 h) own in
    cc (found, f)

IsBoundary-beyond :
    (lead : ℕ) (tail rest : Bytes) (i : ℕ)
    → IsBoundary (lead ∷ (tail ++ rest)) (suc (length tail + i))
    → IsUtf8 rest
    → IsBoundary rest i
IsBoundary-beyond lead tail rest i (inl e) v = absurd (omega arith)
IsBoundary-beyond lead tail rest i (inr (inl e)) v =
    inr (inl (omega (arith, length-append tail rest)))
IsBoundary-beyond lead tail rest i (inr (inr f)) v =
    inr (inr (rw (get_or-append_right tail rest i 0) at f))

-- Cutting at a boundary keeps the structure on both sides.
pub split-IsUtf8 :
    {input : Bytes} (k : ℕ)
    → IsUtf8 input
    → IsBoundary input k
    → k ≤ length input
    → IsUtf8 (take k input) × IsUtf8 (drop k input)
split-IsUtf8 zero v b h = (nil, v)
split-IsUtf8 (suc k) nil b h = (nil, nil)
split-IsUtf8 {input} (suc k) (point lead tail {rest} t c v e) b h =
    elim (Bool-cases (ltb k (length tail))) [
      | inl inside ↦ absurd (no_cut_inside lead tail rest k c (ltb→lt _ _ inside) b')
      | inr outside ↦
          let i = k - length tail in
          let at_i : k ≡ length tail + i = omega (arith, ltb→ge _ _ outside) in
          let parts =
            split-IsUtf8 i v (IsBoundary-beyond lead tail rest i (rw at_i at b') v)
              (omega (arith, ap length e, length-append tail rest)) in
          rw (e, at_i)
            (
              point lead tail t c parts.0 (ap (λ zs. lead ∷ zs) (take-append_right tail rest i)),
              rw (drop-append_right tail rest i) parts.1,
            )
    ]
  where
    b' : IsBoundary (lead ∷ (tail ++ rest)) (suc k)
    b' = subst (λ z. IsBoundary z (suc k)) e b

next-IsBoundary :
    (lead : ℕ) (tail : Bytes) {rest : Bytes}
    → IsUtf8 rest
    → IsBoundary (lead ∷ (tail ++ rest)) (suc (length tail))
next-IsBoundary lead tail nil = inr (inl (omega (arith, length-append {0} tail [])))
next-IsBoundary lead tail (point lead' tail' {rest = after} {whole} t c v e) =
    inr (inr (rw (e, first) (tail_size-lead lead' (length tail') t).0))
  where
    first : get_or (tail ++ lead' ∷ (tail' ++ after)) (length tail) 0 ≡ lead'
    first =
        subst (λ i. get_or (tail ++ lead' ∷ (tail' ++ after)) i 0 ≡ lead') (omega arith)
          (get_or-append_right tail (lead' ∷ (tail' ++ after)) 0 0)

-- A text of this structure has a boundary among its positions 1 to 4, or is empty.
early-IsBoundary :
    {input : Bytes}
    → IsUtf8 input
    → 0 < length input
    → (k : ℕ) × (0 < k) × (k ≤ 4) × (k ≤ length input) × IsBoundary input k
early-IsBoundary nil h = absurd (omega arith)
early-IsBoundary (point lead tail {rest} {whole} t c v e) h = (
  suc (length tail),
  omega arith,
  omega (arith, (tail_size-lead lead (length tail) t).1),
  omega (arith, ap length e, length-append tail rest),
  subst (λ z. IsBoundary z (suc (length tail))) (sym e) (next-IsBoundary lead tail v),
)

-- A limit of four bytes or more always leaves room for a code point.
pub utf8_prefix_size-pos :
    {input : Bytes} (limit : ℕ)
    → IsUtf8 input
    → 0 < length input
    → 4 ≤ limit
    → 0 < utf8_prefix_size input limit
utf8_prefix_size-pos {input} limit v h l =
    let (k, pos, small, len, b) = early-IsBoundary v h in
    let greatest = (utf8_prefix_size_greatest input limit).3 k b len (omega arith) in omega arith

-- Cutting where the function says keeps the structure on both sides of the cut.
pub utf8_prefix_size-IsUtf8 :
    {input : Bytes} (limit : ℕ)
    → IsUtf8 input
    → IsUtf8 (take (utf8_prefix_size input limit) input)
      × IsUtf8 (drop (utf8_prefix_size input limit) input)
utf8_prefix_size-IsUtf8 {input} limit v =
    let g = utf8_prefix_size_greatest input limit in
    split-IsUtf8 (utf8_prefix_size input limit) v g.2 g.0

pub append-IsUtf8 : {xs : Bytes} (ys : Bytes) → IsUtf8 xs → IsUtf8 ys → IsUtf8 (xs ++ ys)
append-IsUtf8 ys nil v = v
append-IsUtf8 ys (point lead tail {rest} t c w e) v =
    point lead tail t c (append-IsUtf8 ys w v)
      (ap (λ zs. zs ++ ys) e ∙ ap (λ zs. lead ∷ zs) (append_assoc tail rest ys))

pub one-IsUtf8 : (c : ℕ) → c < 0x80 → IsUtf8 (c ∷ [])
one-IsUtf8 c h = point c [] {rest = []} (ground arith) tt nil refl
