-- ===== src/Pe/Search.antt =====
-- tools/pe_xref_scanner/main.cpp, `findAllAscii` and `findAllUtf16`.
use open_scum_rcon.Base.{
  starts_with, all_bytes, Bool, true, false, ◌&&◌, ltb, ◌==◌, ℕ, zero, suc, ◌+◌, ◌<◌, ◌≡◌, refl,
  sym, ap, ◌∙◌, ◌≢◌, ◌⊎◌, inl, inr, Option, none, some, List, [], ◌∷◌, arith, Bytes, if◌then◌else◌,
  Bool-cases, length, drop, length-drop,
}
use mathlib.Core.Option

-- std::search compares the std::uint8_t of the file with a char of the needle, which is signed: a char
-- whose byte is 0x80 or more is negative, and so equal to no byte.
unfoldable pub same_char : ℕ → ℕ → Bool
same_char c b = ltb c 128 && c == b

unfoldable pub begins_with : Bytes → Bytes → Bool
begins_with [] bytes = true
begins_with (c ∷ needle) [] = false
begins_with (c ∷ needle) (b ∷ bytes) = same_char c b && begins_with needle bytes

-- std::search for a needle that is not empty; `none` is the end.
unfoldable pub search : Bytes → Bytes → Option ℕ
search needle [] = none
search needle (c ∷ cs) =
    if begins_with needle (c ∷ cs) then some 0 else Option.map suc (search needle cs)

-- The `while (true)` loop, from a place on with the bytes behind it. Each round goes on at least one
-- byte further, so that one round more than there are bytes is enough.
unfoldable pub find_loop : ℕ → Bytes → ℕ → Bytes → List ℕ
find_loop zero needle at rest = []
find_loop (suc fuel) needle at rest = elim (search needle rest) [
  | none ↦ []
  | some i ↦ (at + i) ∷ find_loop fuel needle (at + i + 1) (drop (i + 1) rest)
]

unfoldable pub find_all_ascii : Bytes → Bytes → List ℕ
find_all_ascii bytes [] = []
find_all_ascii bytes (c ∷ needle) = find_loop (suc (length bytes)) (c ∷ needle) 0 bytes

-- The needle with a zero byte behind each byte.
unfoldable pub widen : Bytes → Bytes
widen [] = []
widen (c ∷ cs) = c ∷ 0 ∷ widen cs

unfoldable pub find_all_utf16 : Bytes → Bytes → List ℕ
find_all_utf16 bytes needle_ascii = find_all_ascii bytes (widen needle_ascii)

-- All the places at which the needle stands, found by a look at each place.
unfoldable pub positions : Bytes → ℕ → Bytes → List ℕ
positions needle at [] = []
positions needle at (c ∷ cs) =
    let rest = positions needle (at + 1) cs in
    if starts_with needle (c ∷ cs) then at ∷ rest else rest

abbrev pub is_ascii : Bytes → Bool
is_ascii needle = all_bytes (λ c. ltb c 128) needle

begins_with-starts_with :
    (needle bytes : Bytes)
    → begins_with needle bytes ≡ (is_ascii needle && starts_with needle bytes)
unfolding begins_with starts_with same_char all_bytes
begins_with-starts_with [] bytes = refl
begins_with-starts_with (c ∷ needle) [] = ground arith
begins_with-starts_with (c ∷ needle) (b ∷ bytes) =
    ground (arith, begins_with-starts_with needle bytes)

search-none : (needle rest : Bytes) → is_ascii needle ≡ false → search needle rest ≡ none
unfolding search
search-none needle [] odd = refl
search-none needle (c ∷ cs) odd =
    rw (begins_with-starts_with needle (c ∷ cs), odd, search-none needle cs odd) refl

abbrev Next : Bytes → ℕ → Bytes → List ℕ → Type 0
Next needle at rest found =
    ((search needle rest ≡ none) × (found ≡ []))
    ⊎ ((i : ℕ) × (search needle rest ≡ some i)
        × (i < length rest)
        × (found ≡ (at + i) ∷ positions needle (at + i + 1) (drop (i + 1) rest)))

positions-Next :
    (needle : Bytes) (at : ℕ) (rest : Bytes)
    → is_ascii needle ≡ true
    → Next needle at rest (positions needle at rest)
unfolding positions search
positions-Next needle at [] ascii = inl (refl, refl)
positions-Next needle at (c ∷ cs) ascii = elim (Bool-cases (starts_with needle (c ∷ cs))) [
  | inl here ↦
      rw (begins_with-starts_with needle (c ∷ cs), ascii, here)
        (inr
          (0, refl, omega arith, ap (λ k. k ∷ positions needle (k + 1) cs) {x = at} (omega arith)))
  | inr other ↦
      rw (begins_with-starts_with needle (c ∷ cs), ascii, other)
        (elim (positions-Next needle (at + 1) cs ascii) [
          | inl (e, nothing) ↦ rw e (inl (refl, nothing))
          | inr (i, e, less, more) ↦ rw e (
              inr (
                suc i,
                refl,
                omega arith,
                more
                    ∙ ap (λ k. k ∷ positions needle (k + 1) (drop (i + 1) cs)) {x = at + 1 + i}
                        (omega arith)
                    ∙ ap (λ n. (at + suc i) ∷ positions needle (at + suc i + 1) (drop n (c ∷ cs)))
                        {x = suc (i + 1)} (omega arith),
              ))
        ])
]

find_loop-positions :
    (fuel : ℕ) (needle : Bytes) (at : ℕ) (rest : Bytes)
    → length rest < fuel
    → is_ascii needle ≡ true
    → find_loop fuel needle at rest ≡ positions needle at rest
unfolding find_loop
find_loop-positions zero needle at rest h ascii = absurd (omega arith)
find_loop-positions (suc fuel) needle at rest h ascii = elim (positions-Next needle at rest ascii) [
  | inl (e, nothing) ↦ rw (e, find_loop) (sym nothing)
  | inr (i, e, less, more) ↦
      let shorter =
        find_loop-positions fuel needle (at + i + 1) (drop (i + 1) rest)
          (omega (arith, length-drop (i + 1) rest)) ascii in
      rw (e, find_loop) (ap (λ zs. (at + i) ∷ zs) shorter ∙ sym more)
]

find_loop-none :
    (fuel : ℕ) (needle : Bytes) (at : ℕ) (rest : Bytes)
    → is_ascii needle ≡ false
    → find_loop fuel needle at rest ≡ []
unfolding find_loop
find_loop-none zero needle at rest odd = refl
find_loop-none (suc fuel) needle at rest odd = rw (search-none needle rest odd, find_loop) refl

-- `findAllAscii` finds a needle of bytes below 0x80 that is not empty at every place where it stands,
-- also where two of them overlap, in ascending order; a needle with any other byte it never finds,
-- also where it stands in the file.
pub find_all_ascii-positions :
    (bytes needle : Bytes)
    → needle ≢ []
    → (is_ascii needle ≡ true → find_all_ascii bytes needle ≡ positions needle 0 bytes)
      × (is_ascii needle ≡ false → find_all_ascii bytes needle ≡ [])
unfolding find_all_ascii
find_all_ascii-positions bytes [] h = absurd (h refl)
find_all_ascii-positions bytes (c ∷ needle) h = (
  λ ascii. find_loop-positions (suc (length bytes)) (c ∷ needle) 0 bytes (omega arith) ascii,
  λ odd. find_loop-none (suc (length bytes)) (c ∷ needle) 0 bytes odd,
)
