-- ===== src/Pe/Scan/Matches.antt =====
-- Which hit an address belongs to.
use open_scum_rcon.Base.{
  ℕ, ◌+◌, ◌%◌, ◌^◌, ◌≤◌, ◌<◌, ◌≡◌, refl, ap, ◌∙◌, ◌⊎◌, inl, inr, Bool, true, false, none, some,
  List, [], ◌∷◌, ◌++◌, arith, ◌==◌, Bool-cases, Option-cases, All,
}
use open_scum_rcon.Pe.Scan.{StringHit, within, first_hit, matched}

-- The first of the hits with a property.
pub record IsFirst (P : StringHit → Type 0) (hits : List StringHit) (h : StringHit) : Type 0 where
  pub before : List StringHit
  pub after : List StringHit
  pub placed : hits ≡ before ++ h ∷ after
  pub has : P h
  pub first : All (λ k. P k → ⊥) before

-- The address lies in the 64 bytes from the hit's address on; the sum wraps.
abbrev pub IsInside : ℕ → StringHit → Type 0
IsInside address h = (h.va ≤ address) × (address < (h.va + 64) % 2 ^ 64)

-- A string is taken before a function.
abbrev pub Matches : List StringHit → List StringHit → ℕ → StringHit → Type 0
Matches hits exact_hits address h =
    IsFirst (IsInside address) hits h
    ⊎ (All (λ k. IsInside address k → ⊥) hits × IsFirst (λ k. address ≡ k.va) exact_hits h)

module _ (P : StringHit → Type 0) (p : StringHit → Bool)
    (holds : (k : StringHit) → p k ≡ true → P k)
    (fails : (k : StringHit) → p k ≡ false → P k → ⊥) where
  first_hit-none : (hits : List StringHit) → first_hit p hits ≡ none → All (λ k. P k → ⊥) hits
  unfolding first_hit
  first_hit-none [] e = tt
  first_hit-none (k ∷ hits) e = elim (Bool-cases (p k)) [
    | inl here ↦ cc (rw here at e)
    | inr other ↦ (fails k other, first_hit-none hits (rw other at e))
  ]

  first_hit-IsFirst :
      (hits : List StringHit) (h : StringHit) → first_hit p hits ≡ some h → IsFirst P hits h
  unfolding first_hit
  first_hit-IsFirst [] h e = cc
  first_hit-IsFirst (k ∷ hits) h e = elim (Bool-cases (p k)) [
    | inl here ↦
        let same : k ≡ h = cc (rw here at e) in
        rw (← same)
          (record { before = []; after = hits; placed = refl; has = holds k here; first = tt })
    | inr other ↦
        let rest = first_hit-IsFirst hits h (rw other at e) in
        record {
          before = k ∷ rest.before;
          after = rest.after;
          placed = ap (λ ks. k ∷ ks) rest.placed;
          has = rest.has;
          first = (fails k other, rest.first);
        }
  ]

  first_hit-skips :
      (before after : List StringHit) (h : StringHit)
      → All (λ k. P k → ⊥) before
      → p h ≡ true
      → first_hit p (before ++ h ∷ after) ≡ some h
  unfolding first_hit
  first_hit-skips [] after h none_before has = rw has refl
  first_hit-skips (k ∷ before) after h (other, none_before) has = elim (Bool-cases (p k)) [
    | inl here ↦ absurd (other (holds k here))
    | inr off ↦ rw off (first_hit-skips before after h none_before has)
  ]

  first_hit-found :
      (hits : List StringHit) (h : StringHit) → IsFirst P hits h → first_hit p hits ≡ some h
  first_hit-found hits h f = elim (Bool-cases (p h)) [
    | inr off ↦ absurd (fails h off f.has)
    | inl has ↦ ap (first_hit p) f.placed ∙ first_hit-skips f.before f.after h f.first has
  ]

  first_hit-absent : (hits : List StringHit) → All (λ k. P k → ⊥) hits → first_hit p hits ≡ none
  unfolding first_hit
  first_hit-absent [] h = refl
  first_hit-absent (k ∷ hits) (other, more) = elim (Bool-cases (p k)) [
    | inl here ↦ absurd (other (holds k here))
    | inr off ↦ rw off (first_hit-absent hits more)
  ]

module _ (address : ℕ) where
  inside : (k : StringHit) → within address k ≡ true → IsInside address k
  inside k e = ground arith

  outside : (k : StringHit) → within address k ≡ false → IsInside address k → ⊥
  outside k e h = ground arith

  pub matched-Matches :
      (hits exact_hits : List StringHit) (h : StringHit)
      → matched hits exact_hits address ≡ some h
      → Matches hits exact_hits address h
  unfolding matched
  matched-Matches hits exact_hits h e = elim (Option-cases (first_hit (within address) hits)) [
    | inl nothing ↦ inr (
      first_hit-none (IsInside address) (within address) inside outside hits nothing,
      first_hit-IsFirst (λ k. address ≡ k.va) (λ k. address == k.va) (λ k at. ground arith)
          (λ k off at. ground arith) exact_hits h (rw (nothing, matched) at e),
    )
    | inr (k, found) ↦
        let same : k ≡ h = cc (rw (found, matched) at e) in
        inl (
          first_hit-IsFirst (IsInside address) (within address) inside outside hits h
            (rw same at found))
  ]

  pub Matches-matched :
      (hits exact_hits : List StringHit) (h : StringHit)
      → Matches hits exact_hits address h
      → matched hits exact_hits address ≡ some h
  unfolding matched
  Matches-matched hits exact_hits h (inl f) =
      rw (first_hit-found (IsInside address) (within address) inside outside hits h f, matched) refl
  Matches-matched hits exact_hits h (inr (none_inside, f)) =
      rw
        (
          first_hit-absent (IsInside address) (within address) inside outside hits none_inside,
          matched,
        )
        (first_hit-found (λ k. address ≡ k.va) (λ k. address == k.va) (λ k at. ground arith)
          (λ k off at. ground arith) exact_hits h f)
