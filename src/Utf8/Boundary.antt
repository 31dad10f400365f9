-- ===== src/Utf8/Boundary.antt =====
-- The cut of `utf8_prefix_size` is the last boundary within the limit.
use open_scum_rcon.Base.{
  ℕ, zero, suc, ◌≤◌, min, ◌≡◌, refl, subst, ◌⊎◌, inl, inr, false, arith, Bytes, ◌==◌, Bool-cases,
  length, get_or,
}
use open_scum_rcon.Utf8.{is_continuation, back_up, utf8_prefix_size}

-- A cut at `k` splits no code point.
abbrev pub IsBoundary : Bytes → ℕ → Type 0
IsBoundary input k = (k ≡ 0) ⊎ ((length input ≤ k) ⊎ (is_continuation (get_or input k 0) ≡ false))

back_up-le : (input : Bytes) (k : ℕ) → back_up input k ≤ k
unfolding back_up
back_up-le input zero = omega arith
back_up-le input (suc k) = ground (arith, back_up-le input k)

back_up-IsBoundary : (input : Bytes) (k : ℕ) → IsBoundary input (back_up input k)
unfolding back_up
back_up-IsBoundary input zero = inl refl
back_up-IsBoundary input (suc k) = ground (arith, back_up-IsBoundary input k)

back_up_greatest : (input : Bytes) (k j : ℕ) → IsBoundary input j → j ≤ k → j ≤ back_up input k
unfolding back_up
back_up_greatest input zero j b h = omega arith
back_up_greatest input (suc k) j b h =
    let step : (j ≡ suc k → j ≤ back_up input (suc k)) → j ≤ back_up input (suc k) = λ same.
      elim (Bool-cases (j == suc k)) [
        | inl e ↦ same (ground arith)
        | inr ne ↦ ground (arith, back_up_greatest input k j b)
      ] in
    step (λ e. ground (arith, subst (IsBoundary input) e b))

-- The result is a boundary of the input, is at most its size and the limit, and no boundary
-- within the limit is greater.
pub utf8_prefix_size_greatest :
    (input : Bytes) (limit : ℕ)
    → (utf8_prefix_size input limit ≤ length input)
      × (utf8_prefix_size input limit ≤ limit)
      × IsBoundary input (utf8_prefix_size input limit)
      × ((k : ℕ)
          → IsBoundary input k
          → k ≤ length input
          → k ≤ limit
          → k ≤ utf8_prefix_size input limit)
unfolding utf8_prefix_size
utf8_prefix_size_greatest input limit =
    let m = min (length input) limit in
    let low : back_up input m ≤ m = back_up-le input m in
    (
      omega arith,
      omega arith,
      back_up-IsBoundary input m,
      λ k b len lim. back_up_greatest input m k b (omega arith),
    )
