-- ===== src/Base/Results.antt =====
-- A result, or the message of the error that ended the work.
use open_scum_rcon.Base.Text.{Bytes}
use mathlib.Core.Path.{◌≡◌, refl}
use mathlib.Core.Logic.{◌⊎◌, inl, inr}

pub data Result {ℓ} (A : Type ℓ) : Type ℓ where
  ok : A → Result A
  err : Bytes → Result A

module _ {ℓ} {A B : Type ℓ} where
  infixl 5 ◌>>=◌
  abbrev pub ◌>>=◌ : Result A → (A → Result B) → Result B
  ok a >>= f = f a
  err e >>= f = err e

  -- A chain that succeeded: its end, and the value between.
  pub bind-inversion :
      {end : B} (first : Result A) (then_do : A → Result B)
      → (first >>= then_do) ≡ ok end
      → (mid : A) × (then_do mid ≡ ok end) × (first ≡ ok mid)
  bind-inversion (err why) then_do h = cc
  bind-inversion (ok mid) then_do h = (mid, h, refl)

pub Result-cases {ℓ} :
    {A : Type ℓ} (r : Result A) → ((e : Bytes) × (r ≡ err e)) ⊎ ((a : A) × (r ≡ ok a))
Result-cases (err e) = inl (e, refl)
Result-cases (ok a) = inr (a, refl)
