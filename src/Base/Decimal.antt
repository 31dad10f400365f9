-- ===== src/Base/Decimal.antt =====
-- Numbers printed in decimal, unsigned and as integers of 32 or 64 bits in two's complement.
use Prim.Native.Nat.{ℕ, zero, suc, ◌+◌, ◌-◌, ◌/◌, ◌%◌, ◌^◌, ◌<◌}
use open_scum_rcon.Base.Tests.{if◌then◌else◌, Bool-cases, ltb, ltb→lt}
use open_scum_rcon.Base.Text.{Bytes, all_bytes, no_break, IsPlain, plain, ◌⊕◌}
use mathlib.Core.Path.{refl}
use mathlib.Core.Logic.{inl, inr}
use mathlib.Core.Bool.{true, false}
use mathlib.Core.List.{[], ◌∷◌, ◌++◌}
use native.Mathlib.Omega.{arith}

-- The digits of a number below ten to the fuel.
unfoldable pub digits : ℕ → ℕ → Bytes
digits zero n = []
digits (suc fuel) n = elim (ltb n 10) [
  | true ↦ (b'0' + n) ∷ []
  | false ↦ digits fuel (n / 10) ++ (b'0' + n % 10) ∷ []
]

-- One digit for each power of ten up to the number is more than enough.
unfoldable pub decimal : ℕ → Bytes
unfolding digits
decimal n = digits (suc n) n

-- The pattern of an integer of `w` bits, of which those from 2 ^ (w - 1) on are negative.
unfoldable pub signed_decimal : ℕ → ℕ → Bytes
unfolding decimal
signed_decimal w n = if ltb n (2 ^ (w - 1)) then decimal n else b'-' ∷ decimal (2 ^ w - n)

last-IsPlain : (d : ℕ) → d < 10 → IsPlain ((b'0' + d) ∷ [])
unfolding no_break
last-IsPlain d h = record { unbroken = ground arith }

digits-IsPlain : (fuel n : ℕ) → IsPlain (digits fuel n)
unfolding digits all_bytes
digits-IsPlain zero n = plain [] refl
digits-IsPlain (suc fuel) n = elim (Bool-cases (ltb n 10)) [
  | inl small ↦ rw (small, digits) (last-IsPlain n (omega (arith, ltb→lt n 10 small)))
  | inr large ↦
      rw (large, digits) (digits-IsPlain fuel (n / 10) ⊕ last-IsPlain (n % 10) (omega arith))
]

pub decimal-IsPlain : (n : ℕ) → IsPlain (decimal n)
unfolding decimal
decimal-IsPlain n = digits-IsPlain (suc n) n

pub signed_decimal-IsPlain : (w n : ℕ) → IsPlain (signed_decimal w n)
unfolding signed_decimal all_bytes
signed_decimal-IsPlain w n = elim (Bool-cases (ltb n (2 ^ (w - 1)))) [
  | inl fits ↦ rw fits (decimal-IsPlain n)
  | inr negative ↦ rw negative (plain (b'-' ∷ []) refl ⊕ decimal-IsPlain (2 ^ w - n))
]
