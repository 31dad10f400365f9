-- ===== src/Base/Text.antt =====
-- Byte strings: the source's `std::string` is a list of bytes, a text literal its codes.
use Prim.Native.Char.{code}
use Prim.Native.String.{String}
use open_scum_rcon.Base.Tests.{◌==◌, ltb}
use open_scum_rcon.Base.Lists.{All, take}
use Prim.Native.Nat.{ℕ, zero, suc, ◌<◌}
use mathlib.Core.Path.{◌≡◌, refl}
use mathlib.Core.Logic.{◌↔◌}
use mathlib.Core.Bool.{Bool, true, false, not, ◌&&◌, ◌||◌}
use mathlib.Core.List.{List, [], ◌∷◌, ◌++◌}
use native.Mathlib.Omega.{arith}

abbrev pub Bytes : Type 0
Bytes = List ℕ

abbrev pub IsBytes : Bytes → Type 0
IsBytes = All (λ b. b < 256)

-- The bytes of a literal; every literal of the source is ASCII.
unfoldable pub text : String → Bytes
text String.[] = []
text (String.◌∷◌ c s) = code c ∷ text s

-- `==` on std::string.
unfoldable pub same_text : Bytes → Bytes → Bool
same_text [] [] = true
same_text (x ∷ xs) (y ∷ ys) = x == y && same_text xs ys
same_text _ _ = false

pub same_text_iff : (a b : Bytes) → (same_text a b ≡ true) ↔ (a ≡ b)
unfolding same_text
same_text_iff (x ∷ a) (y ∷ b) = ground (arith, same_text_iff a b)
same_text_iff _ _ = ground arith

-- Whether some byte passes the test.
unfoldable pub any_byte : (ℕ → Bool) → Bytes → Bool
any_byte p [] = false
any_byte p (c ∷ cs) = p c || any_byte p cs

unfoldable pub all_bytes : (ℕ → Bool) → Bytes → Bool
all_bytes p [] = true
all_bytes p (c ∷ cs) = p c && all_bytes p cs

unfoldable pub starts_with : Bytes → Bytes → Bool
starts_with [] input = true
starts_with (p ∷ prefix) [] = false
starts_with (p ∷ prefix) (c ∷ input) = p == c && starts_with prefix input

-- `input.find(needle) != npos`
unfoldable pub contains_text : Bytes → Bytes → Bool
contains_text needle [] = starts_with needle []
contains_text needle (c ∷ cs) = starts_with needle (c ∷ cs) || contains_text needle cs

-- `<` on std::string.
unfoldable pub less_text : Bytes → Bytes → Bool
less_text xs [] = false
less_text [] (y ∷ ys) = true
less_text (x ∷ xs) (y ∷ ys) = ltb x y || x == y && less_text xs ys

pub less_text_asym : (a b : Bytes) → less_text a b ≡ true → less_text b a ≡ false
unfolding less_text
less_text_asym a [] e = cc
less_text_asym [] (y ∷ ys) e = refl
less_text_asym (x ∷ xs) (y ∷ ys) e = ground (arith, less_text_asym xs ys)

-- Of two different texts one is less.
pub less_text_connex :
    (a b : Bytes) → less_text a b ≡ false → same_text a b ≡ false → less_text b a ≡ true
unfolding less_text same_text
less_text_connex [] [] e d = cc
less_text_connex (x ∷ xs) [] e d = refl
less_text_connex [] (y ∷ ys) e d = cc
less_text_connex (x ∷ xs) (y ∷ ys) e d = ground (arith, less_text_connex xs ys)

-- No line break.
unfoldable pub no_break : Bytes → Bool
no_break [] = true
no_break (c ∷ cs) = not (c == b'\n') && no_break cs

pub record IsPlain (xs : Bytes) : Type 0 where
  pub unbroken : no_break xs ≡ true

no_break-all_bytes : (xs : Bytes) → all_bytes (λ c. not (c == b'\n')) xs ≡ true → no_break xs ≡ true
unfolding all_bytes no_break
no_break-all_bytes [] e = refl
no_break-all_bytes (c ∷ xs) e = ground (arith, no_break-all_bytes xs)

no_break-append : (xs ys : Bytes) → no_break (xs ++ ys) ≡ (no_break xs && no_break ys)
unfolding no_break
no_break-append [] ys = refl
no_break-append (x ∷ xs) ys = ground (arith, no_break-append xs ys)

no_break-take : (n : ℕ) (xs : Bytes) → no_break xs ≡ true → no_break (take n xs) ≡ true
unfolding no_break
no_break-take zero xs e = refl
no_break-take (suc n) [] e = refl
no_break-take (suc n) (x ∷ xs) e = ground (arith, no_break-take n xs)

-- A text that a test finds plain.
pub plain : (xs : Bytes) → all_bytes (λ c. not (c == b'\n')) xs ≡ true → IsPlain xs
plain xs e = record { unbroken = no_break-all_bytes xs e }

infixl 5 ◌⊕◌
pub ◌⊕◌ : {xs ys : Bytes} → IsPlain xs → IsPlain ys → IsPlain (xs ++ ys)
◌⊕◌ {xs} {ys} hx hy = record {
  unbroken = ground (arith, no_break-append xs ys, hx.unbroken, hy.unbroken);
}

pub IsPlain-take : (n : ℕ) (xs : Bytes) → IsPlain xs → IsPlain (take n xs)
IsPlain-take n xs h = record { unbroken = no_break-take n xs h.unbroken }

pub starts_with-append : (prefix rest : Bytes) → starts_with prefix (prefix ++ rest) ≡ true
unfolding starts_with
starts_with-append [] rest = refl
starts_with-append (c ∷ prefix) rest = ground (arith, starts_with-append prefix rest)
