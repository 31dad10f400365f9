-- ===== src/LiveQuery/Clock.antt =====
-- The time of day as a clock shows it.
use open_scum_rcon.Base.{
  ℕ, zero, suc, ◌+◌, ◌*◌, ◌/◌, ◌%◌, ◌≤◌, ◌<◌, ◌≡◌, refl, inl, inr, true, false, not, ◌&&◌, ◌||◌, [],
  ◌∷◌, arith, text, digits, decimal, ok, err, ltb, ltb→lt, ltb→ge, Bool-cases,
}
use open_scum_rcon.LiveQuery.{Numbers, two_digits, ingame_clock}

-- A digit, and the two digits of a number below a hundred.
abbrev digit : ℕ → ℕ
digit d = b'0' + d

one_digit : (fuel d : ℕ) → d < 10 → digits (suc fuel) d ≡ digit d ∷ []
unfolding digits
one_digit fuel d h = let small : ltb d 10 ≡ true = ground arith in rw (small, digits) refl

pair : (a b c d : ℕ) → a ≡ c → b ≡ d → a ∷ b ∷ [] ≡ c ∷ d ∷ []
pair a b c d e f = rw (e, f) refl

decimal_two : (n : ℕ) → n < 100 → 10 ≤ n → decimal n ≡ digit (n / 10) ∷ digit (n % 10) ∷ []
unfolding decimal digits
decimal_two zero h low = absurd (omega arith)
decimal_two (suc k) h low =
    let large : ltb (suc k) 10 ≡ false = ground arith in
    rw (large, one_digit k (suc k / 10) (omega arith), digits) refl

two_digits_eq : (n : ℕ) → n < 100 → two_digits n ≡ digit (n / 10) ∷ digit (n % 10) ∷ []
unfolding two_digits decimal
two_digits_eq n h = elim (Bool-cases (ltb n 10)) [
  | inl small ↦
      rw (small, one_digit n n (ltb→lt n 10 small))
        (pair _ _ _ _ (omega (arith, ltb→lt n 10 small)) (omega (arith, ltb→lt n 10 small)))
  | inr large ↦ rw large (decimal_two n h (ltb→ge n 10 large))
]

-- A time of day from 0 to 24 hours is shown as hours from 00 to 23 and minutes from 00 to 59, each of
-- two digits, which together are its minutes in a day; a time that is not finite or off this
-- range is refused.
pub ingame_clock-IsClock :
    {Double : Type 0} (numbers : Numbers Double) (hours : Double)
    → ((numbers.is_finite hours && not (numbers.is_off_clock hours)) ≡ false
        → ingame_clock numbers hours ≡ err (text "invalid live time of day"))
      × ((numbers.is_finite hours && not (numbers.is_off_clock hours)) ≡ true
          → (h m : ℕ) × (h < 24)
            × (m < 60)
            × (h * 60 + m ≡ numbers.minutes hours % 1440)
            × (ingame_clock numbers hours
                ≡ ok (
                    digit (h / 10) ∷ digit (h % 10) ∷ b':' ∷ digit (m / 10) ∷ digit (m % 10) ∷ [])))
unfolding ingame_clock
ingame_clock-IsClock numbers hours = (
  λ e.
      (let off : (not (numbers.is_finite hours) || numbers.is_off_clock hours) ≡ true =
          ground arith in
        rw off refl),
  λ e.
      (let on : (not (numbers.is_finite hours) || numbers.is_off_clock hours) ≡ false =
          ground arith in
        let minute = numbers.minutes hours % 1440 in
        (
          minute / 60,
          minute % 60,
          omega arith,
          omega arith,
          omega arith,
          rw
              (
                on,
                two_digits_eq (minute / 60) (omega arith),
                two_digits_eq (minute % 60) (omega arith),
              )
              refl,
        )),
)
