-- ===== src/Trim/Spec.antt =====
-- What trimming removes.

use open_scum_rcon.Base.{
  ℕ, suc, ◌+◌, ◌-◌, ◌≤◌, ◌<◌, ◌≡◌, refl, sym, ap, ◌∙◌, ◌⊎◌, inl, inr, true, false, none, some, [],
  ◌∷◌, ◌++◌, arith, Bytes, ltb, ltb→lt, ltb→ge, Bool-cases, length, get_or, take, drop,
  take-append-drop, length-take, length-drop, drop-drop, get_or-drop, get_or-take, get_or_inside,
  All, All-get_or_lt,
}
use open_scum_rcon.Trim.{is_blank, find_first_not_of, find_last_not_of, trim}

abbrev pub AllBlank : Bytes → Type 0
AllBlank = All (λ c. is_blank c ≡ true)

record IsFirst (input : Bytes) (n : ℕ) : Type 0 where
  inside : n < length input
  solid : is_blank (get_or input n 0) ≡ false
  before : AllBlank (take n input)

record IsLast (input : Bytes) (n : ℕ) : Type 0 where
  inside : n < length input
  solid : is_blank (get_or input n 0) ≡ false
  after : AllBlank (drop (suc n) input)

IsFirst-cases :
    (input : Bytes)
    → ((find_first_not_of input ≡ none) × AllBlank input)
      ⊎ ((n : ℕ) × (find_first_not_of input ≡ some n) × IsFirst input n)
unfolding find_first_not_of
IsFirst-cases [] = inl (refl, tt)
IsFirst-cases (c ∷ cs) = elim (Bool-cases (is_blank c)) [
  | inr solid ↦ inr (0, rw solid, record { inside = omega arith; solid = solid; before = tt })
  | inl blank ↦ elim (IsFirst-cases cs) [
    | inl (e, all) ↦ inl (rw (blank, e), (blank, all))
    | inr (n, e, f) ↦ inr (
      suc n,
      rw (blank, e),
      record { inside = omega (arith, f.inside); solid = f.solid; before = (blank, f.before) },
    )
  ]
]

IsLast-cases :
    (input : Bytes)
    → ((find_last_not_of input ≡ none) × AllBlank input)
      ⊎ ((n : ℕ) × (find_last_not_of input ≡ some n) × IsLast input n)
unfolding find_last_not_of
IsLast-cases [] = inl (refl, tt)
IsLast-cases (c ∷ cs) = elim (IsLast-cases cs) [
  | inr (n, e, f) ↦ inr (
    suc n,
    rw (e, find_last_not_of),
    record { inside = omega (arith, f.inside); solid = f.solid; after = f.after },
  )
  | inl (e, all) ↦ elim (Bool-cases (is_blank c)) [
    | inl blank ↦ inl (rw (e, find_last_not_of, blank), (blank, all))
    | inr solid ↦ inr (
      0,
      rw (e, find_last_not_of, solid),
      record { inside = omega arith; solid = solid; after = all },
    )
  ]
]

-- The text with the blanks on both sides taken off.
pub record IsTrimmed (input t : Bytes) : Type 0 where
  pub before : Bytes
  pub after : Bytes
  pub splits : input ≡ before ++ (t ++ after)
  pub blank_before : AllBlank before
  pub blank_after : AllBlank after
  pub solid_first : is_blank (get_or t 0 b' ') ≡ false
  pub solid_last : is_blank (get_or t (length t - 1) b' ') ≡ false

ordered :
    (input : Bytes) (m n : ℕ) → AllBlank (take m input) → m ≤ length input → IsLast input n → m ≤ n
ordered input m n blank size l = elim (Bool-cases (ltb n m)) [
  | inr ge ↦ ltb→ge _ _ ge
  | inl lt ↦
      let own =
        All-get_or_lt (λ c. is_blank c ≡ true) (take m input) n 0 blank
          (omega (arith, length-take m input, ltb→lt n m lt)) in
      let same = get_or-take m n input 0 (ltb→lt n m lt) in cc (own, same, l.solid)
]

between :
    (input : Bytes) (m n : ℕ)
    → IsFirst input m
    → IsLast input n
    → IsTrimmed input (take (n - m + 1) (drop m input))
between input m n f l = record {
  before = take m input;
  after = drop (suc n) input;
  splits = sym (
      ap (λ zs. take m input ++ zs)
        (ap (λ zs. t ++ zs) rest ∙ take-append-drop (n - m + 1) (drop m input))
      ∙ take-append-drop m input);
  blank_before = f.before;
  blank_after = l.after;
  solid_first =
      rw
        (
          get_or-take (n - m + 1) 0 (drop m input) b' ' (omega arith),
          get_or-drop m 0 input b' ',
          at_first,
          get_or_inside input m b' ' 0 f.inside,
        )
        f.solid;
  solid_last =
      rw
        (
          size,
          get_or-take (n - m + 1) (n - m) (drop m input) b' ' (omega arith),
          get_or-drop m (n - m) input b' ',
          at_last,
          get_or_inside input n b' ' 0 l.inside,
        )
        l.solid;
}
  where
    t : Bytes
    t = take (n - m + 1) (drop m input)

    le : m ≤ n
    le = ordered input m n f.before (omega (arith, f.inside)) l

    rest : drop (suc n) input ≡ drop (n - m + 1) (drop m input)
    rest =
        ap (λ k. drop k input) {x = suc n} (omega (arith, le)) ∙ sym (drop-drop (n - m + 1) m input)

    at_first : m + 0 ≡ m
    at_first = omega arith

    size : length (take (n - m + 1) (drop m input)) - 1 ≡ n - m
    size = omega (arith, length-take (n - m + 1) (drop m input), length-drop m input, l.inside, le)

    at_last : m + (n - m) ≡ n
    at_last = omega (arith, le)

AllBlank-no-IsFirst : (input : Bytes) (m : ℕ) → AllBlank input → ¬ IsFirst input m
AllBlank-no-IsFirst input m all f =
    cc (All-get_or_lt (λ c. is_blank c ≡ true) input m 0 all f.inside, f.solid)

-- Trimming fails exactly on a text of blanks, and otherwise takes off the blanks at both ends and
-- nothing else.
pub trim_cases :
    (input : Bytes)
    → ((trim input ≡ none) × AllBlank input)
      ⊎ ((t : Bytes) × (trim input ≡ some t) × IsTrimmed input t)
unfolding trim
trim_cases input = elim (IsFirst-cases input) [
  | inl (e, all) ↦ inl (rw (e, trim), all)
  | inr (m, e, f) ↦ elim (IsLast-cases input) [
    | inl (e', all) ↦ absurd (AllBlank-no-IsFirst input m all f)
    | inr (n, e', l) ↦ inr (_, rw (e, trim) (rw e'), between input m n f l)
  ]
]
