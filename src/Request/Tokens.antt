-- ===== src/Request/Tokens.antt =====
-- What the tokens of a request look like.
use open_scum_rcon.Base.{
  ℕ, ◌+◌, ◌≤◌, ◌≡◌, refl, ap, subst, ◌⊎◌, inl, inr, Bool, true, false, not, ◌&&◌, ◌||◌, Option,
  none, some, List, [], ◌∷◌, ◌++◌, arith, Bytes, text, ltb, ◌==◌, Bool-cases, length, length-append,
  All, All-append,
}
use open_scum_rcon.Base.{Result, ok, err, bind-inversion}
use open_scum_rcon.Request.{
  Scanner, Round, stop, one, two, push_byte, push_token, round, check_size, scan, scanner, finish,
  tokenize, escapable, or_zero,
}

abbrev pub is_control : ℕ → Bool
is_control c = (ltb c 32 && not (c == b'\t')) || c == 127

-- No control byte but a tab.
abbrev pub IsClean : Bytes → Type 0
IsClean = All (λ c. is_control c ≡ false)

pub record IsToken (t : Bytes) : Type 0 where
  pub small : length t ≤ 4096
  pub clean : IsClean t

pub record Inv (s : Scanner) : Type 0 where
  few : length s.tokens ≤ 67
  small : length s.token ≤ 4096
  clean : IsClean s.token
  whole : All IsToken s.tokens

abbrev Keeps : Scanner → ℕ → Option ℕ → Round → Type 0
Keeps s c next (stop why) = Unit
Keeps s c next (one s') = (is_control c ≡ false) × Inv s'
Keeps s c next (two s') =
    (is_control c ≡ false) × ((d : ℕ) × (next ≡ some d) × (is_control d ≡ false)) × Inv s'

push_byte-IsClean :
    (s : Scanner) (c : ℕ) → Inv s → is_control c ≡ false → IsClean (s.token ++ c ∷ [])
push_byte-IsClean s c v h = All-append _ s.token (c ∷ []) v.clean (h, tt)

check_size-Inv :
    (s : Scanner) (next : Round)
    → IsClean s.token
    → All IsToken s.tokens
    → (check_size s next ≡ stop (text "too many or oversized arguments"))
      ⊎ ((check_size s next ≡ next) × Inv s)
unfolding check_size
check_size-Inv s next c w =
    elim (Bool-cases (ltb 4096 (length s.token) || ltb 67 (length s.tokens))) [
      | inl big ↦ inl (rw big)
      | inr fits ↦
          inr (rw fits, record { few = ground arith; small = ground arith; clean = c; whole = w })
    ]

push_token-tokens :
    (s : Scanner) → Inv s → All IsToken (push_token s).tokens × IsClean (push_token s).token
push_token-tokens s v = elim (Bool-cases s.started) [
  | inl started ↦ rw started (
    All-append _ s.tokens (s.token ∷ []) v.whole (record { small = v.small; clean = v.clean }, tt),
    tt,
  )
  | inr not_started ↦ rw not_started (v.whole, v.clean)
]

length-push_token : (s : Scanner) → length (push_token s).tokens ≤ length s.tokens + 1
length-push_token s = ground (arith, length-append s.tokens (s.token ∷ []))

checked-Keeps :
    (s : Scanner) (c : ℕ) (next : Option ℕ) (s' : Scanner) (r : Round)
    → IsClean s'.token
    → All IsToken s'.tokens
    → (Inv s' → Keeps s c next r)
    → Keeps s c next (check_size s' r)
checked-Keeps s c next s' r clean whole keep = elim (check_size-Inv s' r clean whole) [
  | inl e ↦ rw e tt
  | inr (e, v) ↦ rw e (keep v)
]

escaped :
    (s : Scanner) (c : ℕ) (next : Option ℕ)
    → (s.quoted && (c == b'\\' && escapable next)) ≡ true
    → (d : ℕ) × (next ≡ some d) × (is_control d ≡ false)
unfolding escapable
escaped s c none h = ground arith
escaped s c (some d) h = (d, refl, ground arith)

round-Keeps : (s : Scanner) (c : ℕ) (next : Option ℕ) → Inv s → Keeps s c next (round s c next)
unfolding round
round-Keeps s c next v = elim (Bool-cases (ltb c 32 && not (c == b'\t'))) [
  | inl low ↦ rw low tt
  | inr high ↦ rw high (elim (Bool-cases (c == 127)) [
    | inl del ↦ rw del tt
    | inr text_byte ↦ rw text_byte (
        let ok_byte : is_control c ≡ false = rw (high, text_byte) in
        elim (Bool-cases (c == b'"')) [
          | inl quote ↦
              rw quote
                (ok_byte, record { few = v.few; small = v.small; clean = v.clean; whole = v.whole })
          | inr plain ↦ rw plain (elim (Bool-cases (s.quoted && (c == b'\\' && escapable next))) [
            | inl escape ↦
                let (d, found, fine) = escaped s c next escape in
                rw escape (
                  checked-Keeps s c next (push_byte s (or_zero next)) _
                    (rw found (push_byte-IsClean s d v fine)) v.whole
                    (λ w. (ok_byte, (d, found, fine), w)))
            | inr literal ↦
                rw literal (elim (Bool-cases (not s.quoted && (c == b' ' || c == b'\t'))) [
                  | inl space ↦
                      let (whole, clean) = push_token-tokens s v in
                      rw space
                        (checked-Keeps s c next (push_token s) _ clean whole (λ w. (ok_byte, w)))
                  | inr other ↦ rw other (
                      checked-Keeps s c next (push_byte s c) _ (push_byte-IsClean s c v ok_byte)
                        v.whole (λ w. (ok_byte, w)))
                ])
          ])
        ])
  ])
]

same_byte : (d e : ℕ) → some d ≡ some e → is_control e ≡ false → is_control d ≡ false
same_byte d e h f = let same : d ≡ e = cc in rw same f

last_round :
    (c : ℕ) (s s' : Scanner) (r : Round)
    → Keeps s c none r
    → ◌≡◌ {A = Result Scanner} (elim r [ stop why ↦ err why | one t ↦ ok t | two t ↦ ok t ]) (ok s')
    → Inv s' × IsClean (c ∷ [])
last_round c s s' (stop why) k h = cc
last_round c s s' (one t) k h = let same : t ≡ s' = cc in (subst Inv same k.1, (k.0, tt))
last_round c s s' (two t) k h = let (d, e, f) = k.1 in cc

inner_round :
    (c d : ℕ) (rest : Bytes) (s s' : Scanner) (r : Round)
    → Keeps s c (some d) r
    → ((t : Scanner) → Inv t → scan (d ∷ rest) t ≡ ok s' → Inv s' × IsClean (d ∷ rest))
    → ((t : Scanner) → Inv t → scan rest t ≡ ok s' → Inv s' × IsClean rest)
    → ◌≡◌ {A = Result Scanner}
        (elim r [ stop why ↦ err why | one t ↦ scan (d ∷ rest) t | two t ↦ scan rest t ])
        (ok s')
    → Inv s' × IsClean (c ∷ d ∷ rest)
inner_round c d rest s s' (stop why) k f g h = cc
inner_round c d rest s s' (one t) k f g h = let (v, w) = f t k.1 h in (v, (k.0, w))
inner_round c d rest s s' (two t) k f g h =
    let (v, w) = g t k.2 h in
    let (e, found, fine) = k.1 in (v, (k.0, (same_byte d e found fine, w)))

scan-Inv : (input : Bytes) (s s' : Scanner) → Inv s → scan input s ≡ ok s' → Inv s' × IsClean input
unfolding scan
scan-Inv [] s s' v h = let same : s ≡ s' = cc in (subst Inv same v, tt)
scan-Inv (c ∷ []) s s' v h = last_round c s s' (round s c none) (round-Keeps s c none v) h
scan-Inv (c ∷ d ∷ rest) s s' v h =
    inner_round c d rest s s' (round s c (some d)) (round-Keeps s c (some d) v)
      (λ t w e. scan-Inv (d ∷ rest) t s' w e) (λ t w e. scan-Inv rest t s' w e) h

scanner-Inv : Inv scanner
scanner-Inv = record { few = omega arith; small = omega arith; clean = tt; whole = tt }

finish-IsToken :
    (s : Scanner) (tokens : List Bytes)
    → Inv s
    → finish s ≡ ok tokens
    → All IsToken tokens × (length tokens ≤ 68)
unfolding finish
finish-IsToken s tokens v h =
    let same : (push_token s).tokens ≡ tokens = ground arith in
    (
      subst (All IsToken) same (push_token-tokens s v).0,
      omega (arith, ap length same, length-push_token s, v.few),
    )

-- A text that is split into tokens holds no control byte but tabs; there are at most 68 tokens,
-- of at most 4096 bytes each, and no token holds a control byte but tabs.
pub tokenize-IsToken :
    (input : Bytes) (tokens : List Bytes)
    → tokenize input ≡ ok tokens
    → All IsToken tokens × (length tokens ≤ 68) × IsClean input
unfolding tokenize
tokenize-IsToken input tokens h =
    let (s, finished, scanned) = bind-inversion (scan input scanner) finish h in
    let (v, clean) = scan-Inv input scanner s scanner-Inv scanned in
    let (whole, few) = finish-IsToken s tokens v finished in (whole, few, clean)
