-- ===== src/Request/Quoted.antt =====
-- Quoting an argument, and reading it back.
use open_scum_rcon.Base.{
  ℕ, suc, ◌+◌, ◌≤◌, ◌<◌, ◌≡◌, refl, ap, ◌∙◌, inl, inr, Bool, true, false, not, ◌&&◌, ◌||◌, Option,
  none, some, List, [], ◌∷◌, ◌++◌, append-nil, append_assoc, arith, Bytes, all_bytes, ok, ◌>>=◌,
  ltb, leb, ◌==◌, if◌then◌else◌, Bool-cases, length, length-append, All,
}
use open_scum_rcon.Request.{
  Scanner, Round, one, two, check_size, escapable, round, scan, finish, tokenize,
}

-- A byte that a quoted argument may hold.
abbrev pub is_allowed : ℕ → Bool
is_allowed c = (leb 32 c || c == b'\t') && not (c == 127)

-- The byte as it stands between quotes.
unfoldable pub escape_byte : ℕ → Bytes
escape_byte c = if c == b'"' || c == b'\\' then b'\\' ∷ c ∷ [] else c ∷ []

unfoldable pub escape : Bytes → Bytes
escape [] = []
escape (c ∷ cs) = escape_byte c ++ escape cs

-- The arguments in quotes, with a blank between.
unfoldable pub render : List Bytes → Bytes
render [] = []
render (t ∷ []) = b'"' ∷ (escape t ++ b'"' ∷ [])
render (t ∷ u ∷ ts) = b'"' ∷ (escape t ++ b'"' ∷ b' ' ∷ render (u ∷ ts))

abbrev at : List Bytes → Bytes → Bool → Bool → Scanner
at tokens token quoted started = record {
  tokens = tokens;
  token = token;
  quoted = quoted;
  started = started;
}

head : Bytes → Option ℕ
head [] = none
head (c ∷ cs) = some c

scan_one :
    (s s' : Scanner) (c : ℕ) (rest : Bytes)
    → round s c (head rest) ≡ one s'
    → scan (c ∷ rest) s ≡ scan rest s'
unfolding scan head
scan_one s s' c [] e = rw (e, scan) refl
scan_one s s' c (d ∷ rest) e = rw (e, scan) refl

scan_two :
    (s s' : Scanner) (c d : ℕ) (rest : Bytes)
    → round s c (some d) ≡ two s'
    → scan (c ∷ d ∷ rest) s ≡ scan rest s'
unfolding scan
scan_two s s' c d rest e = rw (e, scan) refl

check_size_fits :
    (s : Scanner) (next : Round)
    → length s.token ≤ 4096
    → length s.tokens ≤ 67
    → check_size s next ≡ next
unfolding check_size
check_size_fits s next h k =
    let fits : (ltb 4096 (length s.token) || ltb 67 (length s.tokens)) ≡ false = ground arith in
    rw fits refl

abbrev pushed : List Bytes → Bytes → ℕ → Scanner
pushed tokens token c = at tokens (token ++ c ∷ []) true true

-- One byte between quotes.
scan_escaped :
    (tokens : List Bytes) (token : Bytes) (c : ℕ) (rest : Bytes)
    → is_allowed c ≡ true
    → length token < 4096
    → length tokens ≤ 67
    → scan (escape_byte c ++ rest) (at tokens token true true) ≡ scan rest (pushed tokens token c)
unfolding escape_byte round escapable
scan_escaped tokens token c rest ok_byte few fits =
    let longer : length (token ++ c ∷ []) ≤ 4096 =
      omega (arith, length-append token (c ∷ []), few) in
    let after = pushed tokens token c in
    elim (Bool-cases (c == b'"' || c == b'\\')) [
      | inl special ↦ rw special (
          scan_two (at tokens token true true) after b'\\' c rest
            (rw special (check_size_fits after (two after) longer fits)))
      | inr plain_byte ↦
          let no_control : (ltb c 32 && not (c == b'\t')) ≡ false = ground arith in
          let no_delete : (c == 127) ≡ false = ground arith in
          let no_quote : (c == b'"') ≡ false = ground arith in
          let no_backslash : (c == b'\\') ≡ false = ground arith in
          rw plain_byte (
            scan_one (at tokens token true true) after c rest (
              rw (no_control, no_delete, no_quote, no_backslash)
                (check_size_fits after (one after) longer fits)))
    ]

opening :
    (tokens : List Bytes) (next : Option ℕ)
    → round (at tokens [] false false) b'"' next ≡ one (at tokens [] true true)
unfolding round
opening tokens next = refl

closing :
    (tokens : List Bytes) (token : Bytes) (next : Option ℕ)
    → round (at tokens token true true) b'"' next ≡ one (at tokens token false true)
unfolding round
closing tokens token next = refl

-- The bytes of an argument, up to the closing quote.
scan-escape :
    (tokens : List Bytes) (token t : Bytes) (rest : Bytes)
    → all_bytes is_allowed t ≡ true
    → length token + length t ≤ 4096
    → length tokens ≤ 67
    → scan (escape t ++ b'"' ∷ rest) (at tokens token true true)
      ≡ scan rest (at tokens (token ++ t) false true)
unfolding escape all_bytes
scan-escape tokens token [] rest allowed few fits = rw append-nil (
    scan_one (at tokens token true true) (at tokens token false true) b'"' rest
      (closing tokens token (head rest)))
scan-escape tokens token (c ∷ t) rest allowed few fits =
    let longer : length (token ++ c ∷ []) ≡ suc (length token) =
      omega (arith, length-append token (c ∷ [])) in
    ap (λ xs. scan xs (at tokens token true true))
      (append_assoc (escape_byte c) (escape t) (b'"' ∷ rest))
    ∙ scan_escaped tokens token c (escape t ++ b'"' ∷ rest) (ground arith) (omega (arith, few)) fits
    ∙ scan-escape tokens (token ++ c ∷ []) t rest (ground arith) (omega (arith, few, longer)) fits
    ∙ ap (λ xs. scan rest (at tokens xs false true)) (append_assoc token (c ∷ []) t)

-- A whole argument in quotes.
scan_quoted :
    (tokens : List Bytes) (t rest : Bytes)
    → all_bytes is_allowed t ≡ true
    → length t ≤ 4096
    → length tokens ≤ 67
    → scan (b'"' ∷ (escape t ++ b'"' ∷ rest)) (at tokens [] false false)
      ≡ scan rest (at tokens t false true)
scan_quoted tokens t rest allowed few fits =
    scan_one (at tokens [] false false) (at tokens [] true true) b'"' (escape t ++ b'"' ∷ rest)
      (opening tokens (head (escape t ++ b'"' ∷ rest)))
    ∙ scan-escape tokens [] t rest allowed (omega (arith, few)) fits

-- The blank between two arguments.
scan_blank :
    (tokens : List Bytes) (t rest : Bytes)
    → length tokens < 67
    → scan (b' ' ∷ rest) (at tokens t false true) ≡ scan rest (at (tokens ++ t ∷ []) [] false false)
unfolding round
scan_blank tokens t rest fits =
    let after = at (tokens ++ t ∷ []) [] false false in
    scan_one (at tokens t false true) after b' ' rest (
      check_size_fits after (one after) (omega arith)
        (omega (arith, length-append tokens (t ∷ []), fits)))

abbrev IsWhole : Bytes → Type 0
IsWhole t = (all_bytes is_allowed t ≡ true) × (length t ≤ 4096)

scan-render :
    (tokens : List Bytes) (t : Bytes) (ts : List Bytes)
    → All IsWhole (t ∷ ts)
    → length tokens + length (t ∷ ts) ≤ 67
    → (scan (render (t ∷ ts)) (at tokens [] false false) >>= finish) ≡ ok (tokens ++ t ∷ ts)
unfolding render scan finish
scan-render tokens t [] ((allowed, few), _) fits =
    ap (λ r. r >>= finish) (scan_quoted tokens t [] allowed few (omega (arith, fits)))
scan-render tokens t (u ∷ ts) ((allowed, few), more) fits =
    let longer : length (tokens ++ t ∷ []) ≡ suc (length tokens) =
      omega (arith, length-append tokens (t ∷ [])) in
    ap (λ r. r >>= finish)
      (scan_quoted tokens t (b' ' ∷ render (u ∷ ts)) allowed few (omega (arith, fits))
        ∙ scan_blank tokens t (render (u ∷ ts)) (omega (arith, fits)))
    ∙ scan-render (tokens ++ t ∷ []) u ts more (omega (arith, fits, longer))
    ∙ ap ok (append_assoc tokens (t ∷ []) (u ∷ ts))

-- At most 67 arguments of at most 4096 bytes each, without control bytes but tabs, that are written
-- in quotes, with a backslash before each quote and each backslash, and with a blank between,
-- are read back as they are: also where they are empty or hold blanks.
pub tokenize-render :
    (t : Bytes) (ts : List Bytes)
    → All IsWhole (t ∷ ts)
    → length (t ∷ ts) ≤ 67
    → tokenize (render (t ∷ ts)) ≡ ok (t ∷ ts)
unfolding tokenize
tokenize-render t ts whole few = scan-render [] t ts whole (omega (arith, few))
