-- ===== src/Request/Accepted.antt =====
-- The requests that `parse_dispatch_request` lets through.
use open_scum_rcon.Base.{
  ◌≤◌, ◌≡◌, refl, ◌∙◌, ◌≢◌, inl, inr, Bool, true, not, ◌||◌, some, List, [], ◌∷◌, arith, Bytes,
  all_bytes, ltb, ◌==◌, ltb→ge, Bool-cases, Option-cases, length, get_or, length-drop, All,
  All-drop,
}
use open_scum_rcon.Base.{Result, ok, err}
use open_scum_rcon.Trim.{trim}
use open_scum_rcon.Request.{
  invalid, execute, DispatchRequest, steam_id_valid, is_name_byte, strip_hash, parse_exec,
  parse_verb, parse_tokens, or_fail, tokenize, parse_dispatch_request,
}
use open_scum_rcon.Request.Tokens.{IsToken, IsClean, tokenize-IsToken}

-- An !exec request that may be passed on.
pub record IsExecutable (r : DispatchRequest) : Type 0 where
  pub target : steam_id_valid r.steam_id ≡ true
  pub named : r.verb ≢ []
  pub name_bytes : all_bytes is_name_byte r.verb ≡ true
  pub few : length r.arguments ≤ 64
  pub arguments : All IsToken r.arguments

parse_exec-IsExecutable :
    (tokens : List Bytes)
    → All IsToken tokens
    → (parse_exec tokens).action ≡ execute
    → IsExecutable (parse_exec tokens)
unfolding parse_exec
parse_exec-IsExecutable tokens v h = elim (Bool-cases usage) [
  | inl bad ↦ cc (rw bad at h)
  | inr fine ↦ rw fine (elim (Bool-cases unnamed) [
    | inl bad ↦ cc (rw (fine, bad) at h)
    | inr good ↦ rw good (record {
      target = ground arith;
      named = λ e. ground arith;
      name_bytes = ground arith;
      few = omega (arith, length-drop 3 tokens, count);
      arguments = All-drop IsToken 3 tokens v;
    })
  ])
]
  where
    usage : Bool
    usage =
        ltb (length tokens) 3
        || (ltb 67 (length tokens) || not (steam_id_valid (get_or tokens 1 [])))

    verb : Bytes
    verb = strip_hash (get_or tokens 2 [])

    unnamed : Bool
    unnamed = length verb == 0 || not (all_bytes is_name_byte verb)

    count : length tokens ≤ 67
    count = ground arith

parse_verb_execute :
    (verb : Bytes) (tokens : List Bytes)
    → (parse_verb verb tokens).action ≡ execute
    → parse_verb verb tokens ≡ parse_exec tokens
unfolding parse_verb
parse_verb_execute verb tokens h = ground arith

parse_tokens-IsExecutable :
    (tokens : List Bytes)
    → All IsToken tokens
    → (parse_tokens tokens).action ≡ execute
    → IsExecutable (parse_tokens tokens)
unfolding parse_tokens
parse_tokens-IsExecutable [] v h = cc
parse_tokens-IsExecutable (name ∷ tokens) v h =
    let e = parse_verb_execute _ (name ∷ tokens) h in
    rw e (parse_exec-IsExecutable (name ∷ tokens) v (rw e at h))

-- How a request that is not invalid came about.
record IsParsed (input : Bytes) : Type 0 where
  trimmed : Bytes
  tokens : List Bytes
  size : length input ≤ 8192
  trims : trim input ≡ some trimmed
  tokenizes : tokenize trimmed ≡ ok tokens
  parses : parse_dispatch_request input ≡ parse_tokens tokens

or_fail_cases :
    (r : Result (List Bytes))
    → (or_fail r).action ≢ invalid
    → (tokens : List Bytes) × (r ≡ ok tokens) × (or_fail r ≡ parse_tokens tokens)
unfolding or_fail
or_fail_cases (ok tokens) h = (tokens, refl, refl)
or_fail_cases (err why) h = absurd (h refl)

parsed : (input : Bytes) → (parse_dispatch_request input).action ≢ invalid → IsParsed input
unfolding parse_dispatch_request
parsed input h = elim (Bool-cases (ltb 8192 (length input))) [
  | inl large ↦ absurd (h (rw large))
  | inr fits ↦ elim (Option-cases (trim input)) [
    | inl blank ↦ absurd (h (rw fits (rw (blank, parse_dispatch_request))))
    | inr (t, e) ↦
        let here : parse_dispatch_request input ≡ or_fail (tokenize t) =
          rw fits (rw (e, parse_dispatch_request)) in
        let (tokens, done, same) = or_fail_cases (tokenize t) (λ bad. h (rw here bad)) in
        record {
          trimmed = t;
          tokens = tokens;
          size = ltb→ge _ _ fits;
          trims = e;
          tokenizes = done;
          parses = here ∙ same;
        }
  ]
]

-- A request is turned into an execution only with a SteamID of 17 digits, a command name of
-- letters, digits and underscores that is not empty, and at most 64 arguments, each of at most
-- 4096 bytes without control bytes but tabs.
pub parse_dispatch_request-IsExecutable :
    (input : Bytes)
    → (parse_dispatch_request input).action ≡ execute
    → IsExecutable (parse_dispatch_request input)
parse_dispatch_request-IsExecutable input h =
    let p = parsed input (λ bad. cc (h, bad)) in
    rw p.parses (
      parse_tokens-IsExecutable p.tokens (tokenize-IsToken p.trimmed p.tokens p.tokenizes).0
        (rw p.parses at h))

-- A request that is not refused is one line: behind the trimming of blanks at both ends it holds
-- no control byte but tabs, and it has at most 8192 bytes.
pub parse_dispatch_request-IsClean :
    (input : Bytes)
    → (parse_dispatch_request input).action ≢ invalid
    → (t : Bytes) × (trim input ≡ some t) × IsClean t × (length input ≤ 8192)
parse_dispatch_request-IsClean input h =
    let p = parsed input h in
    (p.trimmed, p.trims, (tokenize-IsToken p.trimmed p.tokens p.tokenizes).2, p.size)
