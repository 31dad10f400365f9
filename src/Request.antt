-- ===== src/Request.antt =====
-- native_module/src/dispatch_request.hpp: from the text of a request to a DispatchRequest.
pub mod Tokens
pub mod Accepted
pub mod Quoted
use open_scum_rcon.Base.{
  ℕ, zero, suc, ◌+◌, ◌-◌, ◌*◌, ◌/◌, ◌%◌, ◌^◌, ◌≤◌, ◌<◌, min, ◌≡◌, refl, sym, ap, ◌∙◌, subst, ◌≢◌,
  ◌↔◌, ◌⊎◌, inl, inr, Bool, true, false, not, ◌&&◌, ◌||◌, Option, none, some, List, [], ◌∷◌, ◌++◌,
  map, append-nil, append_assoc, arith, Bytes, IsBytes, text, same_text, same_text_iff, any_byte,
  all_bytes, ltb, leb, ◌==◌, if◌then◌else◌, ltb→lt, ltb→ge, leb→le, ==_iff, Bool-cases,
  Option-cases, length, get_or, take, drop, replicate, length-append, take-append-drop, length-take,
  length-drop, length-replicate, take_all, drop_all, take-append_eq, drop-append_eq,
  take-append_right, drop-drop, get_or-drop, get_or-take, get_or_inside, drop-append_right,
  get_or-append_left, get_or-append_right, All, All-append, All-append_left, All-append_right,
  All-take, All-drop, All-get_or, All-get_or_lt,
}
use open_scum_rcon.Base.{Result, ok, err, ◌>>=◌}
use open_scum_rcon.Trim.{trim}

unfoldable pub lower_ascii_byte : ℕ → ℕ
lower_ascii_byte c = if leb b'A' c && leb c b'Z' then c + (b'a' - b'A') else c

unfoldable pub lower_ascii : Bytes → Bytes
unfolding lower_ascii_byte
lower_ascii = map lower_ascii_byte

abbrev pub is_digit : ℕ → Bool
is_digit c = leb b'0' c && leb c b'9'

unfoldable pub steam_id_valid : Bytes → Bool
unfolding all_bytes
steam_id_valid id = length id == 17 && all_bytes is_digit id

pub data DispatchAction : Type 0 where
  unknown invalid players commands execute weather time_of_day : DispatchAction

pub record DispatchRequest : Type 0 where
  pub action : DispatchAction
  pub steam_id : Bytes
  pub verb : Bytes
  pub filter : Bytes
  pub error : Bytes
  pub arguments : List Bytes

-- The locals of the loop that splits a request into tokens.
pub record Scanner : Type 0 where
  pub tokens : List Bytes
  pub token : Bytes
  pub quoted : Bool
  pub started : Bool

abbrev pub control_error : Bytes
control_error = text "control characters and multiple command lines are not allowed"

-- What one round does: it fails, or it goes on one or two bytes further.
pub data Round : Type 0 where
  stop : Bytes → Round
  one two : Scanner → Round

abbrev pub push_byte : Scanner → ℕ → Scanner
push_byte s c = record s { token = s.token ++ c ∷ []; started = true }

abbrev pub push_token : Scanner → Scanner
push_token s =
    if s.started
    then record s { tokens = s.tokens ++ s.token ∷ []; token = []; started = false }
    else s

-- The size check at the end of the loop's body.
unfoldable pub check_size : Scanner → Round → Round
check_size s next =
    if ltb 4096 (length s.token) || ltb 67 (length s.tokens)
    then stop (text "too many or oversized arguments")
    else next

-- `i + 1 < text.size() && (text[i+1] == '"' || text[i+1] == '\\')`
unfoldable pub escapable : Option ℕ → Bool
escapable none = false
escapable (some d) = d == b'"' || d == b'\\'

abbrev pub or_zero : Option ℕ → ℕ
or_zero none = 0
or_zero (some d) = d

-- The body of the loop at a byte, with the byte behind it.
unfoldable pub round : Scanner → ℕ → Option ℕ → Round
round s c next =
    if ltb c 32 && not (c == b'\t')
    then stop control_error
    else if c == 127
    then stop (text "control characters are not allowed")
    else if c == b'"'
    then one (record s { quoted = not s.quoted; started = true })
    else if s.quoted && (c == b'\\' && escapable next)
    then (let s' = push_byte s (or_zero next) in check_size s' (two s'))
    else if not s.quoted && (c == b' ' || c == b'\t')
    then (let s' = push_token s in check_size s' (one s'))
    else (let s' = push_byte s c in check_size s' (one s'))

unfoldable pub scan : Bytes → Scanner → Result Scanner
unfolding round check_size escapable
scan [] s = ok s
scan (c ∷ []) s = elim (round s c none) [ stop why ↦ err why | one s' ↦ ok s' | two s' ↦ ok s' ]
scan (c ∷ d ∷ rest) s = elim (round s c (some d)) [
  | stop why ↦ err why
  | one s' ↦ scan (d ∷ rest) s'
  | two s' ↦ scan rest s'
]

abbrev pub scanner : Scanner
scanner = record { tokens = []; token = []; quoted = false; started = false }

-- Behind the loop.
unfoldable pub finish : Scanner → Result (List Bytes)
finish s = if s.quoted then err (text "unterminated double quote") else ok (push_token s).tokens

-- From a trimmed text to its tokens.
unfoldable pub tokenize : Bytes → Result (List Bytes)
unfolding scan finish
tokenize input = scan input scanner >>= finish

-- `if (!s.empty() && s.front() == '#') s.erase(0, 1)`
unfoldable pub strip_hash : Bytes → Bytes
strip_hash [] = []
strip_hash (c ∷ cs) = if c == b'#' then cs else c ∷ cs

abbrev pub is_name_byte : ℕ → Bool
is_name_byte c = (leb b'a' c && leb c b'z') || (leb b'A' c && leb c b'Z') || is_digit c || c == b'_'

abbrev pub blank_request : DispatchRequest
blank_request = record {
  action = unknown;
  steam_id = [];
  verb = [];
  filter = [];
  error = [];
  arguments = [];
}

abbrev pub fail : DispatchRequest → Bytes → DispatchRequest
fail r why = record r { action = invalid; error = why }

-- The branch of `!exec`.
unfoldable pub parse_exec : List Bytes → DispatchRequest
parse_exec tokens =
    if ltb (length tokens) 3
      || (ltb 67 (length tokens) || not (steam_id_valid (get_or tokens 1 [])))
    then fail blank_request (text "usage: !exec <17-digit SteamID> <command> [arguments...]")
    else (let r : DispatchRequest = record blank_request {
      action = execute;
      steam_id = get_or tokens 1 [];
      verb = strip_hash (get_or tokens 2 []);
    } in
        if length r.verb == 0 || not (all_bytes is_name_byte r.verb)
        then fail r (text "invalid command name")
        else record r { arguments = drop 3 tokens })

-- The chain of commands, on the tokens and the verb in lower case.
unfoldable pub parse_verb : Bytes → List Bytes → DispatchRequest
parse_verb verb tokens =
    if same_text verb (text "listplayers")
    then (if not (length tokens == 1)
        then fail blank_request (text "usage: ListPlayers")
        else record blank_request { action = players })
    else if same_text verb (text "getweather") || same_text verb (text "gettimeofday")
    then (if not (length tokens == 1)
        then fail blank_request (text "usage: GetWeather or GetTimeOfDay (no arguments)")
        else record blank_request {
          action = if same_text verb (text "getweather") then weather else time_of_day;
        })
    else if same_text verb (text "!commands")
    then (if ltb 2 (length tokens)
        then fail blank_request (text "usage: !commands [filter]")
        else record blank_request {
          action = commands;
          filter = if length tokens == 2 then lower_ascii (get_or tokens 1 []) else [];
        })
    else if same_text verb (text "!exec")
    then parse_exec tokens
    else blank_request

unfoldable pub parse_tokens : List Bytes → DispatchRequest
parse_tokens [] = fail blank_request (text "empty command")
parse_tokens (name ∷ tokens) = parse_verb (strip_hash (lower_ascii name)) (name ∷ tokens)

unfoldable pub or_fail : Result (List Bytes) → DispatchRequest
or_fail (ok tokens) = parse_tokens tokens
or_fail (err why) = fail blank_request why

unfoldable pub parse_dispatch_request : Bytes → DispatchRequest
parse_dispatch_request input =
    if ltb 8192 (length input)
    then fail blank_request (text "request exceeds 8192 bytes")
    else elim (trim input) [
      | none ↦ fail blank_request (text "empty command")
      | some t ↦ or_fail (tokenize t)
    ]
