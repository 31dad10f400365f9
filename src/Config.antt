-- ===== src/Config.antt =====
-- native_module/src/dllmain.cpp, `Config` and `load_config`: the settings of the server.
-- A file that cannot be opened is `none`; a result `none` is the exception of std::stoi.
pub mod Last
use open_scum_rcon.Base.{
  ℕ, zero, suc, ◌+◌, ◌-◌, ◌*◌, ◌/◌, ◌%◌, ◌^◌, ◌≤◌, ◌<◌, min, ◌≡◌, refl, sym, ap, ◌∙◌, subst, ◌≢◌,
  ◌↔◌, ◌⊎◌, inl, inr, Bool, true, false, not, ◌&&◌, ◌||◌, Option, none, some, List, [], ◌∷◌, ◌++◌,
  map, append-nil, append_assoc, arith, Bytes, IsBytes, text, same_text, same_text_iff, any_byte,
  all_bytes, ltb, leb, ◌==◌, if◌then◌else◌, ltb→lt, ltb→ge, leb→le, ==_iff, Bool-cases,
  Option-cases, length, get_or, take, drop, replicate, length-append, take-append-drop, length-take,
  length-drop, length-replicate, take_all, drop_all, take-append_eq, drop-append_eq,
  take-append_right, drop-drop, get_or-drop, get_or-take, get_or_inside, take-append_left,
  drop-append_left, drop-append_right, get_or-append_left, get_or-append_right, All, All-append,
  All-append_left, All-append_right, All-take, All-drop, All-get_or, All-get_or_lt,
}
use mathlib.Core.Option
use open_scum_rcon.Trim.{trim}

pub record Config : Type 0 where
  pub bind_host : Bytes
  pub port : ℕ
  pub password : Bytes

abbrev pub default_config : Config
default_config = record { bind_host = text "0.0.0.0"; port = 28016; password = text "changeme" }

-- The bytes before the first that passes a test, with that byte and those behind it.
unfoldable pub split_at : (ℕ → Bool) → Bytes → Bytes × Bytes
split_at p [] = ([], [])
split_at p (c ∷ cs) = if p c then ([], c ∷ cs) else (c ∷ (split_at p cs).0, (split_at p cs).1)

-- std::getline, until it fails: behind a last line break there is no further line.
unfoldable pub lines_of : Bytes → List Bytes
lines_of [] = []
lines_of (c ∷ cs) =
    let rest = lines_of cs in
    if c == b'\n'
    then [] ∷ rest
    else elim rest [ [] ↦ (c ∷ []) ∷ [] | line ∷ lines ↦ (c ∷ line) ∷ lines ]

-- A white-space character of the C locale.
abbrev pub is_space : ℕ → Bool
is_space c = c == 32 || leb 9 c && leb c 13

unfoldable pub skip_space : Bytes → Bytes
skip_space [] = []
skip_space (c ∷ cs) = if is_space c then skip_space cs else c ∷ cs

-- The number of the digits that stand at the head; `none` where there is none.
unfoldable pub leading_digits : Option ℕ → Bytes → Option ℕ
leading_digits seen [] = seen
leading_digits seen (c ∷ cs) =
    if leb b'0' c && leb c b'9'
    then leading_digits (some (10 * Option.get_or seen 0 + (c - b'0'))) cs
    else seen

-- std::stoi cast to unsigned short; `none` is std::invalid_argument or std::out_of_range.
unfoldable pub stoi_port : Bytes → Option ℕ
stoi_port value = elim (skip_space value) [
  | [] ↦ none
  | c ∷ cs ↦
      let negative = c == b'-' in
      Option.bind (leading_digits none (if negative || c == b'+' then cs else c ∷ cs)) (λ n.
        if ltb (if negative then 2 ^ 31 else 2 ^ 31 - 1) n
        then none
        else some (if negative then (2 ^ 16 - n % 2 ^ 16) % 2 ^ 16 else n % 2 ^ 16))
]

abbrev pub or_empty : Option Bytes → Bytes
or_empty none = []
or_empty (some value) = value

-- The key and the value of a line; `none` where the line has no `=` before its comment.
unfoldable pub assignment : Bytes → Option (Bytes × Bytes)
unfolding split_at
assignment line =
    let kept = (split_at (λ c. c == b';' || c == b'#') line).0 in
    let (key, rest) = split_at (λ c. c == b'=') kept in
    elim rest [ [] ↦ none | c ∷ value ↦ some (or_empty (trim key), or_empty (trim value)) ]

unfoldable pub set_key : Bytes → Bytes → Config → Option Config
set_key key value config =
    if same_text key (text "bind_host")
    then some (record config { bind_host = value })
    else if same_text key (text "port")
    then Option.map (λ port. record config { port = port }) (stoi_port value)
    else if same_text key (text "password")
    then some (record config { password = value })
    else some config

-- One round of the `while` loop.
unfoldable pub load_line : Bytes → Config → Option Config
load_line line config = elim (assignment line) [
  | none ↦ some config
  | some (key, value) ↦ set_key key value config
]

unfoldable pub load_lines : List Bytes → Config → Option Config
load_lines [] config = some config
load_lines (line ∷ lines) config = Option.bind (load_line line config) (load_lines lines)

unfoldable pub load_config : Option Bytes → Option Config
load_config none = some default_config
load_config (some content) = load_lines (lines_of content) default_config
