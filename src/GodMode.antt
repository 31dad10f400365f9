-- ===== src/GodMode.antt =====
-- native_module/src/godmode_request.hpp: the requests for GodMode.
pub mod Parsed
pub mod Dispatch
use open_scum_rcon.Base.{
  ℕ, zero, suc, ◌+◌, ◌-◌, ◌*◌, ◌/◌, ◌%◌, ◌^◌, ◌≤◌, ◌<◌, min, ◌≡◌, refl, sym, ap, ◌∙◌, subst, ◌≢◌,
  ◌↔◌, ◌⊎◌, inl, inr, Bool, true, false, not, ◌&&◌, ◌||◌, Option, none, some, List, [], ◌∷◌, ◌++◌,
  map, append-nil, append_assoc, arith, Bytes, IsBytes, text, same_text, same_text_iff, any_byte,
  all_bytes, ltb, leb, ◌==◌, if◌then◌else◌, ltb→lt, ltb→ge, leb→le, ==_iff, Bool-cases,
  Option-cases, length, get_or, take, drop, replicate, length-append, take-append-drop, length-take,
  length-drop, length-replicate, take_all, drop_all, take-append_eq, drop-append_eq,
  take-append_right, drop-drop, get_or-drop, get_or-take, get_or_inside, take-append_left,
  drop-append_left, drop-append_right, get_or-append_left, get_or-append_right, All, All-append,
  All-append_left, All-append_right, All-take, All-drop, All-get_or, All-get_or_lt,
}
use open_scum_rcon.Config.{is_space, skip_space, split_at}
use open_scum_rcon.Request.{lower_ascii, strip_hash, steam_id_valid}

pub data Action : Type 0 where
  unrelated invalid state prepare execute : Action

pub record Request : Type 0 where
  pub action : Action
  pub steam_id : Bytes
  pub enabled : Bool

-- `input >> word`: the next word, empty at the end of the input, and the input behind it.
unfoldable pub next_word : Bytes → Bytes × Bytes
unfolding skip_space split_at
next_word input = split_at is_space (skip_space input)

-- `verb` behind the first word; `none` is the branch that returns at once.
unfoldable pub action_of : Bytes → Option Action
action_of verb =
    if same_text verb (text "setgodmode")
    then some execute
    else if same_text verb (text "!godmode_state")
    then some state
    else if same_text verb (text "!godmode_prepare")
    then some prepare
    else none

-- From `input >> result.steam_id` on.
unfoldable pub parse_target : Action → Bool → Bytes → Request
parse_target action enabled input =
    let (steam_id, rest) = next_word input in
    let (extra, end) = next_word rest in
    record {
      action = if not (steam_id_valid steam_id) || not (length extra == 0) then invalid else action;
      steam_id = steam_id;
      enabled = enabled;
    }

unfoldable pub parse_value : Action → Bytes → Request
parse_value execute input =
    let (word, rest) = next_word input in
    let value = lower_ascii word in
    parse_target
      (if not (same_text value (text "true")) && not (same_text value (text "false"))
        then invalid
        else execute)
      (same_text value (text "true")) rest
parse_value action input = parse_target action false input

unfoldable pub parse : Bytes → Request
unfolding lower_ascii strip_hash
parse input =
    let (verb, rest) = next_word input in
    elim (action_of (lower_ascii (strip_hash verb))) [
      | none ↦ record { action = unrelated; steam_id = []; enabled = false }
      | some action ↦ parse_value action rest
    ]
