-- ===== src/GodMode/Parsed.antt =====
-- Requests that are passed on, and requests that are written down and read back.
use open_scum_rcon.Base.{
  ℕ, ◌≡◌, refl, ap, ◌∙◌, ◌≢◌, inl, inr, Bool, true, false, [], ◌∷◌, ◌++◌, arith, Bytes, text,
  same_text, all_bytes, Option-cases,
}
use open_scum_rcon.Config.{is_space, skip_space, split_at}
use open_scum_rcon.Request.{lower_ascii, strip_hash, steam_id_valid, is_digit}
use open_scum_rcon.GodMode.{
  Action, unrelated, invalid, state, prepare, execute, Request, next_word, action_of, parse_target,
  parse_value, parse,
}

abbrev pub Acts : Action → Type 0
Acts action = (action ≢ unrelated) × (action ≢ invalid)

parse_target_valid :
    (action : Action) (enabled : Bool) (input : Bytes)
    → (parse_target action enabled input).action ≢ invalid
    → steam_id_valid (parse_target action enabled input).steam_id ≡ true
unfolding parse_target
parse_target_valid action enabled input h = ground arith

parse_value_valid :
    (action : Action) (input : Bytes)
    → (parse_value action input).action ≢ invalid
    → steam_id_valid (parse_value action input).steam_id ≡ true
unfolding parse_value
parse_value_valid execute input h = parse_target_valid _ _ _ h
parse_value_valid unrelated input h = parse_target_valid _ _ _ h
parse_value_valid invalid input h = parse_target_valid _ _ _ h
parse_value_valid state input h = parse_target_valid _ _ _ h
parse_value_valid prepare input h = parse_target_valid _ _ _ h

-- A request that is neither unrelated nor invalid names a SteamID of 17 digits.
pub parse_valid :
    (input : Bytes) → Acts (parse input).action → steam_id_valid (parse input).steam_id ≡ true
unfolding parse
parse_valid input (related, h) =
    elim (Option-cases (action_of (lower_ascii (strip_hash (next_word input).0)))) [
      | inl e ↦ absurd (related (rw (e, parse)))
      | inr (action, e) ↦ rw (e, parse) (parse_value_valid action _ (rw (e, parse) at h))
    ]

-- The three requests as they are documented.
pub data Order : Type 0 where
  sets : Bool → Order
  asks prepares : Order

unfoldable pub words : Order → Bytes
words (sets true) = text "SetGodMode true "
words (sets false) = text "SetGodMode false "
words asks = text "!godmode_state "
words prepares = text "!godmode_prepare "

unfoldable pub request_of : Order → Bytes → Request
request_of (sets enabled) id = record { action = execute; steam_id = id; enabled = enabled }
request_of asks id = record { action = state; steam_id = id; enabled = false }
request_of prepares id = record { action = prepare; steam_id = id; enabled = false }

digit_no_space : (c : ℕ) → is_digit c ≡ true → is_space c ≡ false
digit_no_space c h = ground arith

split_at_digits : (id : Bytes) → all_bytes is_digit id ≡ true → split_at is_space id ≡ (id, [])
unfolding split_at all_bytes
split_at_digits [] h = refl
split_at_digits (c ∷ cs) h =
    let digit : is_digit c ≡ true = ground arith in
    let digits : all_bytes is_digit cs ≡ true = ground arith in
    rw (digit_no_space c digit, split_at_digits cs digits)

skip_space_digits : (id : Bytes) → all_bytes is_digit id ≡ true → skip_space id ≡ id
unfolding skip_space all_bytes
skip_space_digits [] h = refl
skip_space_digits (c ∷ cs) h =
    let digit : is_digit c ≡ true = ground arith in rw (digit_no_space c digit)

next_word_digits : (id : Bytes) → all_bytes is_digit id ≡ true → next_word (32 ∷ id) ≡ (id, [])
unfolding next_word skip_space
next_word_digits id h = ap (split_at is_space) (skip_space_digits id h) ∙ split_at_digits id h

valid_digits : (id : Bytes) → steam_id_valid id ≡ true → all_bytes is_digit id ≡ true
unfolding steam_id_valid
valid_digits id h = ground arith

no_word : next_word [] ≡ ([], [])
unfolding next_word skip_space split_at
no_word = refl

parse_target_digits :
    (action : Action) (enabled : Bool) (id : Bytes)
    → steam_id_valid id ≡ true
    → parse_target action enabled (32 ∷ id)
      ≡ record { action = action; steam_id = id; enabled = enabled }
unfolding parse_target
parse_target_digits action enabled id h = rw (next_word_digits id (valid_digits id h), no_word, h)

-- Each of the documented requests, written with a valid SteamID, is read as what it says.
pub parse-words :
    (order : Order) (id : Bytes)
    → steam_id_valid id ≡ true
    → parse (words order ++ id) ≡ request_of order id
unfolding parse parse_value words request_of next_word skip_space split_at lower_ascii strip_hash
    action_of same_text text
parse-words (sets true) id h = parse_target_digits execute true id h
parse-words (sets false) id h = parse_target_digits execute false id h
parse-words asks id h = parse_target_digits state false id h
parse-words prepares id h = parse_target_digits prepare false id h
