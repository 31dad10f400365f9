-- ===== src/Tests/Requests.antt =====
-- Requests at concrete inputs.
use open_scum_rcon.Base.{◌≡◌, refl, List, [], ◌∷◌, Bytes, text, same_text, all_bytes}
use open_scum_rcon.Base.{Result, ok, arith}
use open_scum_rcon.Request.Quoted.{render, tokenize-render}
use open_scum_rcon.Trim.{trim}
use open_scum_rcon.Request.{
  execute, parse_dispatch_request, parse_tokens, parse_verb, parse_exec, or_fail, tokenize,
  strip_hash, lower_ascii, steam_id_valid,
}
use open_scum_rcon.Request.Accepted.{IsExecutable, parse_dispatch_request-IsExecutable}

abbrev exec_line : Bytes
exec_line = text "!exec 76561198000000001 #Test \"hello world\" \"say \\\"hello\\\"\" \"\" 12"

exec_tokens : Result (List Bytes)
exec_tokens = tokenize exec_line

exec_tokens_lem :
    tokenize exec_line
    ≡ ok (
        text "!exec"
        ∷ text "76561198000000001"
        ∷ text "#Test"
        ∷ text "hello world"
        ∷ text "say \"hello\""
        ∷ []
        ∷ text "12"
        ∷ [])
unfolding tokenize text
exec_tokens_lem = refl

exec_action : (parse_dispatch_request exec_line).action ≡ execute
unfolding parse_dispatch_request trim tokenize or_fail parse_tokens parse_verb parse_exec strip_hash
    lower_ascii steam_id_valid same_text text all_bytes
exec_action = refl

exec_arguments :
    (parse_dispatch_request exec_line).arguments
    ≡ text "hello world" ∷ text "say \"hello\"" ∷ [] ∷ text "12" ∷ []
unfolding parse_dispatch_request trim tokenize or_fail parse_tokens parse_verb parse_exec strip_hash
    lower_ascii steam_id_valid same_text text all_bytes
exec_arguments = refl

parse_dispatch_request-IsExecutable_example : IsExecutable (parse_dispatch_request exec_line)
parse_dispatch_request-IsExecutable_example =
    parse_dispatch_request-IsExecutable exec_line exec_action

-- A name with a blank, nothing, and a quote.
abbrev awkward : List Bytes
awkward = text "a name" ∷ [] ∷ (b'"' ∷ []) ∷ []

tokenize-render_example : tokenize (render awkward) ≡ ok awkward
unfolding text all_bytes
tokenize-render_example =
    tokenize-render (text "a name") ([] ∷ (b'"' ∷ []) ∷ [])
      ((refl, omega arith), ((refl, omega arith), ((refl, omega arith), tt))) (omega arith)
