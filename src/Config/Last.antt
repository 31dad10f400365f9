-- ===== src/Config/Last.antt =====
-- Which line of the file decides.
use open_scum_rcon.Base.{
  ℕ, ◌≡◌, refl, sym, ◌∙◌, subst, inl, inr, true, false, Option, none, some, List, [], ◌∷◌, Bytes,
  text, same_text, same_text_iff, if◌then◌else◌, Bool-cases, Option-cases,
}
use mathlib.Core.Option
use open_scum_rcon.Config.{
  Config, default_config, lines_of, stoi_port, assignment, set_key, load_line, load_lines,
  load_config,
}

-- The value of the last line that assigns a key.
unfoldable pub last_value : Bytes → List Bytes → Option Bytes
last_value key [] = none
last_value key (line ∷ lines) = elim (last_value key lines) [
  | some value ↦ some value
  | none ↦ elim (assignment line) [
    | none ↦ none
    | some (name, value) ↦ if same_text name key then some value else none
  ]
]

-- What the lines make of a setting.
abbrev pub or_before : Bytes → Option Bytes → Bytes
or_before before none = before
or_before before (some value) = value

abbrev pub HasPort : ℕ → Option Bytes → ℕ → Type 0
HasPort before none port = port ≡ before
HasPort before (some value) port = stoi_port value ≡ some port

abbrev pub IsLoaded : List Bytes → Config → Config → Type 0
IsLoaded lines before after =
    (after.bind_host ≡ or_before before.bind_host (last_value (text "bind_host") lines))
    × (after.password ≡ or_before before.password (last_value (text "password") lines))
    × HasPort before.port (last_value (text "port") lines) after.port

-- The three keys are different.
keys_apart :
    (key : Bytes)
    → (same_text key (text "bind_host") ≡ true
        → (same_text key (text "port") ≡ false) × (same_text key (text "password") ≡ false))
      × (same_text key (text "port") ≡ true → same_text key (text "password") ≡ false)
unfolding same_text text
keys_apart key = (
  λ e. rw ((same_text_iff key (text "bind_host")).0 e) (refl, refl),
  λ e. rw ((same_text_iff key (text "port")).0 e) refl,
)

pick : Bytes → Bytes → Bytes → Option Bytes
pick key name value = if same_text key name then some value else none

set_key-HasKeys :
    (key value : Bytes) (before after : Config)
    → set_key key value before ≡ some after
    → (after.bind_host ≡ or_before before.bind_host (pick key (text "bind_host") value))
      × (after.password ≡ or_before before.password (pick key (text "password") value))
      × HasPort before.port (pick key (text "port") value) after.port
unfolding set_key pick
set_key-HasKeys key value before after e = elim (Bool-cases (same_text key (text "bind_host"))) [
  | inl host ↦
      let (no_port, no_password) = (keys_apart key).0 host in
      let same : record before { bind_host = value } ≡ after = cc (rw host at e) in
      rw (host, no_port, no_password, ← same) (refl, refl, refl)
  | inr no_host ↦ elim (Bool-cases (same_text key (text "port"))) [
    | inl is_port ↦
        let no_password = (keys_apart key).1 is_port in
        elim (Option-cases (stoi_port value)) [
          | inl bad ↦ cc (rw (no_host, is_port, bad) at e)
          | inr (port, good) ↦
              let same : record before { port = port } ≡ after =
                cc (rw (no_host, is_port, good) at e) in
              rw (no_host, is_port, no_password, ← same) (refl, refl, good)
        ]
    | inr no_port ↦ elim (Bool-cases (same_text key (text "password"))) [
      | inl pass ↦
          let same : record before { password = value } ≡ after =
            cc (rw (no_host, no_port, pass) at e) in
          rw (no_host, no_port, pass, ← same) (refl, refl, refl)
      | inr no_pass ↦
          let same : before ≡ after = cc (rw (no_host, no_port, no_pass) at e) in
          rw (no_host, no_port, no_pass, ← same) (refl, refl, refl)
    ]
  ]
]

load_line-IsLoaded :
    (line : Bytes) (before after : Config)
    → load_line line before ≡ some after
    → IsLoaded (line ∷ []) before after
unfolding load_line last_value pick
load_line-IsLoaded line before after e = elim (Option-cases (assignment line)) [
  | inl nothing ↦
      let same : before ≡ after = cc (rw (nothing, load_line) at e) in
      rw (nothing, last_value, ← same) (refl, refl, refl)
  | inr ((key, value), assigned) ↦
      rw (assigned, last_value)
        (set_key-HasKeys key value before after (rw (assigned, load_line) at e))
]

IsLoaded-cons :
    (line : Bytes) (lines : List Bytes) (before mid after : Config)
    → IsLoaded (line ∷ []) before mid
    → IsLoaded lines mid after
    → IsLoaded (line ∷ lines) before after
unfolding last_value
IsLoaded-cons line lines before mid after (host, password, port) (host', password', port') = (
  elim (Option-cases (last_value (text "bind_host") lines)) [
    | inl e ↦ rw (e, last_value) ((rw e at host') ∙ host)
    | inr (v, e) ↦ rw (e, last_value) (rw e at host')
  ],
  elim (Option-cases (last_value (text "password") lines)) [
    | inl e ↦ rw (e, last_value) ((rw e at password') ∙ password)
    | inr (v, e) ↦ rw (e, last_value) (rw e at password')
  ],
  elim (Option-cases (last_value (text "port") lines)) [
    | inl e ↦
        rw (e, last_value)
          (subst (λ p. HasPort before.port (last_value (text "port") (line ∷ [])) p)
            (sym (rw e at port')) port)
    | inr (v, e) ↦ rw (e, last_value) (rw e at port')
  ],
)

load_lines-IsLoaded :
    (lines : List Bytes) (before after : Config)
    → load_lines lines before ≡ some after
    → IsLoaded lines before after
unfolding load_lines last_value Option.bind
load_lines-IsLoaded [] before after e =
    let same : before ≡ after = cc in rw (← same) (refl, refl, refl)
load_lines-IsLoaded (line ∷ lines) before after e = elim (Option-cases (load_line line before)) [
  | inl threw ↦ cc (rw threw at e)
  | inr (mid, one) ↦
      IsLoaded-cons line lines before mid after (load_line-IsLoaded line before mid one)
        (load_lines-IsLoaded lines mid after (rw one at e))
]

-- Where loading a file throws nothing: each of the host and the password is the value of the last
-- line that assigns it, and the port is the number of the last that assigns it; a setting that no
-- line assigns keeps its default.
pub load_config-IsLoaded :
    (content : Bytes) (config : Config)
    → load_config (some content) ≡ some config
    → IsLoaded (lines_of content) default_config config
unfolding load_config
load_config-IsLoaded content config e =
    load_lines-IsLoaded (lines_of content) default_config config e
