-- ===== src/Response/Nesting.antt =====
-- Messages of several commands while scopes are nested: each goes to its own scope or to nobody.
use open_scum_rcon.Base.{
  ℕ, ◌≡◌, refl, ap, ◌≢◌, inl, inr, Bool, true, false, List, [], ◌∷◌, arith, Bytes, ◌==◌,
  if◌then◌else◌, Bool-cases,
}
use open_scum_rcon.Response.{
  ResponseScope, Scopes, fresh, enter, leave, append_prefix, collect, accept,
}
use open_scum_rcon.Response.Collect.{collect_cases}
use open_scum_rcon.Response.Replies.{collect_all}

-- A message that some command sends.
pub record Message : Type 0 where
  pub command : ℕ
  pub content : Bytes

-- The messages in turn; those that no scope takes are returned.
unfoldable pub accept_all : (ℕ → Bool) → List Message → Scopes → List Message × Scopes
accept_all can_hold [] current = ([], current)
accept_all can_hold (m ∷ messages) current =
    let (taken, current') = accept can_hold m.command m.content current in
    let (foreign, current'') = accept_all can_hold messages current' in
    (if taken then foreign else m ∷ foreign, current'')

abbrev pub own : ℕ → List Message → List Bytes
own key [] = []
own key (m ∷ messages) = if m.command == key then m.content ∷ own key messages else own key messages

abbrev pub foreign : ℕ → List Message → List Message
foreign key [] = []
foreign key (m ∷ messages) =
    if m.command == key then foreign key messages else m ∷ foreign key messages

collect-command :
    (can_hold : ℕ → Bool) (message : Bytes) (scope : ResponseScope)
    → (collect can_hold message scope).command ≡ scope.command
unfolding append_prefix
collect-command can_hold message scope =
    collect_cases can_hold message (λ r. r.command ≡ scope.command) scope (λ _. refl) (λ _. refl)
      (λ _ _ _. ground arith) (λ _ _. ground arith)

accept_own :
    (can_hold : ℕ → Bool) (key : ℕ) (message : Bytes) (scope : ResponseScope) (current : Scopes)
    → scope.command ≢ 0
    → (key == scope.command) ≡ true
    → accept can_hold key message (scope ∷ current)
      ≡ (true, collect can_hold message scope ∷ current)
unfolding accept
accept_own can_hold key message scope current h e = ground arith

accept_foreign :
    (can_hold : ℕ → Bool) (key : ℕ) (message : Bytes) (scope : ResponseScope) (current : Scopes)
    → (key == scope.command) ≡ false
    → accept can_hold key message (scope ∷ current) ≡ (false, scope ∷ current)
unfolding accept
accept_foreign can_hold key message scope current e = ground arith

accept_all-own :
    (can_hold : ℕ → Bool) (messages : List Message) (scope : ResponseScope) (current : Scopes)
    → scope.command ≢ 0
    → accept_all can_hold messages (scope ∷ current) ≡ (
      foreign scope.command messages,
      collect_all can_hold (own scope.command messages) scope ∷ current,
    )
unfolding accept_all collect_all
accept_all-own can_hold [] scope current h = refl
accept_all-own can_hold (m ∷ messages) scope current h =
    elim (Bool-cases (m.command == scope.command)) [
      | inl e ↦
          let next : ResponseScope = collect can_hold m.content scope in
          let same : next.command ≡ scope.command = collect-command can_hold m.content scope in
          rw (e, accept_own can_hold m.command m.content scope current h e)
            (rw (accept_all-own can_hold messages next current (rw same h)) (
              ap (λ c. (foreign c messages, collect_all can_hold (own c messages) next ∷ current))
                same))
      | inr e ↦
          rw (e, accept_foreign can_hold m.command m.content scope current e)
            (rw (accept_all-own can_hold messages scope current h))
    ]

-- While the scope of a command is the innermost, exactly the messages of that command go to it, in
-- order; all others are passed on; and leaving it restores the scopes around it as they were.
pub leave-accept_all :
    (can_hold : ℕ → Bool) (key : ℕ) (messages : List Message) (current : Scopes)
    → key ≢ 0
    → (accept_all can_hold messages (enter key current)
        ≡ (foreign key messages, collect_all can_hold (own key messages) (fresh key) ∷ current))
      × (leave (accept_all can_hold messages (enter key current)).1 ≡ current)
unfolding enter leave
leave-accept_all can_hold key messages current h =
    let e = accept_all-own can_hold messages (fresh key) current h in (e, rw e)
