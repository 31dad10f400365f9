-- ===== src/Registry/Effect.antt =====
-- What a dispatched request may do to the game.
use open_scum_rcon.Base.{
  ℕ, ◌≡◌, refl, ◌⊎◌, inl, inr, Bool, true, false, not, ◌&&◌, ◌||◌, Option, none, some, List, [],
  ◌∷◌, arith, Bytes, Result, ok, Result-cases, ◌==◌, Bool-cases, if-elim,
}
use open_scum_rcon.Authority.{CommandAuthority, is_rcon_authorized}
use open_scum_rcon.LiveQuery.{Numbers}
use open_scum_rcon.Request.{
  lower_ascii, DispatchAction, players, execute, DispatchRequest, parse_dispatch_request,
}
use open_scum_rcon.Registry.Engine.{Engine, State}
use open_scum_rcon.Registry.Players.{Player, connected_players, list_some, list_players}
use open_scum_rcon.Registry.Commands.{Command}
use open_scum_rcon.Registry.Commands
use open_scum_rcon.Registry.Lookup.{find_command_cases}
use open_scum_rcon.Registry.Execute.{
  find_command, after_search, when_trusted, disabled, execute_request, perform, dispatch,
}
use open_scum_rcon.Registry.Running.{Effect, only_read, created, ran, untouched, run_command-Effect}

module _ {World Double : Type 0} (engine : Engine World Double) where
  found-Effect :
      (can_hold : ℕ → Bool) (request : DispatchRequest) (s : State World) (entries : List Command)
      (found : Bytes ⊎ Option Command)
      → request.action ≡ execute
      → s.native_faulted ≡ false
      → (engine.supported_build s.world && engine.capture_ready s.world) ≡ true
      → Commands.commands engine s.world ≡ ok entries
      → find_command (lower_ascii request.verb) entries none ≡ found
      → Effect engine request s (after_search engine can_hold request found s).1
  unfolding after_search
  found-Effect can_hold request s entries (inl refusal) asked trusted supported listed e =
      untouched engine request s
  found-Effect can_hold request s entries (inr none) asked trusted supported listed e =
      untouched engine request s
  found-Effect can_hold request s entries (inr (some c)) asked trusted supported listed e =
      run_command-Effect engine can_hold request c s entries asked trusted supported listed
        ((find_command_cases (lower_ascii request.verb) entries none (some c) e).1 c refl refl)

  when_trusted-Effect :
      (can_hold : ℕ → Bool) (request : DispatchRequest) (s : State World)
      → request.action ≡ execute
      → s.native_faulted ≡ false
      → Effect engine request s (when_trusted engine can_hold request s).1
  unfolding when_trusted
  when_trusted-Effect can_hold request s asked trusted =
      elim (Bool-cases
        (not (engine.supported_build s.world) || not (engine.capture_ready s.world))) [
          | inl off ↦ rw off (untouched engine request s)
          | inr on ↦ elim (Result-cases (Commands.commands engine s.world)) [
            | inl (why, threw) ↦ rw (on, threw, when_trusted) (untouched engine request s)
            | inr (entries, listed) ↦
                rw (on, listed, when_trusted)
                  (found-Effect can_hold request s entries
                    (find_command (lower_ascii request.verb) entries none) asked trusted
                    (ground arith) listed refl)
          ]
        ]

  execute_request-Effect :
      (can_hold : ℕ → Bool) (request : DispatchRequest) (s : State World)
      → request.action ≡ execute
      → Effect engine request s (execute_request engine can_hold request s).1
  unfolding execute_request
  execute_request-Effect can_hold request s asked =
      if-elim (λ (r : Result Bytes × State World). Effect engine request s r.1) s.native_faulted
        (ok disabled, s) (when_trusted engine can_hold request s)
        (λ faulted. untouched engine request s) (when_trusted-Effect can_hold request s asked)

  module _ (numbers : Numbers Double) (zeroed : Double) where
    list_some-Effect :
        (request : DispatchRequest) (online : List Player) (s : State World)
        → Effect engine request s (list_some engine numbers online s).1
    unfolding list_some
    list_some-Effect request [] s = untouched engine request s
    list_some-Effect request (p ∷ online) s =
        let fn =
          engine.find_function s.world "/Script/SCUM.ConZPlayerController:GetUserProfileName" in
        let prisoner = engine.find_class s.world "/Script/SCUM.Prisoner" in
        elim (Bool-cases (fn == 0 || not (engine.params_size s.world fn == 16) || prisoner == 0)) [
          | inl missing ↦ rw missing (untouched engine request s)
          | inr there ↦ rw there (only_read _)
        ]

    list_players-Effect :
        (request : DispatchRequest) (s : State World)
        → Effect engine request s (list_players engine numbers s).1
    unfolding list_players
    list_players-Effect request s = elim (Result-cases (connected_players engine s.world)) [
      | inl (why, threw) ↦ rw (threw, list_players) (untouched engine request s)
      | inr (online, found) ↦ rw (found, list_players) (list_some-Effect request online s)
    ]

    perform-Effect :
        (can_hold : ℕ → Bool) (request : DispatchRequest) (action : DispatchAction)
        (s : State World)
        → request.action ≡ action
        → Effect engine request s (perform engine numbers zeroed can_hold action request s).1
    unfolding perform
    perform-Effect can_hold request players s e = list_players-Effect request s
    perform-Effect can_hold request execute s e = execute_request-Effect can_hold request s e
    perform-Effect can_hold request _ s e = untouched engine request s

    -- A dispatched request changes the game in no other way than these: for an execute request, while
    -- no native call has raised an exception, on a supported build with the hook of the replies,
    -- it makes one object, of the class of the only command in the registry with the name asked for,
    -- which must be callable with this number of arguments, for the controller of a connected
    -- player that has the SteamID asked for and a live pawn; and it may call this command's
    -- handler once, on this object after it was validated, with the arguments. An exception in this
    -- call sets the latch. Without the authority of an authenticated connection nothing changes.
    pub registry_dispatch-Effect :
        (can_hold : ℕ → Bool) (input : Bytes) (authority : CommandAuthority) (s : State World)
        → Effect engine
            (parse_dispatch_request input)
            s
            (dispatch engine numbers zeroed can_hold input authority s).1
          × (is_rcon_authorized authority ≡ false
              → (dispatch engine numbers zeroed can_hold input authority s).1 ≡ s)
    unfolding dispatch
    registry_dispatch-Effect can_hold input authority s =
        let request = parse_dispatch_request input in
        elim (Bool-cases (is_rcon_authorized authority)) [
          | inr refused ↦ rw refused (untouched engine request s, λ _. refl)
          | inl fine ↦ rw fine (perform-Effect can_hold request request.action s refl, λ e. cc)
        ]

    -- Once the latch is set, it stays set and the game is left alone.
    pub Effect-latched :
        (request : DispatchRequest) (s s' : State World)
        → Effect engine request s s'
        → s.native_faulted ≡ true
        → (s'.native_faulted ≡ true) × (s'.world ≡ s.world)
    Effect-latched request s _ (only_read faulted) e = (e, refl)
    Effect-latched request s _ (created c p allowed) e = cc (allowed.trusted, e)
    Effect-latched request s _ (ran c p strings allowed widened sound) e = cc (allowed.trusted, e)
