-- ===== src/Registry/Running.antt =====
-- What the run of one command does to the game, and when it comes to that.
use open_scum_rcon.Base.{
  ℕ, ◌≡◌, inl, inr, Bool, true, false, not, ◌&&◌, ◌||◌, Option, none, some, List, [], ◌∷◌, ◌++◌,
  arith, Bytes, ok, Result-cases, ◌==◌, Bool-cases, Option-cases, length,
}
use open_scum_rcon.Request.{lower_ascii, execute, DispatchRequest}
use open_scum_rcon.Registry.Engine.{Engine, State, slot, live, object_property}
use open_scum_rcon.Registry.Players.{Player, connected_players}
use open_scum_rcon.Registry.Commands.{Command}
use open_scum_rcon.Registry.Commands
use open_scum_rcon.Registry.Lookup.{controller_of_player, no_length}
use open_scum_rcon.Registry.Execute.{
  named, count_refused, wide_all, is_instance_sound, run, run_for, run_command,
}

module _ {World Double : Type 0} (engine : Engine World Double) where
  -- What holds where a native command is made for a player.
  pub record IsAllowed (request : DispatchRequest) (s : State World) (c : Command) (p : Player)
      : Type 0 where
    pub asked : request.action ≡ execute
    pub trusted : s.native_faulted ≡ false
    pub supported : (engine.supported_build s.world && engine.capture_ready s.world) ≡ true
    pub entries : List Command
    pub listed : Commands.commands engine s.world ≡ ok entries
    pub only : named (lower_ascii request.verb) entries ≡ c ∷ []
    pub callable : c.unsupported ≡ []
    pub counted : count_refused (length request.arguments) c ≡ false
    pub online : List Player
    pub connected : connected_players engine s.world ≡ ok online
    pub before : List Player
    pub after : List Player
    pub is_one : online ≡ before ++ p ∷ after
    pub is_target : p.id ≡ request.steam_id
    pub is_alive : live engine s.world (object_property engine s.world p.controller "Pawn") ≡ true

  abbrev made : State World → Command → Player → ℕ × World
  made s c p = engine.new_object s.world p.controller c.class_of

  abbrev invoked : State World → Command → Player → List (List ℕ) → Option Bool × List Bytes × World
  invoked s c p strings =
      let (object, w) = made s c p in engine.invoke w (slot engine w object 0x288) object strings

  abbrev is_exception : Option Bool → Bool
  is_exception none = true
  is_exception (some result) = false

  pub data Effect (request : DispatchRequest) (s : State World) : State World → Type 0 where
    only_read : (faulted : Bool) → Effect request s (record s { address_faulted = faulted })
    created :
        (c : Command) (p : Player)
        → IsAllowed request s c p
        → Effect request s (record s { world = (made s c p).1 })
    ran :
        (c : Command) (p : Player) (strings : List (List ℕ))
        → IsAllowed request s c p
        → wide_all engine request.arguments ≡ ok strings
        → is_instance_sound engine (made s c p).1 (made s c p).0 c p.controller ≡ true
        → Effect request s (record {
          native_faulted = is_exception (invoked s c p strings).0;
          address_faulted = s.address_faulted;
          world = (invoked s c p strings).2;
        })

  pub untouched : (request : DispatchRequest) (s : State World) → Effect request s s
  untouched request s = only_read s.address_faulted

  run-Effect :
      (can_hold : ℕ → Bool) (request : DispatchRequest) (c : Command) (p : Player)
      (strings : List (List ℕ)) (s : State World)
      → IsAllowed request s c p
      → wide_all engine request.arguments ≡ ok strings
      → Effect request s (run engine can_hold c p.controller strings s).1
  unfolding run
  run-Effect can_hold request c p strings s allowed widened =
      let (object, w) = made s c p in
      elim (Bool-cases (is_instance_sound engine w object c p.controller)) [
        | inr unsound ↦ rw unsound (created c p allowed)
        | inl sound ↦
            let result = ran c p strings allowed widened sound in
            elim (Option-cases (invoked s c p strings).0) [
              | inl threw ↦ rw (sound, threw, run) (rw threw at result)
              | inr (returned, came) ↦
                  rw (sound, came, run) (rw (came, ← allowed.trusted) at result)
            ]
      ]

  run_for-Effect :
      (can_hold : ℕ → Bool) (request : DispatchRequest) (c : Command) (p : Player) (s : State World)
      → (live engine s.world (object_property engine s.world p.controller "Pawn") ≡ true
          → IsAllowed request s c p)
      → Effect request s (run_for engine can_hold request c p.controller s).1
  unfolding run_for
  run_for-Effect can_hold request c p s allow =
      let prisoner = engine.find_class s.world "/Script/SCUM.Prisoner" in
      let pawn = object_property engine s.world p.controller "Pawn" in
      let executor = engine.find_class s.world "/Script/SCUM.AdminCommandExecutor" in
      elim (Bool-cases (p.controller == 0)) [
        | inl null ↦ rw null (untouched request s)
        | inr there ↦
            elim (Bool-cases (
              prisoner == 0
              || not (live engine s.world pawn)
              || not (engine.is_a s.world pawn prisoner))) [
                | inl dead ↦ rw (there, dead) (untouched request s)
                | inr alive ↦
                    elim (Bool-cases
                      (executor == 0 || not (engine.implements s.world p.controller executor))) [
                        | inl lacks ↦ rw (there, alive, lacks) (untouched request s)
                        | inr executes ↦ elim (Result-cases (wide_all engine request.arguments)) [
                          | inl (why, odd) ↦
                              rw (there, alive, executes, odd, run_for) (untouched request s)
                          | inr (strings, widened) ↦
                              rw (there, alive, executes, widened, run_for)
                                (run-Effect can_hold request c p strings s (allow (ground arith))
                                  widened)
                        ]
                      ]
              ]
      ]

  no_controller :
      (can_hold : ℕ → Bool) (request : DispatchRequest) (c : Command) (s : State World)
      → Effect request s (run_for engine can_hold request c 0 s).1
  unfolding run_for
  no_controller can_hold request c s = untouched request s

  pub run_command-Effect :
      (can_hold : ℕ → Bool) (request : DispatchRequest) (c : Command) (s : State World)
      (entries : List Command)
      → request.action ≡ execute
      → s.native_faulted ≡ false
      → (engine.supported_build s.world && engine.capture_ready s.world) ≡ true
      → Commands.commands engine s.world ≡ ok entries
      → named (lower_ascii request.verb) entries ≡ c ∷ []
      → Effect request s (run_command engine can_hold request c s).1
  unfolding run_command
  run_command-Effect can_hold request c s entries asked trusted supported listed only =
      elim (Bool-cases (length c.unsupported == 0)) [
        | inr barred ↦ rw barred (untouched request s)
        | inl callable ↦ elim (Bool-cases (count_refused (length request.arguments) c)) [
          | inl miscounted ↦ rw (callable, miscounted) (untouched request s)
          | inr counted ↦ elim (Result-cases (connected_players engine s.world)) [
            | inl (why, threw) ↦ rw (callable, counted, threw, run_command) (untouched request s)
            | inr (online, connected) ↦
                rw (callable, counted, connected, run_command)
                  (elim (controller_of_player request.steam_id online 0) [
                    | inl nobody ↦ rw nobody (no_controller can_hold request c s)
                    | inr (p, before, after, is_one, is_target, e) ↦ rw e (
                        run_for-Effect can_hold request c p s (λ is_alive. record {
                          asked = asked;
                          trusted = trusted;
                          supported = supported;
                          entries = entries;
                          listed = listed;
                          only = only;
                          callable = no_length c.unsupported callable;
                          counted = counted;
                          online = online;
                          connected = connected;
                          before = before;
                          after = after;
                          is_one = is_one;
                          is_target = is_target;
                          is_alive = is_alive;
                        }))
                  ])
          ]
        ]
      ]
