-- ===== src/Registry/Execute.antt =====
-- native_module/src/registry_dispatch.cpp, `execute` and `dispatch`: the native commands.
use open_scum_rcon.Base.{
  ℕ, ◌-◌, ◌%◌, ◌⊎◌, inl, inr, Bool, true, false, not, ◌&&◌, ◌||◌, Option, none, some, List, [], ◌∷◌,
  ◌++◌, Bytes, text, same_text, signed_decimal, Result, ok, err, ◌>>=◌, ◌==◌, if◌then◌else◌, length,
}
use open_scum_rcon.Authority.{CommandAuthority, is_rcon_authorized}
use open_scum_rcon.LiveQuery.{Numbers}
use open_scum_rcon.Request.{
  lower_ascii, DispatchAction, unknown, invalid, players, commands, execute, weather, time_of_day,
  DispatchRequest, parse_dispatch_request,
}
use open_scum_rcon.Response.{ResponseScope, fresh}
use open_scum_rcon.Response.Replies.{collect_all}
use open_scum_rcon.Registry.Engine.{Engine, State, int_lt, live, object_property, wide, slot}
use open_scum_rcon.Registry.Players.{Player, connected_players, list_players}
use open_scum_rcon.Registry.Commands.{Command, catalogue}
use open_scum_rcon.Registry.Commands
use open_scum_rcon.Registry.Weather

-- The commands of a name, in lower case.
unfoldable pub named : Bytes → List Command → List Command
named wanted [] = []
named wanted (c ∷ entries) =
    let more = named wanted entries in
    if same_text (lower_ascii c.verb) wanted then c ∷ more else more

-- The loop that looks for the command: it ends at a second one.
unfoldable pub find_command : Bytes → List Command → Option Command → Bytes ⊎ Option Command
find_command wanted [] found = inr found
find_command wanted (c ∷ entries) found =
    let first = find_command wanted entries (some c) in
    let other = find_command wanted entries found in
    if not (same_text (lower_ascii c.verb) wanted) then other else elim found [
      | none ↦ first
      | some earlier ↦ inl (text "error: ambiguous registered command")
    ]

-- The test of the number of arguments. A command that is supported declares at least 0 of them.
unfoldable pub count_refused : ℕ → Command → Bool
count_refused count c =
    int_lt count c.required
    || (c.repeating == 0 && int_lt c.declared count)
    || (not (c.repeating == 0)
        && (int_lt c.declared count && not ((count - c.declared) % c.repeating == 0)))

-- The loop over the players: the controller of the last with the SteamID, or null.
unfoldable pub controller_of : Bytes → List Player → ℕ → ℕ
controller_of steam_id [] controller = controller
controller_of steam_id (p ∷ online) controller =
    controller_of steam_id online (if same_text p.id steam_id then p.controller else controller)

-- From the call on, with what the scope captured.
unfoldable pub reply_of : Bool → ResponseScope → Bytes
reply_of result scope =
    let first = if not result then text "error: native command returned false" else [] in
    let second =
      first
      ++ (if length scope.output == 0
          then []
          else (if length first == 0 then [] else b'\n' ∷ []) ++ scope.output) in
    let reply =
      second
      ++ (if scope.failed
          then text
              "\nerror: command completed but reply capture failed; do not retry without checking state"
          else [])
      ++ (if scope.cut then text "\n[response truncated]" else []) in
    if length reply == 0
    then text "ok: native command returned true; no synchronous SCUM response"
    else reply

abbrev pub disabled : Bytes
disabled = text "error: native dispatch disabled after an exception; restart required"

module _ {World Double : Type 0} (engine : Engine World Double) where
  -- The arguments as wide strings.
  unfoldable pub wide_all : List Bytes → Result (List (List ℕ))
  wide_all [] = ok []
  wide_all (arg ∷ arguments) =
      wide engine arg >>= λ units. wide_all arguments >>= λ more. ok (units ∷ more)

  unfoldable pub is_instance_sound : World → ℕ → Command → ℕ → Bool
  is_instance_sound w made c controller =
      live engine w made
      && engine.class_of w made == c.class_of
      && engine.outer_of w made == controller
      && slot engine w made 0x288 == slot engine w c.default_object 0x288
      && slot engine w made 0x290 == engine.capture_function w

  -- From the making of the object on.
  unfoldable pub run :
      (ℕ → Bool) → Command → ℕ → List (List ℕ) → State World → Result Bytes × State World
  run can_hold c controller strings s =
      let (made, w) = engine.new_object s.world controller c.class_of in
      if not (is_instance_sound w made c controller)
      then (ok (text "error: native command instance validation failed"), record s { world = w })
      else (let (result, replies, w') = engine.invoke w (slot engine w made 0x288) made strings in
          elim result [
            | none ↦ (
              ok (
                  text
                    "error: native command raised an exception; execution status unknown; dispatch disabled until restart"),
              record s { native_faulted = true; world = w' },
            )
            | some result ↦ (
              ok (reply_of result (collect_all can_hold replies (fresh made))),
              record s { world = w' },
            )
          ])

  -- The tests of the controller, and the conversion of the arguments.
  unfoldable pub run_for :
      (ℕ → Bool) → DispatchRequest → Command → ℕ → State World → Result Bytes × State World
  run_for can_hold request c controller s =
      let prisoner = engine.find_class s.world "/Script/SCUM.Prisoner" in
      let pawn = object_property engine s.world controller "Pawn" in
      let executor = engine.find_class s.world "/Script/SCUM.AdminCommandExecutor" in
      if controller == 0
      then (ok (text "error: target SteamID is not connected"), s)
      else if prisoner == 0
          || not (live engine s.world pawn)
          || not (engine.is_a s.world pawn prisoner)
      then (ok (text "error: target has no live Prisoner pawn"), s)
      else if executor == 0 || not (engine.implements s.world controller executor)
      then (ok (text "error: target does not implement AdminCommandExecutor"), s)
      else elim (wide_all request.arguments) [
        | err why ↦ (err why, s)
        | ok strings ↦ run can_hold c controller strings s
      ]

  -- With the command.
  unfoldable pub run_command :
      (ℕ → Bool) → DispatchRequest → Command → State World → Result Bytes × State World
  run_command can_hold request c s =
      if not (length c.unsupported == 0)
      then (ok (text "error: command unavailable: " ++ c.unsupported), s)
      else if count_refused (length request.arguments) c
      then (
        ok (
            text "error: argument count mismatch; required="
            ++ signed_decimal 32 c.required
            ++ text " declared="
            ++ signed_decimal 32 c.declared
            ++ text " repeating="
            ++ signed_decimal 32 c.repeating),
        s,
      )
      else elim (connected_players engine s.world) [
        | err why ↦ (err why, s)
        | ok online ↦ run_for can_hold request c (controller_of request.steam_id online 0) s
      ]

  -- Behind the loop that looks for the command.
  unfoldable pub after_search :
      (ℕ → Bool)
      → DispatchRequest
      → Bytes ⊎ Option Command
      → State World
      → Result Bytes × State World
  after_search can_hold request (inl refusal) s = (ok refusal, s)
  after_search can_hold request (inr none) s =
      (ok (text "error: command not found in SCUM registry; use !commands"), s)
  after_search can_hold request (inr (some c)) s = run_command can_hold request c s

  -- Behind the test of the latch.
  unfoldable pub when_trusted :
      (ℕ → Bool) → DispatchRequest → State World → Result Bytes × State World
  when_trusted can_hold request s =
      if not (engine.supported_build s.world) || not (engine.capture_ready s.world)
      then (
        ok (
            text
              "error: native dispatcher disabled: unsupported build or response hook unavailable"),
        s,
      )
      else elim (Commands.commands engine s.world) [
        | err why ↦ (err why, s)
        | ok entries ↦
            after_search can_hold request (find_command (lower_ascii request.verb) entries none) s
      ]

  unfoldable pub execute_request :
      (ℕ → Bool) → DispatchRequest → State World → Result Bytes × State World
  execute_request can_hold request s =
      if s.native_faulted then (ok disabled, s) else when_trusted can_hold request s

  module _ (numbers : Numbers Double) (zeroed : Double) where
    -- The `switch`.
    unfoldable pub perform :
        (ℕ → Bool) → DispatchAction → DispatchRequest → State World → Result Bytes × State World
    perform can_hold invalid request s = (ok (text "error: " ++ request.error), s)
    perform can_hold players request s = list_players engine numbers s
    perform can_hold weather request s = (Weather.weather engine numbers zeroed s.world false, s)
    perform can_hold time_of_day request s = (Weather.weather engine numbers zeroed s.world true, s)
    perform can_hold commands request s = (catalogue engine s.world request.filter, s)
    perform can_hold execute request s = execute_request can_hold request s
    perform can_hold unknown request s = (
      ok (
          text
            "error: unsupported command; use ListPlayers, GetWeather, GetTimeOfDay, !commands, or !exec <SteamID> <command> [arguments]"),
      s,
    )

    unfoldable pub dispatch :
        (ℕ → Bool) → Bytes → CommandAuthority → State World → Result Bytes × State World
    dispatch can_hold input authority s =
        if not (is_rcon_authorized authority)
        then (ok (text "error: authenticated RCON connection required"), s)
        else (let request = parse_dispatch_request input in
            perform can_hold request.action request s)
