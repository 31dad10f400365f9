-- ===== src/Mod/Capture.antt =====
-- The flags that the commands switch.
use open_scum_rcon.Base.{
  starts_with, ℕ, ◌≡◌, refl, ◌⊎◌, Bool, true, false, ◌||◌, List, [], ◌∷◌, arith, Bytes, text,
  same_text, same_text_iff,
}
use open_scum_rcon.Authority.{CommandAuthority, is_rcon_authorized}
use open_scum_rcon.Mod.{
  Call, trace_start, trace_stop, trace_status, dump_admin_command_permission_levels,
  dump_test_process_admin_command_address, dump_player_rpc_channel_info,
  dump_chat_server_function_flags, call_context_resolver_and_dump, call_executor_resolver_and_dump,
  dump_setgodmode_field, returned, Game, Flags, calls, replies, dispatches, run_switch, run_command,
  caught, respond,
}

any_of : Bytes → List Bytes → Bool
any_of command_text [] = false
any_of command_text (name ∷ names) = same_text command_text name || any_of command_text names

-- The commands of the module itself.
pub is_diagnostic : Bytes → Bool
unfolding any_of
is_diagnostic command_text =
    starts_with (text "!try_native_setgodmode ") command_text
    || any_of command_text (
        text "!godmode_trace_start"
        ∷ text "!godmode_trace_stop"
        ∷ text "!godmode_trace_status"
        ∷ text "!dump_admin_permissions"
        ∷ text "!dump_func_address"
        ∷ text "!dump_rpc_channel"
        ∷ text "!dump_chat_flags"
        ∷ text "!capture_start"
        ∷ text "!capture_stop"
        ∷ text "!native_capture_start"
        ∷ text "!native_capture_stop"
        ∷ text "!call_context_resolver"
        ∷ text "!capture_registration_start"
        ∷ text "!capture_registration_stop"
        ∷ text "!call_executor_resolver"
        ∷ text "!dump_setgodmode_field"
        ∷ [])

module _ (game : Game) (command_text : Bytes) (flags : Flags) (world : game.World) where
  -- Whether nested calls are captured behind the command.
  abbrev pub captures : ℕ → Bool
  captures response =
      (respond game
        (record {
          command_text = command_text;
          response = response;
          authority = CommandAuthority.authenticated_rcon;
        })
        flags world).1.capturing_calls

  respond-captures :
      (response : ℕ)
      → captures response ≡ true
      → (command_text ≡ text "!capture_start")
        ⊎ ((flags.capturing_calls ≡ true) × (is_diagnostic command_text ≡ true))
  unfolding respond is_rcon_authorized caught run_command run_switch calls replies dispatches
      is_diagnostic
  respond-captures response h =
      ground (arith, (same_text_iff command_text (text "!capture_start")).0)

  capture_start-captures :
      (response : ℕ) → command_text ≡ text "!capture_start" → captures response ≡ true
  unfolding respond is_rcon_authorized caught run_command run_switch calls replies text same_text
  capture_start-captures response e = rw e refl

  capture_stop-captures :
      (response : ℕ) → command_text ≡ text "!capture_stop" → captures response ≡ false
  unfolding respond is_rcon_authorized caught run_command run_switch calls replies text same_text
  capture_stop-captures response e = rw e refl

  -- Every function that a command calls returns.
  abbrev pub IsQuiet : Type 0
  IsQuiet = (c : Call) (w : game.World) → (reply : Bytes) × ((game.call c w).0 ≡ returned reply)

  keeps-captures :
      (response : ℕ)
      → IsQuiet
      → is_diagnostic command_text ≡ true
      → same_text command_text (text "!capture_stop") ≡ false
      → flags.capturing_calls ≡ true
      → captures response ≡ true
  unfolding respond is_rcon_authorized caught run_command run_switch calls replies dispatches
      is_diagnostic
  keeps-captures response quiet own no_stop on = ground (
    arith,
    (quiet trace_start world).1,
    (quiet trace_stop world).1,
    (quiet trace_status world).1,
    (quiet dump_admin_command_permission_levels world).1,
    (quiet dump_test_process_admin_command_address world).1,
    (quiet dump_player_rpc_channel_info world).1,
    (quiet dump_chat_server_function_flags world).1,
    (quiet call_context_resolver_and_dump world).1,
    (quiet call_executor_resolver_and_dump world).1,
    (quiet dump_setgodmode_field world).1,
  )

  -- The capture of nested calls behind a command: `!capture_start` switches it on and `!capture_stop`
  -- off, also where it was so. Behind every command that goes to the dispatcher it is off, also
  -- where it was switched on by hand and where the dispatcher throws. The other commands of the
  -- module leave it off where it was off, and on where it was on if every function that a command
  -- calls returns.
  pub respond-capturing_calls :
      (response : ℕ)
      → (captures response ≡ true
          → (command_text ≡ text "!capture_start")
            ⊎ ((flags.capturing_calls ≡ true) × (is_diagnostic command_text ≡ true)))
        × (command_text ≡ text "!capture_start" → captures response ≡ true)
        × (command_text ≡ text "!capture_stop" → captures response ≡ false)
        × (IsQuiet
            → is_diagnostic command_text ≡ true
            → same_text command_text (text "!capture_stop") ≡ false
            → flags.capturing_calls ≡ true
            → captures response ≡ true)
  respond-capturing_calls response = (
    respond-captures response,
    capture_start-captures response,
    capture_stop-captures response,
    keeps-captures response,
  )
