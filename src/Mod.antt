-- ===== src/Mod.antt =====
-- native_module/src/dllmain.cpp, `drain_and_dispatch`: the game thread answers the commands.
-- What a command calls is a parameter: `call` gives the reply, or the exception, of the function
-- named, and the state of the game and of the hooks behind it. Truncating a log is left out.
pub mod Capture
pub mod Order
use open_scum_rcon.Base.{
  ℕ, zero, suc, ◌+◌, ◌-◌, ◌*◌, ◌/◌, ◌%◌, ◌^◌, ◌≤◌, ◌<◌, min, ◌≡◌, refl, sym, ap, ◌∙◌, subst, ◌≢◌,
  ◌↔◌, ◌⊎◌, inl, inr, Bool, true, false, not, ◌&&◌, ◌||◌, Option, none, some, List, [], ◌∷◌, ◌++◌,
  map, append-nil, append_assoc, arith, Bytes, IsBytes, text, same_text, same_text_iff, any_byte,
  starts_with, all_bytes, ltb, leb, ◌==◌, if◌then◌else◌, ltb→lt, ltb→ge, leb→le, ==_iff, Bool-cases,
  Option-cases, length, get_or, take, drop, replicate, length-append, take-append-drop, length-take,
  length-drop, length-replicate, take_all, drop_all, take-append_eq, drop-append_eq,
  take-append_right, drop-drop, get_or-drop, get_or-take, get_or_inside, drop-append_right,
  get_or-append_left, get_or-append_right, All, All-append, All-append_left, All-append_right,
  All-take, All-drop, All-get_or, All-get_or_lt,
}
use open_scum_rcon.Authority.{CommandAuthority, is_rcon_authorized}
use open_scum_rcon.Queue.{PendingCommand, CommandQueue, unauthorized, drain, set_value}
use mathlib.Core.Option
use Prim.Native.String.{String}

-- The functions that a command may reach.
pub data Call : Type 0 where
  trace_start trace_stop trace_status : Call
  dump_admin_command_permission_levels dump_test_process_admin_command_address : Call
  dump_player_rpc_channel_info dump_chat_server_function_flags : Call
  call_context_resolver_and_dump call_executor_resolver_and_dump dump_setgodmode_field : Call
  dispatch_command : Bytes → CommandAuthority → Call

pub data Reply : Type 0 where
  returned threw : Bytes → Reply
  threw_unknown : Reply

pub record Game : Type 1 where
  pub World : Type 0
  pub call : Call → World → Reply × World

-- The flags of the module that the commands switch.
pub record Flags : Type 0 where
  pub capturing_calls : Bool
  pub capturing_native_calls : Bool
  pub capturing_registration_calls : Bool
  pub registration_log_count : ℕ

abbrev pub has_space : Bytes → Bool
has_space = any_byte (λ c. c == b' ')

-- `!try_native_setgodmode`: the call itself is disabled.
unfoldable pub try_native : Bytes → Bytes
try_native command_text =
    if not (has_space (drop 23 command_text))
    then text "error: usage: !try_native_setgodmode <true|false> <steamId>"
    else text
        "error: experimental call disabled: old address targets Immortality; use observation-only !godmode_trace_start"

module _ (game : Game) where
  open game use {World, call}

  -- What the `try` block leaves: the reply or the exception, the flags and the game.
  pub record Outcome : Type 0 where
    pub reply : Reply
    pub flags : Flags
    pub world : World

  unfoldable pub calls : Call → Flags → World → Outcome
  calls c flags world =
      let (reply, world') = call c world in record { reply = reply; flags = flags; world = world' }

  unfoldable pub replies : String → Flags → World → Outcome
  replies reply flags world = record { reply = returned (text reply); flags = flags; world = world }

  -- The last branch: the flag is set round the call, and stays set where the call throws.
  unfoldable pub dispatches : Bytes → CommandAuthority → Flags → World → Outcome
  dispatches command_text authority flags world =
      let (reply, world') = call (dispatch_command command_text authority) world in
      record {
        reply = reply;
        flags = record flags {
          capturing_calls = elim reply [
            | returned _ ↦ false
            | threw _ ↦ true
            | threw_unknown ↦ true
          ];
        };
        world = world';
      }

  -- The commands that only switch a flag, behind those that call a diagnostic.
  unfoldable pub run_switch : Bytes → CommandAuthority → Flags → World → Outcome
  run_switch command_text authority flags world =
      if same_text command_text (text "!capture_start")
      then replies "ok: capture started" (record flags { capturing_calls = true }) world
      else if same_text command_text (text "!capture_stop")
      then replies "ok: capture stopped" (record flags { capturing_calls = false }) world
      else if same_text command_text (text "!native_capture_start")
      then replies "ok: native capture started" (record flags { capturing_native_calls = true })
          world
      else if same_text command_text (text "!native_capture_stop")
      then replies "ok: native capture stopped" (record flags { capturing_native_calls = false })
          world
      else if same_text command_text (text "!call_context_resolver")
      then calls call_context_resolver_and_dump flags world
      else if same_text command_text (text "!capture_registration_start")
      then replies "ok: registration capture started"
          (record flags { capturing_registration_calls = true; registration_log_count = 0 }) world
      else if same_text command_text (text "!capture_registration_stop")
      then replies "ok: registration capture stopped"
          (record flags { capturing_registration_calls = false }) world
      else if same_text command_text (text "!call_executor_resolver")
      then calls call_executor_resolver_and_dump flags world
      else if same_text command_text (text "!dump_setgodmode_field")
      then calls dump_setgodmode_field flags world
      else if starts_with (text "!try_native_setgodmode ") command_text
      then record { reply = returned (try_native command_text); flags = flags; world = world }
      else dispatches command_text authority flags world

  unfoldable pub run_command : Bytes → CommandAuthority → Flags → World → Outcome
  run_command command_text authority flags world =
      if same_text command_text (text "!godmode_trace_start")
      then calls trace_start flags world
      else if same_text command_text (text "!godmode_trace_stop")
      then calls trace_stop flags world
      else if same_text command_text (text "!godmode_trace_status")
      then calls trace_status flags world
      else if same_text command_text (text "!dump_admin_permissions")
      then calls dump_admin_command_permission_levels flags world
      else if same_text command_text (text "!dump_func_address")
      then calls dump_test_process_admin_command_address flags world
      else if same_text command_text (text "!dump_rpc_channel")
      then calls dump_player_rpc_channel_info flags world
      else if same_text command_text (text "!dump_chat_flags")
      then calls dump_chat_server_function_flags flags world
      else run_switch command_text authority flags world

  -- The `catch` blocks.
  unfoldable pub caught : Outcome → Bytes × Flags × World
  caught o = elim o.reply [
    | returned reply ↦ (reply, o.flags, o.world)
    | threw what ↦ (
      text "error: exception during dispatch: " ++ what,
      record o.flags { capturing_calls = false },
      o.world,
    )
    | threw_unknown ↦ (
      text "error: unknown exception during dispatch",
      record o.flags { capturing_calls = false },
      o.world,
    )
  ]

  pub record State : Type 0 where
    pub queue : CommandQueue
    pub flags : Flags
    pub world : World

  -- The body of the loop, up to the reply.
  unfoldable pub respond : PendingCommand → Flags → World → Bytes × Flags × World
  respond item flags world =
      if not (is_rcon_authorized item.authority)
      then (unauthorized, flags, world)
      else caught (run_command item.command_text item.authority flags world)

  -- One round of the loop; `none` is the exception of `set_value`, which ends the tick.
  unfoldable pub answer_item : PendingCommand → State → Option State
  answer_item item s =
      let (reply, flags, world) = respond item s.flags s.world in
      Option.map
        (λ futures. record s {
          queue = record s.queue { futures = futures };
          flags = flags;
          world = world;
        })
        (set_value item.response reply s.queue.futures)

  unfoldable pub answer_all : List PendingCommand → State → Option State
  answer_all [] s = some s
  answer_all (item ∷ items) s = Option.bind (answer_item item s) (answer_all items)

  unfoldable pub drain_and_dispatch : State → Option State
  drain_and_dispatch s =
      let (pending, queue) = drain s.queue in answer_all pending (record s { queue = queue })
