-- ===== src/Tests/Admin.antt =====
-- The console over GodMode and the registry, and the listener, at concrete inputs.
use open_scum_rcon.Base.{
  ℕ, ◌+◌, ◌<◌, ◌≡◌, refl, ◌⊎◌, true, false, ◌&&◌, none, some, [], ◌∷◌, Bytes, ◌==◌, if◌then◌else◌,
}
use open_scum_rcon.Authority.{authenticated_rcon, is_rcon_authorized}
use open_scum_rcon.GodMode.Dispatch
use open_scum_rcon.Queue.{PendingCommand, set_value}
use open_scum_rcon.Admin.{AdminDispatch, Objects, dispatch_command}
use open_scum_rcon.Admin.Routed.{Effect, dispatch_command-Effect}
use open_scum_rcon.Admin.Console.{console, Change, respond-Change}
use open_scum_rcon.Admin.Latched.{LatchedChange, answer_item_latched}
use open_scum_rcon.Mod.{Call, Flags, Reply, returned, respond, answer_item}
use open_scum_rcon.Mod
use open_scum_rcon.Mod.Order
use open_scum_rcon.Tests.Registry.{game, numbers, latched, teleport, start}
use open_scum_rcon.Listener.{
  serving, Listener, idle_listener, run_startup, run_test, refused, listens, tests, ThreadStep,
  starts, Step, by_thread, by_start, Reach, initial, next, free, joining, terminated, finished,
  stop, join, destroy_members,
}
use open_scum_rcon.Listener
use open_scum_rcon.Listener.Shutdown.{
  remaining, Settles, ThreadSteps, ThreadStep-remaining, destroy_cases,
}

-- Nobody is connected for GodMode.
abbrev engine : Dispatch.Engine
engine = record {
  World = ℕ;
  has_player_reflection = λ w. true;
  objects = λ w. [];
  is_connected = λ w object. false;
  user_id = λ w object. [];
  live_prisoner = λ w controller. none;
  has_pawn = λ w controller pawn. false;
  has_admin_state = λ w pawn. false;
  god = λ w pawn. false;
  immortal = λ w pawn. false;
  has_class = λ w. true;
  is_default_sound = λ w. true;
  can_execute = λ w controller. (true, []);
  new_object = λ w controller. (9, w + 1);
  is_instance_sound = λ w instance controller. false;
  is_capture_ready = λ w instance. false;
  execute = λ w instance enabled. (true, [], w + 1);
}

abbrev admin : AdminDispatch
admin = record {
  initialized = true;
  test_process_admin_command = 0;
  player_controller_class = 1;
  game_instance_class = 2;
  player_rpc_channel_class = 3;
  chat_server_process_admin_command = 4;
}

dispatch_command-Effect_example :
    Effect engine game numbers 0
      (λ n. true)
      true
      teleport
      start
      (dispatch_command engine game numbers 0
        (λ n. true)
        true
        admin
        teleport
        authenticated_rcon
        start).1
    × ((is_rcon_authorized authenticated_rcon && true) ≡ false
        → (dispatch_command engine game numbers 0
            (λ n. true)
            true
            admin
            teleport
            authenticated_rcon
            start).1
          ≡ start)
dispatch_command-Effect_example =
    dispatch_command-Effect engine game numbers 0 (λ n. true) true admin teleport authenticated_rcon
      start

-- 10 is a default object of the players' class, 11 a game instance, 12 and 13 are players.
abbrev about : Objects
about = record {
  is_unreachable = λ o. o == 14;
  is_a = λ o cls. if o == 11 then cls == 2 else cls == 1;
  is_default_object_name = λ o. o == 10;
}

abbrev diagnose : Call → ℕ → Reply × ℕ
diagnose c w = (returned [], w)

abbrev order : PendingCommand
order = record { command_text = teleport; response = 0; authority = authenticated_rcon }

abbrev no_flags : Flags
no_flags = record {
  capturing_calls = false;
  capturing_native_calls = false;
  capturing_registration_calls = false;
  registration_log_count = 0;
}

respond-Change_example :
    Change engine game numbers 0
      (λ n. true)
      true
      admin
      diagnose
      order
      start
      (respond
        (console engine game numbers 0 (λ n. true) true admin diagnose)
        order
        no_flags
        start).2
respond-Change_example =
    respond-Change engine game numbers 0 (λ n. true) true admin diagnose order no_flags start

abbrev ordered : Order.System (console engine game numbers 0 (λ n. true) true admin diagnose)
ordered = record {
  state = record {
    queue = record { pending = []; futures = none ∷ [] };
    flags = no_flags;
    world = latched;
  };
  taken = order ∷ [];
}

abbrev the_reply : Bytes
the_reply =
    (respond (console engine game numbers 0 (λ n. true) true admin diagnose) order no_flags
      latched).0

abbrev answered : Mod.State (console engine game numbers 0 (λ n. true) true admin diagnose)
answered = record {
  queue = record { pending = []; futures = some the_reply ∷ [] };
  flags =
      (respond (console engine game numbers 0 (λ n. true) true admin diagnose) order no_flags
        latched).1;
  world =
      (respond (console engine game numbers 0 (λ n. true) true admin diagnose) order no_flags
        latched).2;
}

answers :
    answer_item (console engine game numbers 0 (λ n. true) true admin diagnose) order ordered.state
    ≡ some answered
unfolding answer_item set_value
answers = refl

answer_item_latched_example :
    LatchedChange engine game numbers 0 (λ n. true) true admin diagnose order 2 answered.world.world
answer_item_latched_example =
    answer_item_latched engine game numbers 0 (λ n. true) true admin diagnose ordered ordered order
      answered refl Order.here answers

-- A listener whose socket could not be bound, because another program has the port.
abbrev started : Listener
started = (Listener.start idle_listener).1

abbrev unbound : Listener
unbound = run_startup (refused 5) started

unbound-Reach : Reach unbound
unfolding Listener.start
unbound-Reach =
    next started unbound (next idle_listener started initial (by_start refl))
      (by_thread unbound (starts (refused 5) refl))

-- `stop` was called before the thread came to its socket.
abbrev stopped : Listener
stopped = record idle_listener { running = false; thread = some Listener.starting; owner = joining }

ThreadStep-remaining_example :
    (remaining (run_startup (refused 5) stopped).thread < 3)
    × ((run_startup (refused 5) stopped).running ≡ false)
    × ((run_startup (refused 5) stopped).owner ≡ joining)
ThreadStep-remaining_example =
    ThreadStep-remaining stopped (run_startup (refused 5) stopped) (starts (refused 5) refl) refl

-- A listener whose thread stands in accept.
abbrev listening : Listener
listening = run_startup (listens 5) started

abbrev open_listener : Listener
open_listener = run_test listening

open_listener-Reach : Reach open_listener
unfolding Listener.start run_startup
open_listener-Reach =
    next listening open_listener
      (next started listening (next idle_listener started initial (by_start refl))
        (by_thread listening (starts (listens 5) refl)))
      (by_thread open_listener (tests refl))

open_listener-free : open_listener.owner ≡ free
unfolding Listener.start run_startup run_test
open_listener-free = refl

destroy_cases_example :
    ((open_listener.running ≡ true)
      × ((stop open_listener).owner ≡ joining)
      × ((t : Listener)
          → ThreadSteps (stop open_listener) t
          → Settles (open_listener.thread ≡ some serving) t))
    ⊎ (((open_listener.running ≡ false)
          × (open_listener.thread ≡ none)
          × (destroy_members (stop open_listener) ≡ open_listener))
        ⊎ ((open_listener.running ≡ false)
            × (open_listener.thread ≡ some finished)
            × ((destroy_members (stop open_listener)).owner ≡ terminated)))
destroy_cases_example = destroy_cases open_listener open_listener-Reach open_listener-free
