-- ===== src/Tests/Game.antt =====
-- The tracing and the dispatch of GodMode in a concrete game.
use open_scum_rcon.Base.{
  ℕ, ◌+◌, ◌≡◌, refl, inr, Bool, true, false, none, some, [], ◌∷◌, ◌++◌, arith, Bytes, text,
  same_text, ◌==◌,
}
use open_scum_rcon.Authority.{is_rcon_authorized, authenticated_rcon}
use open_scum_rcon.Trace.{Trace, written, Log, Seen, effect, Handler, capture_execute}
use open_scum_rcon.Trace.Bounded.{IsBounded, System, executes, here, next, Reach-IsBounded}
use open_scum_rcon.GodMode.{parse}
use open_scum_rcon.GodMode.Dispatch.{Player, Engine, find_player, count_matches, dispatch}
use open_scum_rcon.GodMode.Dispatch.Verified.{Effect, dispatch-Effect}

abbrev disk : Log
disk = record { File = Bytes; append = λ content file. (written, file ++ content) }

abbrev handler : Handler
handler = record {
  World = ℕ;
  execute = λ world. (some true, world + 1, effect (some (text "effect")) ∷ []);
}

abbrev running : Trace
running = record {
  game_thread = 1;
  hook_ok = true;
  interface_hook_ok = true;
  deadline = 1000;
  calls = 3;
  pending = [];
  active = none;
  interface_events = 0;
}

running-IsBounded : IsBounded handler running
running-IsBounded = record {
  few = omega arith;
  counted = omega arith;
  short = _;
  spent = λ _ _. omega arith;
  idle = refl;
}

abbrev seen : Seen
seen = record { now = 10; thread = 1; before = text "BEGIN"; after = some (text "END") }

abbrev system : System handler disk
system = record { trace = running; file = []; world = 0 }

Reach-IsBounded_example : IsBounded handler (capture_execute handler seen 0 running).2
Reach-IsBounded_example =
    Reach-IsBounded handler disk system
      (record system {
        world = (capture_execute handler seen 0 running).1;
        trace = (capture_execute handler seen 0 running).2;
      })
      (next here (executes seen)) running-IsBounded

-- One player, number 7 with the pawn 8; the world is whether GodMode is on.
abbrev engine : Engine
engine = record {
  World = Bool;
  has_player_reflection = λ w. true;
  objects = λ w. 6 ∷ 7 ∷ [];
  is_connected = λ w object. object == 7;
  user_id = λ w object. text "76561198000000001";
  live_prisoner = λ w controller. some 8;
  has_pawn = λ w controller pawn. pawn == 8;
  has_admin_state = λ w pawn. true;
  god = λ w pawn. w;
  immortal = λ w pawn. false;
  has_class = λ w. true;
  is_default_sound = λ w. true;
  can_execute = λ w controller. (true, []);
  new_object = λ w controller. (9, w);
  is_instance_sound = λ w instance controller. instance == 9;
  is_capture_ready = λ w instance. true;
  execute = λ w instance enabled. (true, [], enabled);
}

abbrev steam_id : Bytes
steam_id = text "76561198000000001"

abbrev player : Player
player = record { controller = 7; pawn = 8 }

found : find_player engine false steam_id ≡ inr player
unfolding find_player count_matches same_text text
found = refl

abbrev order : Bytes
order = text "SetGodMode true 76561198000000001"

dispatch-Effect_example :
    Effect engine
      (parse order)
      false
      (dispatch engine (λ n. true) true order authenticated_rcon false).1
    × (is_rcon_authorized authenticated_rcon ≡ false
        → (dispatch engine (λ n. true) true order authenticated_rcon false).1 ≡ false)
dispatch-Effect_example = dispatch-Effect engine (λ n. true) true order authenticated_rcon false
