-- ===== src/Tests/Registry.antt =====
-- The registry, its players and its commands in a concrete game, and the clock.
use open_scum_rcon.Base.{
  ℕ, suc, ◌+◌, ◌*◌, ◌/◌, ◌%◌, ◌^◌, ◌≤◌, ◌<◌, ◌≡◌, refl, ◌⊎◌, inl, inr, Bool, true, false, not, ◌&&◌,
  ◌||◌, none, some, List, [], ◌∷◌, arith, Bytes, text, same_text, all_bytes, IsPlain, insert_by,
  sort_by, digits, decimal, signed_decimal, decimal-IsPlain, Perm, ok, err, ltb, ◌==◌,
  if◌then◌else◌, Bool-cases, length, All,
}
use mathlib.Core.Option
use Prim.Native.String.{String}
use open_scum_rcon.Authority.{authenticated_rcon, is_rcon_authorized}
use open_scum_rcon.Config.{lines_of}
use open_scum_rcon.LiveQuery.{Numbers, WeatherSnapshot, ingame_clock, weather_json}
use open_scum_rcon.LiveQuery.Json.{weather_json-object, weather_object}
use open_scum_rcon.LiveQuery.Clock.{ingame_clock-IsClock}
use open_scum_rcon.Request.{steam_id_valid, parse_dispatch_request}
use open_scum_rcon.Registry.Engine.{
  Engine, State, live, valid, utf8, string_call, object_property, field, field_byte, slot, word_at,
  int_lt, executable_in_game,
}
use open_scum_rcon.Registry.Players.{
  Player, connected_players, visit, is_connected, add_player, seen_id, list_players, list_some,
  player_lines, details, connection_ip, can_ask_address, shown_ping, shown_location, profile_id,
}
use open_scum_rcon.Registry.Commands.{
  Command, commands, choose_registry, registries, commands_of, collect_classes, command_of,
  describe, classify, metadata, seen_class, sorted,
}
use open_scum_rcon.Registry.Execute.{dispatch}
use open_scum_rcon.Registry.Connected.{identified, connected_players-IsAscending}
use open_scum_rcon.Registry.Lines.{HasLines, list_players-HasLines}
use open_scum_rcon.Registry.Running.{Effect}
use open_scum_rcon.Registry.Effect.{registry_dispatch-Effect}
use open_scum_rcon.Registry.Callable.{IsCounted, Supported, commands-IsCandidate}
use open_scum_rcon.Utf8.{utf8_prefix_size, is_continuation}

abbrev is_named : String → String → Bool
is_named a b = same_text (text a) (text b)

-- 1 is the controller of a player, 2 its connection, 3 its pawn, 4 the registry, 5 the class of a
-- command, 6 this class's default object, and 7 the object that is made of it.
abbrev pub game : Engine ℕ ℕ
game = record {
  supported_build = λ w. true;
  capture_ready = λ w. true;
  capture_function = λ w. 6000;
  objects = λ w. 1 ∷ 2 ∷ 3 ∷ 4 ∷ 5 ∷ 6 ∷ [];
  internal_index = λ w o. o;
  num_elements = λ w. 100;
  item_at = λ w i. some (i, true);
  is_class_default = λ w o. o == 6;
  is_archetype = λ w o. false;
  find_class = λ w name.
      if is_named name "/Script/SCUM.AdminCommandRegistry" then 104 else length (text name);
  find_function = λ w name. length (text name);
  params_size = λ w fn. 16;
  is_a = λ w o cls. (o == 1 && cls == 33) || (o == 3 && cls == 21) || (o == 4 && cls == 104);
  is_child_of = λ w c p. c == 5 && p == 25;
  class_of = λ w o. 5;
  outer_of = λ w o. 1;
  default_object = λ w c. 6;
  implements = λ w o c. true;
  object_value = λ w o name.
      if not (o == 1)
      then none
      else if is_named name "NetConnection"
      then some 2
      else if is_named name "Pawn"
      then some 3
      else none;
  string_value = λ w o name. some (some (text "Teleport"));
  int_value = λ w o name. if is_named name "_numberOfRequiredArguments" then some 1 else some 0;
  int64_value = λ w o name. some 5;
  byte_value = λ w o name. some 10;
  bool_value = λ w o name. some true;
  float_value = λ w o name. some 1;
  class_array = λ w o name. some (5 ∷ 5 ∷ []);
  array_count = λ w o name. some 2;
  returned_string = λ w o fn.
      if fn == 43 then some (text "76561198000000001") else some (text "Bob\nPLAYER steam=1");
  has_profile_reflection = λ w. true;
  profile_value = λ w o. 12;
  location = λ w o. (1, 2, 3);
  module_base = λ w. 9;
  read_word = λ w p.
      if p == 6 || p == 7
      then some 1000
      else if p == 1648
      then some 5000
      else if p == 1656
      then some 6000
      else none;
  read_bytes = λ w p n. none;
  query = λ w p. some (record { allocation_base = 9; is_committed = true; protect = 0x20 });
  read_address = λ w o. none;
  to_utf8 = λ units. some units;
  to_wide = λ value. some value;
  is_ipv4 = λ a. false;
  is_ipv6 = λ a. false;
  new_object = λ w controller cls. (7, suc w);
  invoke = λ w fn object arguments. (none, [], suc w);
}

abbrev pub numbers : Numbers ℕ
numbers = record {
  is_finite = λ d. true;
  is_off_clock = λ d. ltb 24 d;
  minutes = λ d. d * 60;
  shown = decimal;
  shown_fixed = decimal;
}

abbrev bob : Player
bob = record { controller = 1; id = text "76561198000000001" }

connected_bob : connected_players game 0 ≡ ok (bob ∷ [])
unfolding connected_players visit is_connected add_player seen_id live valid utf8 string_call
    object_property steam_id_valid all_bytes text same_text sort_by insert_by
connected_bob = refl

connected_players-IsAscending_example :
    Perm (bob ∷ []) (identified game 0 33 43 (1 ∷ 2 ∷ 3 ∷ 4 ∷ 5 ∷ 6 ∷ [])) × Unit {0} × (1 ≤ 1024)
unfolding text same_text
connected_players-IsAscending_example =
    connected_players-IsAscending game 0 (bob ∷ []) connected_bob

abbrev pub start : State ℕ
start = record { native_faulted = false; address_faulted = false; world = 0 }

abbrev pub teleport : Bytes
teleport = text "!exec 76561198000000001 Teleport here"

registry_dispatch-Effect_example :
    Effect game
      (parse_dispatch_request teleport)
      start
      (dispatch game numbers 0 (λ n. true) teleport authenticated_rcon start).1
    × (is_rcon_authorized authenticated_rcon ≡ false
        → (dispatch game numbers 0 (λ n. true) teleport authenticated_rcon start).1 ≡ start)
registry_dispatch-Effect_example =
    registry_dispatch-Effect game numbers 0 (λ n. true) teleport authenticated_rcon start

abbrev pub latched : State ℕ
latched = record { native_faulted = true; address_faulted = false; world = 2 }

ingame_clock-IsClock_example :
    ((numbers.is_finite 7 && not (numbers.is_off_clock 7)) ≡ false
      → ingame_clock numbers 7 ≡ err (text "invalid live time of day"))
    × ((numbers.is_finite 7 && not (numbers.is_off_clock 7)) ≡ true
        → (h m : ℕ) × (h < 24)
          × (m < 60)
          × (h * 60 + m ≡ numbers.minutes 7 % 1440)
          × (ingame_clock numbers 7
              ≡ ok (
                  (b'0' + h / 10)
                  ∷ (b'0' + h % 10)
                  ∷ b':'
                  ∷ (b'0' + m / 10)
                  ∷ (b'0' + m % 10)
                  ∷ [])))
ingame_clock-IsClock_example = ingame_clock-IsClock numbers 7

abbrev weather : WeatherSnapshot ℕ
weather = record {
  time_of_day = 7;
  wind_azimuth = 90;
  wind_intensity = 1;
  rain_intensity = 0;
  fog_density = 2;
  time_speed = some 4;
  sunrise = some 5;
  sunset = some 22;
  air_temperature = some 18;
  water_temperature = none;
  cirrostratus = none;
  cumulonimbus = none;
  nimbostratus = none;
  max_wind_speed_kph = some 30;
}

weather_json-object_example :
    weather_json numbers weather false ≡ weather_object numbers weather false
weather_json-object_example = weather_json-object numbers weather false

abbrev teleport_command : Command
teleport_command = record {
  class_of = 5;
  default_object = 6;
  verb = text "Teleport";
  required = 1;
  declared = 2;
  repeating = 0;
  enabled = true;
  shipping = true;
  server = true;
  unsupported = [];
}

-- The one command of the registry.
commands-game : commands game 0 ≡ ok (teleport_command ∷ [])
unfolding commands choose_registry registries commands_of collect_classes command_of describe
    classify metadata seen_class sorted valid live utf8 slot word_at int_lt executable_in_game text
    same_text sort_by insert_by Option.bind
commands-game = refl

teleport_counted : IsCounted teleport_command
teleport_counted = record {
  required = omega arith;
  declared = omega arith;
  repeating = omega arith;
}

ints_fit : (o : ℕ) (name : String) (n : ℕ) → game.int_value 0 o name ≡ some n → n < 2 ^ 32
ints_fit o name n e = elim (Bool-cases (is_named name "_numberOfRequiredArguments")) [
  | inl first ↦ let same : 1 ≡ n = cc (rw first at e) in rw (← same) (omega arith)
  | inr other ↦ let same : 0 ≡ n = cc (rw other at e) in rw (← same) (omega arith)
]

counts_fit : (o : ℕ) (name : String) (n : ℕ) → game.array_count 0 o name ≡ some n → n < 2 ^ 32
counts_fit o name n e = let same : 2 ≡ n = cc in rw (← same) (omega arith)

commands-IsCandidate_example :
    Unit {0} × (1 ≤ 1) × All (Supported game 0 ints_fit counts_fit) (teleport_command ∷ [])
commands-IsCandidate_example =
    commands-IsCandidate game 0 ints_fit counts_fit (teleport_command ∷ []) commands-game

no_address : (a : Bytes) → (game.is_ipv4 a || game.is_ipv6 a) ≡ true → IsPlain a
no_address a e = cc

abbrev listed : Bytes
listed =
    text
      "PLAYER steam=76561198000000001 upid=12 ipStatus=unavailable money=5 gold=5 (1, 2, 3) | Bob PLAYER steam=1 |\n"

list_players-game : list_players game numbers start ≡ (ok listed, start)
unfolding connected_players visit is_connected add_player seen_id live valid utf8 string_call
    object_property steam_id_valid all_bytes text same_text sort_by insert_by list_players list_some
    player_lines details connection_ip can_ask_address shown_ping shown_location profile_id field
    field_byte slot word_at decimal digits signed_decimal utf8_prefix_size is_continuation
list_players-game = refl

list_players-HasLines_example :
    (online : List Player) × (connected_players game 0 ≡ ok online)
    × ((online ≡ [] × listed ≡ text "No players online.") ⊎ HasLines online (lines_of listed))
list_players-HasLines_example =
    list_players-HasLines game numbers no_address decimal-IsPlain start start listed
      list_players-game
