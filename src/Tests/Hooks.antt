-- ===== src/Tests/Hooks.antt =====
-- The set-up of the module in a concrete process, and the detours.
use open_scum_rcon.Base.{
  Bytes, decimal, same_text, ℕ, ◌+◌, ◌≤◌, ◌≡◌, refl, ◌≢◌, true, false, none, some, [], ◌∷◌, arith,
  ◌==◌, if◌then◌else◌, length,
}
use Prim.Native.String.{String}
use open_scum_rcon.Config.{load_config}
use open_scum_rcon.Admin.{AdminDispatch, initialize}
use open_scum_rcon.Mod.{Flags}
use open_scum_rcon.Trace.{Trace}
use open_scum_rcon.Hooks.{
  Ending, Module, not_started, threw, Process, godmode_code, interface_code, permission_code,
  response_code, is_build, started, on_unreal_init,
}
use open_scum_rcon.Hooks.Startup.{
  has_code, expected_hooks, IsIdle, IsListening, fresh_module, on_unreal_init_cases,
}
use open_scum_rcon.Hooks.Observed.{Seen, check_all, call_all, check_all_transparent}

abbrev process : Process
process = record {
  module_base = 0x140000000;
  dos_header = some (0x5a4d, 256);
  nt_header = λ offset. some (0x4550, 0x6a904108, 0x7e0c000);
  code = λ a n.
      if a == 0x1418e6530
      then some godmode_code
      else if a == 0x142d02db0
      then some interface_code
      else if a == 0x1418c7b60
      then some permission_code
      else some response_code;
  can_hook = λ a. true;
}

abbrev unset : AdminDispatch
unset = record {
  initialized = false;
  test_process_admin_command = 0;
  player_controller_class = 0;
  game_instance_class = 0;
  player_rpc_channel_class = 0;
  chat_server_process_admin_command = 0;
}

-- Every object is found, and there is no config.ini.
abbrev everywhere : String → ℕ
everywhere name = 1

abbrev behind : Ending × Module
behind = on_unreal_init process everywhere none (fresh_module unset)

on_unreal_init_cases_example :
    ((initialize everywhere unset).0 ≡ false → (behind.0 ≡ not_started) × IsIdle behind.1)
    × ((initialize everywhere unset).0 ≡ true
        → load_config none ≡ none
        → (behind.0 ≡ threw) × IsIdle behind.1)
    × ((initialize everywhere unset).0 ≡ true
        → load_config none ≢ none
        → (behind.0 ≡ started) × IsListening behind.1 × (behind.1.hooks ≡ expected_hooks process))
on_unreal_init_cases_example = on_unreal_init_cases process everywhere none unset (omega arith)

-- In a process of the known build every part of the module is ready.
supported : expected_hooks process ≡ record {
  build_ok = true;
  trace_hook = true;
  interface_hook = true;
  signatures_ok = true;
  replies_hooked = true;
  patched = 0x142d02db0 ∷ 0x1418c7b60 ∷ 0x1418f4e00 ∷ 0x1418e6530 ∷ [];
}
unfolding expected_hooks has_code is_build same_text
supported = refl

-- A check that counts its calls and adds their number to the argument.
abbrev counting : ℕ → ℕ → ℕ × ℕ
counting args w = (args + w, w + 1)

abbrev shown : ℕ → ℕ → Bytes
shown args result = decimal result

abbrev seen_call : Seen counting shown
seen_call = record { args = 4; opens = true; event = none }

abbrev capturing : Flags
capturing = record {
  capturing_calls = false;
  capturing_native_calls = false;
  capturing_registration_calls = true;
  registration_log_count = 0;
}

abbrev disarmed : Trace
disarmed = record {
  game_thread = 0;
  hook_ok = true;
  interface_hook_ok = true;
  deadline = 0;
  calls = 0;
  pending = [];
  active = none;
  interface_events = 0;
}

check_all_transparent_example :
    ((check_all counting shown (seen_call ∷ seen_call ∷ []) disarmed capturing [] 7).0
      ≡ (call_all counting shown (seen_call ∷ seen_call ∷ []) 7).0)
    × ((check_all counting shown (seen_call ∷ seen_call ∷ []) disarmed capturing [] 7).3
        ≡ (call_all counting shown (seen_call ∷ seen_call ∷ []) 7).1)
    × (length (check_all counting shown (seen_call ∷ seen_call ∷ []) disarmed capturing [] 7).2
        ≤ 0 + 256)
check_all_transparent_example =
    check_all_transparent counting shown (seen_call ∷ seen_call ∷ []) disarmed capturing [] 7 refl
      (omega arith)
