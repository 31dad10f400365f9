-- ===== src/Hooks.antt =====
-- The set-up of the module: `on_unreal_init` and the destructor of native_module/src/dllmain.cpp, with
-- `initialize` of godmode_trace.cpp, godmode_dispatch.cpp and response_capture.cpp.
-- The process is a parameter: its headers, its code, and whether a hook can be put at an address. A
-- hook replaces the first bytes of a function, so that they can no longer be read as they were.
pub mod Startup
pub mod Observed
use open_scum_rcon.Base.{
  ℕ, zero, suc, ◌+◌, ◌-◌, ◌*◌, ◌/◌, ◌%◌, ◌^◌, ◌≤◌, ◌<◌, min, ◌≡◌, refl, sym, ap, ◌∙◌, subst, ◌≢◌,
  ◌↔◌, ◌⊎◌, inl, inr, Bool, true, false, not, ◌&&◌, ◌||◌, Option, none, some, List, [], ◌∷◌, ◌++◌,
  map, append-nil, append_assoc, arith, Bytes, IsBytes, text, same_text, same_text_iff, any_byte,
  all_bytes, starts_with, contains_text, less_text, IsPlain, no_break, plain, ◌⊕◌, IsPlain-take,
  less_text_asym, less_text_connex, starts_with-append, insert_by, sort_by, IsSorted,
  sort_by-IsSorted, sort_by-Perm, length-sort_by, All-sort_by, digits, decimal, signed_decimal,
  decimal-IsPlain, signed_decimal-IsPlain, Perm, Result, ok, err, ◌>>=◌, bind-inversion,
  Result-cases, ltb, leb, ◌==◌, if◌then◌else◌, ltb→lt, ltb→ge, leb→le, ==_iff, Bool-cases,
  Option-inversion, if-elim, Option-cases, length, get_or, take, drop, replicate, length-append,
  take-append-drop, length-take, length-drop, length-replicate, take_all, drop_all, take-append_eq,
  drop-append_eq, take-append_right, drop-drop, get_or-drop, get_or-take, get_or_inside,
  take-append_left, drop-append_left, drop-append_right, get_or-append_left, get_or-append_right,
  All, All-append, All-append_left, All-append_right, All-take, All-drop, All-get_or, All-get_or_lt,
}
use Prim.Native.String.{String}
use open_scum_rcon.Config.{Config, load_config}
use open_scum_rcon.Admin.{AdminDispatch, initialize}
use open_scum_rcon.Listener.{Listener}
use open_scum_rcon.Listener

pub record Process : Type 0 where
  pub module_base : ℕ
  -- e_magic and e_lfanew, and at that offset the signature, the timestamp and the size of the image.
  pub dos_header : Option (ℕ × ℕ)
  pub nt_header : ℕ → Option (ℕ × ℕ × ℕ)
  -- The code at an address, before any hook.
  pub code : ℕ → ℕ → Option Bytes
  pub can_hook : ℕ → Bool

-- The Booleans of the files, and the addresses at which a hook stands.
pub record Hooks : Type 0 where
  pub build_ok : Bool
  pub trace_hook : Bool
  pub interface_hook : Bool
  pub signatures_ok : Bool
  pub replies_hooked : Bool
  pub patched : List ℕ

abbrev pub no_hooks : Hooks
no_hooks = record {
  build_ok = false;
  trace_hook = false;
  interface_hook = false;
  signatures_ok = false;
  replies_hooked = false;
  patched = [];
}

-- The functions of the game, from the base of the module.
abbrev pub godmode_rva : ℕ
godmode_rva = 0x18e6530

abbrev pub interface_rva : ℕ
interface_rva = 0x2d02db0

abbrev pub can_execute_rva : ℕ
can_execute_rva = 0x18c7b60

abbrev pub response_rva : ℕ
response_rva = 0x18f4e00

abbrev pub godmode_code : Bytes
godmode_code =
    0x48 ∷ 0x89 ∷ 0x5c ∷ 0x24 ∷ 0x10 ∷ 0x48 ∷ 0x89 ∷ 0x74 ∷ 0x24 ∷ 0x18 ∷ 0x48 ∷ 0x89 ∷ 0x7c ∷ 0x24
    ∷ 0x20 ∷ 0x41 ∷ 0x56 ∷ 0x48 ∷ 0x83 ∷ 0xec ∷ 0x30 ∷ []

abbrev pub interface_code : Bytes
interface_code =
    0x48 ∷ 0x89 ∷ 0x5c ∷ 0x24 ∷ 0x08 ∷ 0x48 ∷ 0x89 ∷ 0x74 ∷ 0x24 ∷ 0x10 ∷ 0x57 ∷ 0x48 ∷ 0x83 ∷ 0xec
    ∷ 0x20 ∷ []

abbrev pub permission_code : Bytes
permission_code =
    0x40 ∷ 0x53 ∷ 0x55 ∷ 0x56 ∷ 0x57 ∷ 0x41 ∷ 0x57 ∷ 0x48 ∷ 0x83 ∷ 0xec ∷ 0x40 ∷ 0x48 ∷ 0x8b ∷ 0x05
    ∷ 0x66 ∷ []

abbrev pub response_code : Bytes
response_code =
    0x48 ∷ 0x89 ∷ 0x5c ∷ 0x24 ∷ 0x08 ∷ 0x48 ∷ 0x89 ∷ 0x6c ∷ 0x24 ∷ 0x10 ∷ 0x48 ∷ 0x89 ∷ 0x74 ∷ 0x24
    ∷ 0x18 ∷ 0x57 ∷ 0x48 ∷ 0x83 ∷ 0xec ∷ 0x20 ∷ 0x48 ∷ 0x8b ∷ 0x59 ∷ 0x20 ∷ []

abbrev pub is_patched : ℕ → List ℕ → Bool
is_patched address patched = any_byte (λ other. other == address) patched

module _ (process : Process) where
  open process use {module_base, dos_header, nt_header, code, can_hook}

  abbrev pub address : ℕ → ℕ
  address rva = (module_base + rva) % 2 ^ 64

  -- Whether the code of a function is the expected one.
  unfoldable pub signature : ℕ → Bytes → Hooks → Bool
  signature rva expected h =
      if is_patched (address rva) h.patched
      then false
      else elim (code (address rva) (length expected)) [
        | none ↦ false
        | some actual ↦ same_text actual expected
      ]

  -- `detour->hook()`
  unfoldable pub hook : ℕ → Hooks → Bool × Hooks
  hook rva h =
      if can_hook (address rva)
      then (true, record h { patched = address rva ∷ h.patched })
      else (false, h)

  -- The test of the headers; a negative offset is a large one.
  unfoldable pub is_build : Bool
  is_build = elim dos_header [
    | none ↦ false
    | some (magic, offset) ↦
        magic == 0x5a4d && not (offset == 0) && leb offset 4096 && elim (nt_header offset) [
          | none ↦ false
          | some (mark, timestamp, size) ↦
              mark == 0x4550 && timestamp == 0x6a904108 && size == 0x7e0c000
        ]
  ]

  -- `godmode_trace::initialize`
  unfoldable pub trace_initialize : Hooks → Bool × Hooks
  trace_initialize h =
      if not is_build
        || not (signature godmode_rva godmode_code h)
        || not (signature interface_rva interface_code h)
      then (false, h)
      else (let (hooked, h') = hook godmode_rva (record h { build_ok = true }) in
          (hooked, record h' { trace_hook = hooked }))

  -- `godmode::initialize`
  unfoldable pub godmode_initialize : Hooks → Hooks
  godmode_initialize h = record h {
    signatures_ok = h.build_ok && signature can_execute_rva permission_code h;
  }

  -- `response_capture::initialize`
  unfoldable pub response_initialize : Hooks → Hooks
  response_initialize h =
      if h.replies_hooked || not h.build_ok || not (signature response_rva response_code h)
      then h
      else (let (hooked, h') = hook response_rva h in record h' { replies_hooked = hooked })

  unfoldable pub install_native_execute_hook : Hooks → Hooks
  install_native_execute_hook h =
      if not h.build_ok || module_base == 0 then h else (hook can_execute_rva h).1

  unfoldable pub install_registration_check_hook : Hooks → Hooks
  install_registration_check_hook h =
      if not h.build_ok
      then h
      else (let (hooked, h') = hook interface_rva h in
          record h' { interface_hook = if hooked then true else h.interface_hook })

  -- The part of `on_unreal_init` from `godmode_trace::initialize` on, up to the listener.
  unfoldable pub set_hooks : Hooks → Hooks
  set_hooks h = install_registration_check_hook (
      install_native_execute_hook (response_initialize (godmode_initialize (trace_initialize h).1)))

-- The callbacks that are registered with UE4SS.
pub data Callback : Type 0 where
  engine_tick process_event console_exec call_function_by_name : Callback

pub record Module : Type 0 where
  pub dispatch : AdminDispatch
  pub admin_states_function : ℕ
  pub callbacks : List Callback
  pub hooks : Hooks
  pub listener : Listener

-- How `on_unreal_init` ends: with the listener, without it, or with an exception.
pub data Ending : Type 0 where
  started not_started threw : Ending

-- `on_unreal_init`, with the content of config.ini, `none` where it cannot be opened.
unfoldable pub on_unreal_init : Process → (String → ℕ) → Option Bytes → Module → Ending × Module
on_unreal_init process find content m =
    let (found, d) = initialize find m.dispatch in
    if not found
    then (not_started, record m { dispatch = d })
    else (let ready = record m {
      dispatch = d;
      admin_states_function = find "/Script/SCUM.Prisoner:NetMulticast_UpdateAdminStates";
    } in
        elim (load_config content) [
          | none ↦ (threw, ready)
          | some config ↦
              let (runs, listener) = Listener.start m.listener in
              (
                if runs then started else not_started,
                record ready {
                  callbacks =
                      m.callbacks
                      ++ engine_tick ∷ process_event ∷ console_exec ∷ call_function_by_name ∷ [];
                  hooks = set_hooks process m.hooks;
                  listener = listener;
                },
              )
        ])
