-- ===== src/Hooks/Startup.antt =====
-- What the set-up of the module comes to.
use open_scum_rcon.Base.{
  ℕ, ◌^◌, ◌<◌, ◌≡◌, refl, ◌≢◌, inl, inr, Bool, true, false, not, ◌&&◌, ◌||◌, Option, none, some,
  List, [], ◌∷◌, arith, Bytes, same_text, any_byte, ◌==◌, if◌then◌else◌, Bool-cases, Option-cases,
  length,
}
use Prim.Native.String.{String}
use open_scum_rcon.Config.{load_config}
use open_scum_rcon.Admin.{AdminDispatch, initialize}
use open_scum_rcon.Listener.{Listener, idle_listener}
use open_scum_rcon.Listener
use open_scum_rcon.Hooks.{
  Process, Hooks, no_hooks, godmode_rva, interface_rva, can_execute_rva, response_rva, godmode_code,
  interface_code, permission_code, response_code, is_patched, address, signature, hook, is_build,
  trace_initialize, godmode_initialize, response_initialize, install_native_execute_hook,
  install_registration_check_hook, set_hooks, Module, started, not_started, threw, on_unreal_init,
}

module _ (process : Process) where
  -- Whether a function has the code that is expected, in a process that nobody changed.
  unfoldable pub has_code : ℕ → Bytes → Bool
  has_code rva expected = elim (process.code (address process rva) (length expected)) [
    | none ↦ false
    | some actual ↦ same_text actual expected
  ]

  -- The build that is known: its headers and the code of the two functions that are traced.
  abbrev pub is_known : Bool
  is_known =
      is_build process && has_code godmode_rva godmode_code && has_code interface_rva interface_code

  abbrev can : ℕ → Bool
  can rva = process.can_hook (address process rva)

  abbrev pub added : Bool → ℕ → List ℕ → List ℕ
  added hooked rva patched = if hooked then address process rva ∷ patched else patched

  -- The hooks of the known build, each by its own conditions.
  abbrev hooks_by : Bool → Bool → Bool → Bool → Bool → Hooks
  hooks_by trace signatures replies executes interface = record {
    build_ok = true;
    trace_hook = trace;
    interface_hook = interface;
    signatures_ok = signatures;
    replies_hooked = replies;
    patched =
        added interface interface_rva (
          added executes can_execute_rva (added replies response_rva (added trace godmode_rva [])));
  }

  -- The hooks that are to be set.
  unfoldable pub expected_hooks : Hooks
  expected_hooks =
      if is_known
      then hooks_by (can godmode_rva) (has_code can_execute_rva permission_code)
          (has_code response_rva response_code && can response_rva)
          (not (process.module_base == 0) && can can_execute_rva) (can interface_rva)
      else no_hooks

  signature-has_code :
      (rva : ℕ) (expected : Bytes) (h : Hooks)
      → is_patched (address process rva) h.patched ≡ false
      → signature process rva expected h ≡ has_code rva expected
  unfolding signature has_code
  signature-has_code rva expected h fresh = rw fresh refl

  trace_initialize-by :
      is_known ≡ true
      → (trace_initialize process no_hooks).1 ≡ hooks_by (can godmode_rva) false false false false
  unfolding trace_initialize hook any_byte
  trace_initialize-by known =
      let passed : (not (is_build process)
            || not (signature process godmode_rva godmode_code no_hooks)
            || not (signature process interface_rva interface_code no_hooks))
          ≡ false =
        rw
          (
            signature-has_code godmode_rva godmode_code no_hooks refl,
            signature-has_code interface_rva interface_code no_hooks refl,
          )
          (ground arith) in
      elim (Bool-cases (can godmode_rva)) [
        | inl hooked ↦ rw (passed, hooked) refl
        | inr barred ↦ rw (passed, barred) refl
      ]

  module _ (low : process.module_base < 2 ^ 63) where
    godmode_initialize-by :
        (trace : Bool)
        → godmode_initialize process (hooks_by trace false false false false)
          ≡ hooks_by trace (has_code can_execute_rva permission_code) false false false
    unfolding godmode_initialize any_byte
    godmode_initialize-by true =
        rw
          (signature-has_code can_execute_rva permission_code
            (hooks_by true false false false false) (ground (arith, low)))
          refl
    godmode_initialize-by false =
        rw
          (signature-has_code can_execute_rva permission_code
            (hooks_by false false false false false) refl)
          refl

    response_signature :
        (trace signatures : Bool)
        → signature process response_rva response_code (hooks_by trace signatures false false false)
          ≡ has_code response_rva response_code
    unfolding any_byte
    response_signature true signatures =
        signature-has_code response_rva response_code (hooks_by true signatures false false false)
          (ground (arith, low))
    response_signature false signatures =
        signature-has_code response_rva response_code (hooks_by false signatures false false false)
          refl

    response_initialize-by :
        (trace signatures : Bool)
        → response_initialize process (hooks_by trace signatures false false false)
          ≡ hooks_by trace signatures
              (has_code response_rva response_code && can response_rva)
              false
              false
    unfolding response_initialize hook
    response_initialize-by trace signatures =
        elim (Bool-cases (has_code response_rva response_code)) [
          | inr other ↦ rw (response_signature trace signatures, other) refl
          | inl same ↦ elim (Bool-cases (can response_rva)) [
            | inl hooked ↦ rw (response_signature trace signatures, same, hooked) refl
            | inr barred ↦ rw (response_signature trace signatures, same, barred) refl
          ]
        ]

  install_native_execute_hook-by :
      (trace signatures replies : Bool)
      → install_native_execute_hook process (hooks_by trace signatures replies false false)
        ≡ hooks_by trace signatures replies
            (not (process.module_base == 0) && can can_execute_rva)
            false
  unfolding install_native_execute_hook hook
  install_native_execute_hook-by trace signatures replies =
      elim (Bool-cases (process.module_base == 0)) [
        | inl null ↦ rw null refl
        | inr there ↦ elim (Bool-cases (can can_execute_rva)) [
          | inl hooked ↦ rw (there, hooked) refl
          | inr barred ↦ rw (there, barred) refl
        ]
      ]

  install_registration_check_hook-by :
      (trace signatures replies executes : Bool)
      → install_registration_check_hook process (hooks_by trace signatures replies executes false)
        ≡ hooks_by trace signatures replies executes (can interface_rva)
  unfolding install_registration_check_hook hook
  install_registration_check_hook-by trace signatures replies executes =
      elim (Bool-cases (can interface_rva)) [
        | inl hooked ↦ rw hooked refl
        | inr barred ↦ rw barred refl
      ]

  set_hooks_none : is_known ≡ false → set_hooks process no_hooks ≡ no_hooks
  unfolding set_hooks trace_initialize godmode_initialize response_initialize
      install_native_execute_hook install_registration_check_hook any_byte
  set_hooks_none other =
      let unknown : (not (is_build process)
            || not (signature process godmode_rva godmode_code no_hooks)
            || not (signature process interface_rva interface_code no_hooks))
          ≡ true =
        rw
          (
            signature-has_code godmode_rva godmode_code no_hooks refl,
            signature-has_code interface_rva interface_code no_hooks refl,
          )
          (ground arith) in
      rw unknown refl

  set_hooks-expected : process.module_base < 2 ^ 63 → set_hooks process no_hooks ≡ expected_hooks
  unfolding set_hooks expected_hooks
  set_hooks-expected low = elim (Bool-cases is_known) [
    | inr other ↦ rw other (set_hooks_none other)
    | inl known ↦
        let signatures = has_code can_execute_rva permission_code in
        let replies = has_code response_rva response_code && can response_rva in
        rw known (
          rw
            (
              trace_initialize-by known,
              godmode_initialize-by low (can godmode_rva),
              response_initialize-by low (can godmode_rva) signatures,
              install_native_execute_hook-by (can godmode_rva) signatures replies,
            )
            (install_registration_check_hook-by (can godmode_rva) signatures replies _))
  ]

-- A module that was just made.
abbrev pub fresh_module : AdminDispatch → Module
fresh_module d = record {
  dispatch = d;
  admin_states_function = 0;
  callbacks = [];
  hooks = no_hooks;
  listener = idle_listener;
}

-- Nothing was set up but what was looked up.
pub record IsIdle (m : Module) : Type 0 where
  pub callbacks : m.callbacks ≡ []
  pub hooks : m.hooks ≡ no_hooks
  pub listener : m.listener ≡ idle_listener

-- The listener's thread was started.
pub record IsListening (m : Module) : Type 0 where
  pub runs : m.listener.running ≡ true
  pub thread : m.listener.thread ≡ some Listener.starting

-- The set-up of a new module. Where an object of the game is missing it ends without the listener,
-- and where the port in config.ini is no number with an exception; in both cases no listener is
-- started, no callback is registered and no hook is set. Else the listener is started, and the
-- hooks are those of `expected_hooks`: none at all unless the headers and the code of the two traced
-- functions are those of the known build, and each of the others by its own conditions, with the
-- code that its function had before any hook was set; CanExecute is hooked without a look at its
-- code, which GodMode alone compares. The module of the game lies in the lower half of the memory.
pub on_unreal_init_cases :
    (process : Process) (find : String → ℕ) (content : Option Bytes) (d : AdminDispatch)
    → process.module_base < 2 ^ 63
    → ((initialize find d).0 ≡ false
        → ((on_unreal_init process find content (fresh_module d)).0 ≡ not_started)
          × IsIdle (on_unreal_init process find content (fresh_module d)).1)
      × ((initialize find d).0 ≡ true
          → load_config content ≡ none
          → ((on_unreal_init process find content (fresh_module d)).0 ≡ threw)
            × IsIdle (on_unreal_init process find content (fresh_module d)).1)
      × ((initialize find d).0 ≡ true
          → load_config content ≢ none
          → ((on_unreal_init process find content (fresh_module d)).0 ≡ started)
            × IsListening (on_unreal_init process find content (fresh_module d)).1
            × ((on_unreal_init process find content (fresh_module d)).1.hooks
                ≡ expected_hooks process))
unfolding on_unreal_init Listener.start
on_unreal_init_cases process find content d low = (
  λ missing. rw missing (refl, record { callbacks = refl; hooks = refl; listener = refl }),
  λ found bad.
      rw (found, bad, on_unreal_init)
        (refl, record { callbacks = refl; hooks = refl; listener = refl }),
  λ found n. elim (Option-cases (load_config content)) [
    | inl bad ↦ absurd (n bad)
    | inr (config, good) ↦
        rw (found, good, on_unreal_init)
          (refl, record { runs = refl; thread = refl }, set_hooks-expected process low)
  ],
)
