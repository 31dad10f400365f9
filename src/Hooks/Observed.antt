-- ===== src/Hooks/Observed.antt =====
-- native_module/src/dllmain.cpp: the detours and the callback that observe the game, and the
-- destructor of the module. What stands behind a trampoline is a parameter, as are the texts of the
-- lines and whether a log can be opened.
use open_scum_rcon.Base.{
  ℕ, ◌+◌, ◌-◌, ◌%◌, ◌^◌, ◌≤◌, ◌<◌, ◌≡◌, refl, ap, inl, inr, Bool, true, false, not, ◌&&◌, Option,
  List, [], ◌∷◌, ◌++◌, arith, Bytes, ltb, ◌==◌, if◌then◌else◌, ltb→lt, ltb→ge, Bool-cases, length,
  length-append,
}
use open_scum_rcon.Mod.{Flags}
use open_scum_rcon.Trace.{Trace, observe_interface, observe_effect}
use open_scum_rcon.Hooks.{
  Process, Hooks, address, response_rva, godmode_rva, Callback, engine_tick, Module,
}
use open_scum_rcon.Listener

-- `if (file) file << line`
abbrev pub append_line : Bool → Bytes → List Bytes → List Bytes
append_line opens line log = if opens then log ++ line ∷ [] else log

-- What one call leaves of the counter and of the room for lines.
counted_le :
    (capturing : Bool) (flags : Flags) (log longer : List Bytes) (more : ℕ)
    → length longer ≤ length log + 1
    → flags.registration_log_count + 1 + more < 2 ^ 32
    → ((if capturing
            then record flags {
              registration_log_count = (flags.registration_log_count + 1) % 2 ^ 32;
            }
            else flags).registration_log_count
          + more
        < 2 ^ 32)
      × (length (if capturing && ltb flags.registration_log_count 256 then longer else log)
            + (256
                - (if capturing
                    then record flags {
                      registration_log_count = (flags.registration_log_count + 1) % 2 ^ 32;
                    }
                    else flags).registration_log_count)
          ≤ length log + (256 - flags.registration_log_count))
counted_le false flags log longer more one few = (omega arith, omega arith)
counted_le true flags log longer more one few =
    elim (Bool-cases (ltb flags.registration_log_count 256)) [
      | inl room ↦
          rw room (omega arith, omega (arith, ltb→lt flags.registration_log_count 256 room))
      | inr full ↦
          rw full (omega arith, omega (arith, ltb→ge flags.registration_log_count 256 full))
    ]

-- The line is written before the call; it has its arguments and the caller.
unfoldable pub detour_execute :
    {World Args R : Type 0}
    → (Args → World → R × World)
    → Bool
    → Bytes
    → Flags
    → List Bytes
    → Args
    → World
    → List Bytes × R × World
detour_execute trampoline opens line flags log args w =
    let log' = if flags.capturing_native_calls then append_line opens line log else log in
    let (result, w') = trampoline args w in (log', result, w')

-- `Args` are the owner and the class; `shown` is the line about them and the result.
module _ {World Args R : Type 0} (trampoline : Args → World → R × World)
    (shown : Args → R → Bytes) where
  -- What a call of the check leaves.
  pub record Checked : Type 0 where
    pub result : R
    pub world : World
    pub trace : Trace
    pub flags : Flags
    pub log : List Bytes

  unfoldable pub detour_registration_check :
      Bool → Option Bytes → Trace → Flags → List Bytes → Args → World → Checked
  detour_registration_check opens event trace flags log args w =
      let (result, w') = trampoline args w in
      let count = flags.registration_log_count in
      record {
        result = result;
        world = w';
        trace = observe_interface event trace;
        flags =
            if flags.capturing_registration_calls
            then record flags { registration_log_count = (count + 1) % 2 ^ 32 }
            else flags;
        log =
            if flags.capturing_registration_calls && ltb count 256
            then append_line opens (shown args result) log
            else log;
      }

  -- A call, with what is seen of it.
  pub record Seen : Type 0 where
    pub args : Args
    pub opens : Bool
    pub event : Option Bytes

  -- A sequence of calls: the results, and what the last of them leaves.
  unfoldable pub check_all :
      List Seen → Trace → Flags → List Bytes → World → List R × Flags × List Bytes × World
  check_all [] trace flags log w = ([], flags, log, w)
  check_all (seen ∷ more) trace flags log w =
      let c = detour_registration_check seen.opens seen.event trace flags log seen.args w in
      let (results, flags', log', w') = check_all more c.trace c.flags c.log c.world in
      (c.result ∷ results, flags', log', w')

  -- The calls without the detour.
  unfoldable pub call_all : List Seen → World → List R × World
  call_all [] w = ([], w)
  call_all (seen ∷ more) w =
      let (result, w') = trampoline seen.args w in
      let (results, w'') = call_all more w' in (result ∷ results, w'')

  check_all-called :
      (calls : List Seen) (trace : Trace) (flags : Flags) (log : List Bytes) (w : World)
      → ((check_all calls trace flags log w).0 ≡ (call_all calls w).0)
        × ((check_all calls trace flags log w).3 ≡ (call_all calls w).1)
  unfolding check_all call_all detour_registration_check
  check_all-called [] trace flags log w = (refl, refl)
  check_all-called (seen ∷ more) trace flags log w =
      let c = detour_registration_check seen.opens seen.event trace flags log seen.args w in
      let (results, world) = check_all-called more c.trace c.flags c.log c.world in
      (ap (λ rs. (trampoline seen.args w).0 ∷ rs) results, world)

  length-append_line :
      (opens : Bool) (line : Bytes) (log : List Bytes)
      → length (append_line opens line log) ≤ length log + 1
  length-append_line true line log = omega (arith, length-append log (line ∷ []))
  length-append_line false line log = omega arith

  check_all-le :
      (calls : List Seen) (trace : Trace) (flags : Flags) (log : List Bytes) (w : World)
      → flags.registration_log_count + length calls < 2 ^ 32
      → length (check_all calls trace flags log w).2
        ≤ length log + (256 - flags.registration_log_count)
  unfolding check_all detour_registration_check
  check_all-le [] trace flags log w few = omega arith
  check_all-le (seen ∷ more) trace flags log w few =
      let c = detour_registration_check seen.opens seen.event trace flags log seen.args w in
      let (fits, room) =
        counted_le flags.capturing_registration_calls flags log
          (append_line seen.opens (shown seen.args c.result) log) (length more)
          (length-append_line seen.opens (shown seen.args c.result) log) (omega (arith, few)) in
      let rest = check_all-le more c.trace c.flags c.log c.world fits in omega (arith, rest, room)

  -- The detour of the check is transparent, and its log is bounded: from the counter 0, which the start
  -- of a capture sets, fewer than 2 ^ 32 calls give the results that they would give without it,
  -- leave the game as they would, and add at most 256 lines to the log.
  pub check_all_transparent :
      (calls : List Seen) (trace : Trace) (flags : Flags) (log : List Bytes) (w : World)
      → flags.registration_log_count ≡ 0
      → length calls < 2 ^ 32
      → ((check_all calls trace flags log w).0 ≡ (call_all calls w).0)
        × ((check_all calls trace flags log w).3 ≡ (call_all calls w).1)
        × (length (check_all calls trace flags log w).2 ≤ length log + 256)
  check_all_transparent calls trace flags log w e few =
      let (results, world) = check_all-called calls trace flags log w in
      let most = check_all-le calls trace flags log w (omega (arith, e, few)) in
      (results, world, omega (arith, e, most))

-- The ProcessEvent callback; the stack is a text.
unfoldable pub observe_process_event :
    ℕ
    → ℕ
    → Option Bytes
    → Bytes
    → Bool
    → Bytes
    → Trace
    → Flags
    → List Bytes
    → List Bytes
    → Trace × List Bytes × List Bytes
observe_process_event admin_states function event stack opens line trace flags stacks nested =
    let is_anchor = not (function == 0) && function == admin_states in
    (
      if is_anchor then observe_effect event trace else trace,
      if is_anchor then append_line opens stack stacks else stacks,
      if flags.capturing_calls then append_line opens line nested else nested,
    )

abbrev pub unpatched : ℕ → List ℕ → List ℕ
unpatched a [] = []
unpatched a (b ∷ patched) = if b == a then unpatched a patched else b ∷ unpatched a patched

abbrev pub without_tick : List Callback → List Callback
without_tick [] = []
without_tick (engine_tick ∷ callbacks) = without_tick callbacks
without_tick (c ∷ callbacks) = c ∷ without_tick callbacks

-- `response_capture::shutdown`
unfoldable pub response_shutdown : Process → Hooks → Hooks
response_shutdown process h =
    if h.replies_hooked
    then record h {
      replies_hooked = false;
      patched = unpatched (address process response_rva) h.patched;
    }
    else h

-- The hook of `godmode_trace::shutdown`; Trace has the rest of it.
unfoldable pub trace_shutdown : Process → Hooks → Hooks
trace_shutdown process h =
    if h.trace_hook
    then record h {
      trace_hook = false;
      patched = unpatched (address process godmode_rva) h.patched;
    }
    else h

-- The destructor of the module, up to the end of `stop` and the join in it.
unfoldable pub unload : Process → Module → Module
unload process m = record m {
  hooks = trace_shutdown process (response_shutdown process m.hooks);
  listener = Listener.stop m.listener;
  callbacks = without_tick m.callbacks;
}
