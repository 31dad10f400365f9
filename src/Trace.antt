-- ===== src/Trace.antt =====
-- native_module/src/godmode_trace.cpp: the tracing of calls of the native GodMode handler, armed for
-- a time and a number of calls.
-- Windows, the log file and the game are parameters: `now` is GetTickCount64, `append` opens the log,
-- writes to it and flushes it. What a snapshot of the game's memory reads is a parameter as well, as
-- text, or `none` where it throws; so is the handler itself, behind the trampoline, with the calls
-- of the two observed functions that it makes. Its calls of itself are part of its run: `active` is
-- set or the condition of `capture_execute` failed, so that they are passed through. The text of
-- `status` is left out.
pub mod Transparent
pub mod Bounded
use open_scum_rcon.Base.{
  ℕ, zero, suc, ◌+◌, ◌-◌, ◌*◌, ◌/◌, ◌%◌, ◌^◌, ◌≤◌, ◌<◌, min, ◌≡◌, refl, sym, ap, ◌∙◌, subst, ◌≢◌,
  ◌↔◌, ◌⊎◌, inl, inr, Bool, true, false, not, ◌&&◌, ◌||◌, Option, none, some, List, [], ◌∷◌, ◌++◌,
  map, append-nil, append_assoc, arith, Bytes, IsBytes, text, same_text, same_text_iff, any_byte,
  all_bytes, ltb, leb, ◌==◌, if◌then◌else◌, ltb→lt, ltb→ge, leb→le, ==_iff, Bool-cases,
  Option-cases, length, get_or, take, drop, replicate, length-append, take-append-drop, length-take,
  length-drop, length-replicate, take_all, drop_all, take-append_eq, drop-append_eq,
  take-append_right, drop-drop, get_or-drop, get_or-take, get_or_inside, take-append_left,
  drop-append_left, drop-append_right, get_or-append_left, get_or-append_right, All, All-append,
  All-append_left, All-append_right, All-take, All-drop, All-get_or, All-get_or_lt,
}
use mathlib.Core.Option

abbrev pub max_calls : ℕ
max_calls = 4

abbrev pub window_ms : ℕ
window_ms = 120000

-- The variables of the file. `active` is the record that nested calls add to; a deadline of 0 is
-- a trace that is not armed.
pub record Trace : Type 0 where
  pub game_thread : ℕ
  pub hook_ok : Bool
  pub interface_hook_ok : Bool
  pub deadline : ℕ
  pub calls : ℕ
  pub pending : List Bytes
  pub active : Option Bytes
  pub interface_events : ℕ

pub data Written : Type 0 where
  not_opened not_written written : Written

pub record Log : Type 1 where
  pub File : Type 0
  pub append : Bytes → File → Written × File

abbrev pub joined : List Bytes → Bytes
joined [] = []
joined (record_text ∷ records) = record_text ++ joined records

abbrev pub armed : ℕ → Trace → Bool
armed now s = not (s.deadline == 0) && ltb now s.deadline

module _ (log : Log) where
  open log use {File, append}

  -- The first line of `tick`.
  unfoldable pub expire : ℕ → Trace → Trace
  expire now s =
      if not (s.deadline == 0) && leb s.deadline now then record s { deadline = 0 } else s

  unfoldable pub flush : Trace → File → Trace × File
  flush s file = elim s.pending [
    | [] ↦ (s, file)
    | first ∷ more ↦
        let (outcome, file') = append (joined s.pending) file in
        (
          elim outcome [ not_opened ↦ s | not_written ↦ s | written ↦ record s { pending = [] } ],
          file',
        )
  ]

  unfoldable pub tick : ℕ → Trace → File → Trace × File
  unfolding expire flush
  tick now s = flush (expire now s)

  -- `start`, on the thread that calls it, with the text of the snapshot of the default object.
  unfoldable pub start : ℕ → ℕ → Bytes → Trace → File → Bytes × Trace × File
  start now thread baseline s file =
      if not s.hook_ok || not s.interface_hook_ok
      then (text "error: GodMode trace hooks unavailable/build mismatch", s, file)
      else (let (s', file') = tick now s file in
          if not (length s'.pending == 0)
          then (text "error: previous trace could not be saved", s', file')
          else (let (outcome, file'') = append baseline file' in
              elim outcome [
                | not_opened ↦ (text "error: trace log cannot be opened", s', file'')
                | not_written ↦ (
                  text "error: trace log cannot be written",
                  record s' { game_thread = thread },
                  file'',
                )
                | written ↦ (
                  text "ok: GodMode trace armed for 120 seconds / 4 calls",
                  record s' {
                    game_thread = thread;
                    calls = 0;
                    deadline = (now + window_ms) % 2 ^ 64;
                  },
                  file'',
                )
              ]))

  unfoldable pub stop : ℕ → Bytes → Trace → File → Trace × File
  stop now baseline s file =
      let (s', file') = tick now (record s { deadline = 0 }) file in
      (s', (append (text "STOP\n" ++ baseline) file').1)

  unfoldable pub shutdown : ℕ → Trace → File → Trace × File
  shutdown now s file =
      let (s', file') = tick now (record s { deadline = 0 }) file in
      (record s' { hook_ok = false }, file')

-- `observe_interface`, of which `events` is the text or `none` where describing throws.
unfoldable pub observe_interface : Option Bytes → Trace → Trace
observe_interface event s = elim s.active [
  | none ↦ s
  | some active ↦
      let counted = record s { interface_events = s.interface_events + 1 } in
      if leb 8 s.interface_events
      then counted
      else record counted { active = some (active ++ Option.get_or event []) }
]

unfoldable pub observe_effect : Option Bytes → Trace → Trace
observe_effect event s = elim s.active [
  | none ↦ s
  | some active ↦ record s { active = some (active ++ Option.get_or event []) }
]

-- What the calls read: the clock and the thread, and the texts before and behind the call.
pub record Seen : Type 0 where
  pub now : ℕ
  pub thread : ℕ
  pub before : Bytes
  pub after : Option Bytes

unfoldable pub capture : Seen → Trace → Bool
capture seen s =
    armed seen.now s
    && seen.thread == s.game_thread
    && elim s.active [ none ↦ true | some _ ↦ false ]
    && ltb s.calls max_calls

pub data Event : Type 0 where
  interface effect : Option Bytes → Event

unfoldable pub observe : Event → Trace → Trace
unfolding observe_interface observe_effect
observe (interface event) s = observe_interface event s
observe (effect event) s = observe_effect event s

unfoldable pub observe_all : List Event → Trace → Trace
observe_all [] s = s
observe_all (event ∷ events) s = observe_all events (observe event s)

-- The handler: its result, `none` where it throws, the game behind it, and the calls of observed
-- functions that it made.
pub record Handler : Type 1 where
  pub World : Type 0
  pub execute : World → Option Bool × World × List Event

-- Behind the call: the record is kept, up to 65536 bytes, unless completing it throws.
unfoldable pub keep : Option Bytes → Trace → List Bytes
keep none s = s.pending
keep (some rest) s = s.pending ++ take 65536 (Option.get_or s.active [] ++ rest) ∷ []

unfoldable pub keep_record : Option Bytes → Trace → Trace
unfolding keep
keep_record after s =
    let s' = record s { active = none; pending = keep after s } in
    if leb max_calls s.calls then record s' { deadline = 0 } else s'

abbrev pub begin_record : Seen → Trace → Trace
begin_record seen s = record s {
  calls = s.calls + 1;
  active = some seen.before;
  interface_events = 0;
}

-- The detour `capture_execute`. Where the handler throws, the destructor of ResetActive is all that
-- runs, and the exception goes on.
unfoldable pub capture_execute :
    (handler : Handler) → Seen → handler.World → Trace → Option Bool × handler.World × Trace
unfolding capture
capture_execute handler seen world s =
    let (result, world', events) = handler.execute world in
    if not (capture seen s)
    then (result, world', observe_all events s)
    else (let s' = observe_all events (begin_record seen s) in
        elim result [
          | none ↦ (none, world', record s' { active = none })
          | some returned ↦ (some returned, world', keep_record seen.after s')
        ])
