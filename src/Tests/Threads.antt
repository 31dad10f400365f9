-- ===== src/Tests/Threads.antt =====
-- The two threads at concrete inputs.
use open_scum_rcon.Base.{
  Bool, ℕ, ◌+◌, ◌≡◌, refl, ◌⊎◌, true, false, none, some, List, [], ◌∷◌, text, same_text,
}
use open_scum_rcon.Authority.{authenticated_rcon}
use open_scum_rcon.Queue.{PendingCommand, CommandQueue, answer}
use open_scum_rcon.Queue.Answers.{unset}
use open_scum_rcon.Mod.{Game, Flags, State, returned, drain_and_dispatch, answer_item, respond}
use open_scum_rcon.Mod.Capture.{is_diagnostic, captures, IsQuiet, respond-capturing_calls}
use open_scum_rcon.Mod.Order.{
  drain_and_dispatch_answers, System, here, IsSound, Remembers, Reach-IsSound,
}

-- A game that answers every call and counts them.
abbrev counting : Game
counting = record { World = ℕ; call = λ c world. (returned [], world + 1) }

abbrev ping : PendingCommand
ping = record { command_text = 0x70 ∷ []; response = 1; authority = authenticated_rcon }

abbrev queued : CommandQueue
queued = record { pending = ping ∷ []; futures = some [] ∷ none ∷ [] }

abbrev no_flags : Flags
no_flags = record {
  capturing_calls = false;
  capturing_native_calls = false;
  capturing_registration_calls = false;
  registration_log_count = 0;
}

abbrev waiting : State counting
waiting = record { queue = queued; flags = no_flags; world = 0 }

drain_and_dispatch_answers_example :
    (t : State counting) × (drain_and_dispatch counting waiting ≡ some t)
    × (t.queue.pending ≡ [])
    × (unset 0 t.queue.futures ≡ [])
    × Remembers counting waiting t
drain_and_dispatch_answers_example = drain_and_dispatch_answers counting waiting refl

abbrev first_system : System counting
first_system = record { state = waiting; taken = [] }

Reach-IsSound_example :
    IsSound counting first_system
    × Remembers counting waiting waiting
    × ((item : PendingCommand) (items : List PendingCommand)
        → first_system.taken ≡ item ∷ items
        → (t : State counting) × (answer_item counting item waiting ≡ some t)
          × (answer item.response t.queue.futures ≡ some (respond counting item no_flags 0).0))
Reach-IsSound_example = Reach-IsSound counting first_system first_system here refl

-- A game that captures, and whose capture is stopped.
abbrev capturing : Flags
capturing = record no_flags { capturing_calls = true }

abbrev behind : ℕ → Bool
behind = captures counting (text "!capture_stop") capturing 0

respond-capturing_calls_example :
    (behind 1 ≡ true
      → (text "!capture_stop" ≡ text "!capture_start")
        ⊎ ((capturing.capturing_calls ≡ true) × (is_diagnostic (text "!capture_stop") ≡ true)))
    × (text "!capture_stop" ≡ text "!capture_start" → behind 1 ≡ true)
    × (text "!capture_stop" ≡ text "!capture_stop" → behind 1 ≡ false)
    × (IsQuiet counting (text "!capture_stop") capturing 0
        → is_diagnostic (text "!capture_stop") ≡ true
        → same_text (text "!capture_stop") (text "!capture_stop") ≡ false
        → capturing.capturing_calls ≡ true
        → behind 1 ≡ true)
respond-capturing_calls_example =
    respond-capturing_calls counting (text "!capture_stop") capturing 0 1
