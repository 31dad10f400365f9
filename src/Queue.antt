-- ===== src/Queue.antt =====
-- native_module/src/command_queue.hpp: the hand-over from the worker thread to the game thread.
-- A promise and its future share a cell, here an index into `futures`: `none` until it is set.
-- Each method holds the lock for all that it does to `pending`, so a call is one step.
pub mod Answers
use mathlib.Core.Option
use open_scum_rcon.Base.{
  ℕ, zero, suc, ◌+◌, ◌-◌, ◌*◌, ◌/◌, ◌%◌, ◌^◌, ◌≤◌, ◌<◌, min, ◌≡◌, refl, sym, ap, ◌∙◌, subst, ◌≢◌,
  ◌↔◌, ◌⊎◌, inl, inr, Bool, true, false, not, ◌&&◌, ◌||◌, Option, none, some, List, [], ◌∷◌, ◌++◌,
  map, append-nil, append_assoc, arith, Bytes, IsBytes, text, same_text, same_text_iff, any_byte,
  all_bytes, ltb, leb, ◌==◌, if◌then◌else◌, ltb→lt, ltb→ge, leb→le, ==_iff, Bool-cases,
  Option-cases, length, get_or, take, drop, replicate, length-append, take-append-drop, length-take,
  length-drop, length-replicate, take_all, drop_all, take-append_eq, drop-append_eq,
  take-append_right, drop-drop, get_or-drop, get_or-take, get_or_inside, drop-append_right,
  get_or-append_left, get_or-append_right, All, All-append, All-append_left, All-append_right,
  All-take, All-drop, All-get_or, All-get_or_lt,
}
use open_scum_rcon.Authority.{CommandAuthority, is_rcon_authorized}

pub record PendingCommand : Type 0 where
  pub command_text : Bytes
  pub response : ℕ
  pub authority : CommandAuthority

pub record CommandQueue : Type 0 where
  pub pending : List PendingCommand
  pub futures : List (Option Bytes)

abbrev pub unauthorized : Bytes
unauthorized = text "error: authenticated RCON connection required"

-- The future is the index that is returned.
unfoldable pub enqueue : Bytes → CommandAuthority → CommandQueue → ℕ × CommandQueue
unfolding is_rcon_authorized
enqueue command_text authority q =
    let future = length q.futures in
    if not (is_rcon_authorized authority)
    then (future, record q { futures = q.futures ++ some unauthorized ∷ [] })
    else (
      future,
      record {
        pending =
            q.pending
            ++ (record { command_text = command_text; response = future; authority = authority }
                ∷ []);
        futures = q.futures ++ none ∷ [];
      },
    )

unfoldable pub drain : CommandQueue → List PendingCommand × CommandQueue
drain q = (q.pending, record q { pending = [] })

-- `promise::set_value`; `none` is the exception for a promise that has its value already.
unfoldable pub set_value : ℕ → Bytes → List (Option Bytes) → Option (List (Option Bytes))
set_value i value [] = none
set_value zero value (none ∷ futures) = some (some value ∷ futures)
set_value zero value (some old ∷ futures) = none
set_value (suc i) value (f ∷ futures) = Option.map (λ fs. f ∷ fs) (set_value i value futures)

-- What a waiting thread sees.
unfoldable pub answer : ℕ → List (Option Bytes) → Option Bytes
answer i futures = get_or futures i none
