-- ===== src/Mod/Order.antt =====
-- The worker thread's `enqueue` interleaved with the game thread's rounds.
use open_scum_rcon.Base.{ℕ, ◌≡◌, refl, sym, ◌∙◌, some, List, [], ◌∷◌, ◌++◌, append-nil, Bytes}
use mathlib.Core.Option
use open_scum_rcon.Authority.{CommandAuthority}
use open_scum_rcon.Queue.{PendingCommand, enqueue, drain, answer}
use open_scum_rcon.Queue.Answers.{unset, Awaited, set_oldest, enqueue-Awaited}
use open_scum_rcon.Mod.{Game, State, respond, answer_item, answer_all, drain_and_dispatch}

module _ (game : Game) where
  -- Every promise that waits belongs to the command that stands at its place.
  abbrev pub IsServed : List PendingCommand → State game → Type 0
  IsServed taken s = Awaited (taken ++ s.queue.pending) s.queue.futures

  abbrev pub Remembers : State game → State game → Type 0
  Remembers s t =
      (j : ℕ) (old : Bytes)
      → answer j s.queue.futures ≡ some old
      → answer j t.queue.futures ≡ some old

  -- One round: it cannot fail, it gives the item the reply of `respond`, and leaves the others.
  record IsAnswered (item : PendingCommand) (items : List PendingCommand) (s : State game)
      : Type 0 where
    after : State game
    answers : answer_item game item s ≡ some after
    served : IsServed items after
    replied : answer item.response after.queue.futures ≡ some (respond game item s.flags s.world).0
    remembers : Remembers s after
    queued : after.queue.pending ≡ s.queue.pending

  answer_item-IsAnswered :
      (item : PendingCommand) (items : List PendingCommand) (s : State game)
      → IsServed (item ∷ items) s
      → IsAnswered item items s
  unfolding answer_item
  answer_item-IsAnswered item items s h =
      let (reply, flags, world) = respond game item s.flags s.world in
      let (futures, sets, rest, found, keeps) =
        set_oldest reply item (items ++ s.queue.pending) s.queue.futures h in
      record {
        after = record s {
          queue = record s.queue { futures = futures };
          flags = flags;
          world = world;
        };
        answers = rw sets;
        served = rest;
        replied = found;
        remembers = keeps;
        queued = refl;
      }

  record IsFinished (items : List PendingCommand) (s : State game) : Type 0 where
    after : State game
    answers : answer_all game items s ≡ some after
    served : IsServed [] after
    remembers : Remembers s after
    queued : after.queue.pending ≡ s.queue.pending

  answer_all-IsFinished :
      (items : List PendingCommand) (s : State game) → IsServed items s → IsFinished items s
  unfolding answer_all Option.bind
  answer_all-IsFinished [] s h = record {
    after = s;
    answers = refl;
    served = h;
    remembers = λ j old e. e;
    queued = refl;
  }
  answer_all-IsFinished (item ∷ items) s h =
      let one = answer_item-IsAnswered item items s h in
      let rest = answer_all-IsFinished items one.after one.served in
      record {
        after = rest.after;
        answers = rw one.answers rest.answers;
        served = rest.served;
        remembers = λ j old e. rest.remembers j old (one.remembers j old e);
        queued = rest.queued ∙ one.queued;
      }

  -- Where the promises that wait are those of the queued commands in order, a tick that nothing
  -- interrupts never throws, empties the queue, gives every promise that was waiting its value,
  -- and keeps the values that were given before.
  pub drain_and_dispatch_answers :
      (s : State game)
      → Awaited s.queue.pending s.queue.futures
      → (t : State game) × (drain_and_dispatch game s ≡ some t)
        × (t.queue.pending ≡ [])
        × (unset 0 t.queue.futures ≡ [])
        × Remembers s t
  unfolding drain_and_dispatch drain
  drain_and_dispatch_answers s h =
      let f =
        answer_all-IsFinished s.queue.pending (record s { queue = record s.queue { pending = [] } })
          (rw append-nil h) in
      (f.after, f.answers, f.queued, sym (rw f.queued at f.served), f.remembers)

  -- The two threads: `taken` is what the game thread has drained and not answered yet.
  pub record System : Type 0 where
    pub state : State game
    pub taken : List PendingCommand

  pub data Step (u v : System) : Type 0 where
    enqueues :
        (command_text : Bytes) (authority : CommandAuthority)
        → v ≡ record u {
          state = record u.state { queue = (enqueue command_text authority u.state.queue).1 };
        }
        → Step u v
    drains :
        u.taken ≡ []
        → v ≡ record {
          state = record u.state { queue = (drain u.state.queue).1 };
          taken = (drain u.state.queue).0;
        }
        → Step u v
    answers :
        (item : PendingCommand) (items : List PendingCommand)
        → u.taken ≡ item ∷ items
        → answer_item game item u.state ≡ some v.state
        → v.taken ≡ items
        → Step u v

  pub data Reach (u : System) : System → Type 0 where
    here : Reach u u
    next : {v w : System} → Reach u v → Step v w → Reach u w

  abbrev pub IsSound : System → Type 0
  IsSound u = IsServed u.taken u.state

  Step-IsSound : (u v : System) → Step u v → IsSound u → IsSound v × Remembers u.state v.state
  unfolding drain
  Step-IsSound u v (enqueues command_text authority e) h =
      let added = enqueue-Awaited command_text authority u.taken u.state.queue h in rw e added
  Step-IsSound u v (drains e d) h = rw d (rw append-nil (rw e at h), λ j old a. a)
  Step-IsSound u v (answers item items e a t) h =
      let one = answer_item-IsAnswered item items u.state (rw e at h) in
      let same : v.state ≡ one.after = cc (one.answers) in rw (t, same) (one.served, one.remembers)

  can_answer :
      (v : System) (item : PendingCommand) (items : List PendingCommand)
      → v.taken ≡ item ∷ items
      → IsSound v
      → (t : State game) × (answer_item game item v.state ≡ some t)
        × (answer item.response t.queue.futures
            ≡ some (respond game item v.state.flags v.state.world).0)
  can_answer v item items e h =
      let one = answer_item-IsAnswered item items v.state (rw e at h) in
      (one.after, one.answers, one.replied)

  run-IsSound : {u v : System} → Reach u v → IsSound u → IsSound v × Remembers u.state v.state
  run-IsSound here h = (h, λ j old e. e)
  run-IsSound (next {v = v} {w = w} r s) h =
      let (before, kept) = run-IsSound r h in
      let (after, keeps) = Step-IsSound v w s before in
      (after, λ j old e. keeps j old (kept j old e))

  -- From a state in which every promise that waits belongs to a command that is drained or queued,
  -- in the same order, and however the calls of `enqueue` and the rounds of the game thread are
  -- interleaved: this holds again; a value once given never changes; and the oldest drained
  -- command can always be answered, with the reply that `respond` gives at that moment.
  pub Reach-IsSound :
      (u v : System)
      → Reach u v
      → IsSound u
      → IsSound v
        × Remembers u.state v.state
        × ((item : PendingCommand) (items : List PendingCommand)
            → v.taken ≡ item ∷ items
            → (t : State game) × (answer_item game item v.state ≡ some t)
              × (answer item.response t.queue.futures
                  ≡ some (respond game item v.state.flags v.state.world).0))
  Reach-IsSound u v r h =
      let (sound, kept) = run-IsSound r h in
      (sound, kept, λ item items e. can_answer v item items e sound)
