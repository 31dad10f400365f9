-- ===== src/Listener/Waiting.antt =====
-- What the thread of a listener that was stopped waits for.
use open_scum_rcon.Base.{
  ℕ, ◌≡◌, refl, inl, inr, Bool, true, false, Option, none, some, arith, any_byte, Bool-cases,
  Option-cases,
}
use open_scum_rcon.Listener.{
  Phase, starting, looping, accepting, serving, leaving, finished, Listener, start, stop, join,
  no_socket, refused, listens, run_startup, run_test, run_accept, run_served, run_end, is_closed,
  ThreadStep, starts, tests, accepts, fails, serves, ends, by_thread, by_start, by_stop, by_join,
  Reach, initial, next,
}

-- In the loop of `run` the stored socket is the thread's own.
abbrev Stored : Option Phase → Option ℕ → ℕ → Type 0
Stored none stored own = Unit
Stored (some starting) stored own = Unit
Stored (some finished) stored own = Unit
Stored (some _) stored own = stored ≡ some own

abbrev IsStored : Listener → Type 0
IsStored s = Stored s.thread s.listen_socket s.own_socket

ThreadStep-IsStored : (s t : Listener) → ThreadStep s t → IsStored s → IsStored t
unfolding run_startup run_test run_accept run_served run_end
ThreadStep-IsStored s _ (starts no_socket e) h = tt
ThreadStep-IsStored s _ (starts (refused socket) e) h = tt
ThreadStep-IsStored s _ (starts (listens socket) e) h = refl
ThreadStep-IsStored s _ (tests e) h = elim (Bool-cases s.running) [
  | inl runs ↦ rw runs (rw e at h)
  | inr idle ↦ rw idle (rw e at h)
]
ThreadStep-IsStored s _ (accepts e open_) h = rw e at h
ThreadStep-IsStored s _ (fails e) h = rw e at h
ThreadStep-IsStored s _ (serves e) h = rw e at h
ThreadStep-IsStored s _ (ends e) h = tt

start-IsStored : (s : Listener) → IsStored s → IsStored (start s).1
unfolding start
start-IsStored s h = elim (Bool-cases s.running) [
  | inl runs ↦ rw runs h
  | inr idle ↦ elim (Option-cases s.thread) [
    | inl nothing ↦ rw (idle, nothing, start) tt
    | inr (phase, there) ↦ rw (idle, there, start) h
  ]
]

stop-IsStored : (s : Listener) → IsStored s → IsStored (stop s)
unfolding stop
stop-IsStored s h = elim (Bool-cases s.running) [ inr idle ↦ rw idle h | inl runs ↦ rw runs h ]

join-IsStored : (s : Listener) → s.thread ≡ some finished → IsStored (join s)
unfolding join
join-IsStored s f = rw (f, join) tt

Reach-IsStored : (s : Listener) → Reach s → IsStored s
Reach-IsStored _ initial = tt
Reach-IsStored _ (next s _ reach (by_thread t step)) =
    ThreadStep-IsStored s t step (Reach-IsStored s reach)
Reach-IsStored _ (next s _ reach (by_start e)) = start-IsStored s (Reach-IsStored s reach)
Reach-IsStored _ (next s _ reach (by_stop e)) = stop-IsStored s (Reach-IsStored s reach)
Reach-IsStored _ (next s _ reach (by_join e f)) = join-IsStored s f

-- Once it is stopped: in accept the socket is closed, and only a connection that was there goes on.
abbrev Waits : Type 0 → Option Phase → Bool → Type 0
Waits served none closed = ⊥
Waits served (some accepting) closed = closed ≡ true
Waits served (some serving) closed = served
Waits served (some _) closed = Unit

pub record IsStopped (served : Type 0) (t : Listener) : Type 0 where
  pub stopped : t.running ≡ false
  pub waits : Waits served t.thread (is_closed t.own_socket t.closed)

stop-Waits :
    (s : Listener) (phase : Phase)
    → IsStored s
    → s.running ≡ true
    → s.thread ≡ some phase
    → Waits
        (s.thread ≡ some serving)
        (stop s).thread
        (is_closed (stop s).own_socket (stop s).closed)
unfolding stop any_byte
stop-Waits s starting h runs there = rw (runs, there, stop) tt
stop-Waits s looping h runs there = rw (runs, there, stop) tt
stop-Waits s accepting h runs there =
    let stored : s.listen_socket ≡ some s.own_socket = rw there at h in
    rw (runs, there, stored, stop) (ground arith)
stop-Waits s serving h runs there = rw (runs, there, stop) refl
stop-Waits s leaving h runs there = rw (runs, there, stop) tt
stop-Waits s finished h runs there = rw (runs, there, stop) tt

stop-stopped : (s : Listener) → s.running ≡ true → (stop s).running ≡ false
unfolding stop
stop-stopped s runs = rw runs refl

pub stop-IsStopped :
    (s : Listener) (phase : Phase)
    → Reach s
    → s.running ≡ true
    → s.thread ≡ some phase
    → IsStopped (s.thread ≡ some serving) (stop s)
stop-IsStopped s phase reach runs there = record {
  stopped = stop-stopped s runs;
  waits = stop-Waits s phase (Reach-IsStored s reach) runs there;
}

pub ThreadStep-IsStopped :
    (served : Type 0) (s t : Listener) → ThreadStep s t → IsStopped served s → IsStopped served t
unfolding run_startup run_test run_accept run_served run_end
ThreadStep-IsStopped served s _ (starts no_socket e) h = record { stopped = refl; waits = tt }
ThreadStep-IsStopped served s _ (starts (refused socket) e) h = record {
  stopped = refl;
  waits = tt;
}
ThreadStep-IsStopped served s _ (starts (listens socket) e) h = record {
  stopped = h.stopped;
  waits = tt;
}
ThreadStep-IsStopped served s _ (tests e) h = record {
  stopped = h.stopped;
  waits = rw h.stopped tt;
}
ThreadStep-IsStopped served s _ (accepts e open_) h =
    let waits = h.waits in absurd (cc (rw e at waits, open_))
ThreadStep-IsStopped served s _ (fails e) h = record { stopped = h.stopped; waits = tt }
ThreadStep-IsStopped served s _ (serves e) h = record { stopped = h.stopped; waits = tt }
ThreadStep-IsStopped served s _ (ends e) h = record { stopped = refl; waits = tt }
