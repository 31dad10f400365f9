-- ===== src/Listener/Owners.antt =====
-- Who owns the thread of the listener, and that every step keeps it.
use open_scum_rcon.Base.{
  ◌≡◌, refl, ◌≢◌, inl, inr, Bool, true, false, Option, none, some, if◌then◌else◌, Bool-cases,
  Option-cases,
}
use open_scum_rcon.Listener.{
  Phase, starting, looping, accepting, serving, leaving, finished, Owner, free, joining, terminated,
  Listener, start, stop, join, no_socket, refused, listens, run_startup, run_test, run_accept,
  run_served, run_end, ThreadStep, starts, tests, accepts, fails, serves, ends, by_thread, by_start,
  by_stop, by_join, Reach, initial, next,
}

abbrev AsOwner : Owner → Bool → Option Phase → Type 0
AsOwner free true none = ⊥
AsOwner free true (some phase) = phase ≢ finished
AsOwner free false none = Unit
AsOwner free false (some phase) = phase ≡ finished
AsOwner joining true thread = ⊥
AsOwner joining false none = ⊥
AsOwner joining false (some phase) = Unit
AsOwner terminated running thread = Unit

abbrev pub IsSound : Listener → Type 0
IsSound s = AsOwner s.owner s.running s.thread

-- The thread may stand anywhere while it runs.
while_running :
    (owner : Owner) (running : Bool) (phase to : Phase)
    → AsOwner owner running (some phase)
    → phase ≢ finished
    → to ≢ finished
    → AsOwner owner running (some to)
while_running free true phase to h before after = after
while_running free false phase to h before after = absurd (before h)
while_running joining true phase to h before after = h
while_running joining false phase to h before after = h
while_running terminated running phase to h before after = tt

-- Where it ends, `running` is unset.
at_end :
    (owner : Owner) (running : Bool) (phase : Phase)
    → AsOwner owner running (some phase)
    → AsOwner owner false (some finished)
at_end free running phase h = refl
at_end joining true phase h = absurd h
at_end joining false phase h = tt
at_end terminated running phase h = tt

ThreadStep-IsSound : (s t : Listener) → ThreadStep s t → IsSound s → IsSound t
unfolding run_startup run_test run_accept run_served run_end
ThreadStep-IsSound s _ (starts no_socket e) h = at_end s.owner s.running starting (rw e at h)
ThreadStep-IsSound s _ (starts (refused socket) e) h = at_end s.owner s.running starting (rw e at h)
ThreadStep-IsSound s _ (starts (listens socket) e) h =
    while_running s.owner s.running starting looping (rw e at h) (λ e. cc) (λ e. cc)
ThreadStep-IsSound s _ (tests e) h = elim (Bool-cases s.running) [
  | inl runs ↦
      let to : (if s.running then accepting else leaving) ≡ accepting = rw runs refl in
      rw to (while_running s.owner s.running looping accepting (rw e at h) (λ e. cc) (λ e. cc))
  | inr stopped ↦
      let to : (if s.running then accepting else leaving) ≡ leaving = rw stopped refl in
      rw to (while_running s.owner s.running looping leaving (rw e at h) (λ e. cc) (λ e. cc))
]
ThreadStep-IsSound s _ (accepts e open_) h =
    while_running s.owner s.running accepting serving (rw e at h) (λ e. cc) (λ e. cc)
ThreadStep-IsSound s _ (fails e) h =
    while_running s.owner s.running accepting leaving (rw e at h) (λ e. cc) (λ e. cc)
ThreadStep-IsSound s _ (serves e) h =
    while_running s.owner s.running serving looping (rw e at h) (λ e. cc) (λ e. cc)
ThreadStep-IsSound s _ (ends e) h = at_end s.owner s.running leaving (rw e at h)

starting_not_finished : starting ≢ finished
starting_not_finished e = cc

start-IsSound : (s : Listener) → IsSound s → s.owner ≡ free → IsSound (start s).1
unfolding start
start-IsSound s h e = elim (Bool-cases s.running) [
  | inl runs ↦ rw runs (rw runs at h)
  | inr idle ↦ elim (Option-cases s.thread) [
    | inl nothing ↦ rw (idle, nothing, e, start) starting_not_finished
    | inr (phase, there) ↦ rw (idle, there, start) tt
  ]
]

stop-IsSound : (s : Listener) → IsSound s → s.owner ≡ free → IsSound (stop s)
unfolding stop
stop-IsSound s h e = elim (Bool-cases s.running) [
  | inr idle ↦ rw idle (rw idle at h)
  | inl runs ↦ elim (Option-cases s.thread) [
    | inl nothing ↦ rw (runs, nothing, stop) tt
    | inr (phase, there) ↦ rw (runs, there, stop) tt
  ]
]

join-IsSound :
    (s : Listener) → IsSound s → s.owner ≡ joining → s.thread ≡ some finished → IsSound (join s)
unfolding join
join-IsSound s h e f = elim (Bool-cases s.running) [
  | inl runs ↦ absurd (rw (e, runs) at h)
  | inr idle ↦ rw (f, idle, join) tt
]

pub Reach-IsSound : (s : Listener) → Reach s → IsSound s
Reach-IsSound _ initial = tt
Reach-IsSound _ (next s _ reach (by_thread t step)) =
    ThreadStep-IsSound s t step (Reach-IsSound s reach)
Reach-IsSound _ (next s _ reach (by_start e)) = start-IsSound s (Reach-IsSound s reach) e
Reach-IsSound _ (next s _ reach (by_stop e)) = stop-IsSound s (Reach-IsSound s reach) e
Reach-IsSound _ (next s _ reach (by_join e f)) = join-IsSound s (Reach-IsSound s reach) e f

-- One step of a thread that has not ended.
