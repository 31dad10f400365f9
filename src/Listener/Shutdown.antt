-- ===== src/Listener/Shutdown.antt =====
-- What `stop` and the destructor do to the thread of the listener.
use open_scum_rcon.Base.{
  ℕ, ◌<◌, ◌≡◌, refl, ap, ◌∙◌, ◌⊎◌, inl, inr, true, false, Option, none, some, arith, if◌then◌else◌,
  Bool-cases, Option-cases,
}
use open_scum_rcon.Listener.{
  Phase, starting, looping, accepting, serving, leaving, finished, free, joining, terminated,
  Listener, stop, join, destroy_members, no_socket, refused, listens, run_startup, run_test,
  run_accept, run_served, run_end, ThreadStep, starts, tests, accepts, fails, serves, ends, OwnStep,
  begins, looks, wakes, leaves, Reach,
}
use open_scum_rcon.Listener.Owners.{Reach-IsSound}
use open_scum_rcon.Listener.Waiting.{IsStopped, stop-IsStopped, ThreadStep-IsStopped}

-- How many steps the thread still takes at most once `running` is unset.
abbrev pub remaining : Option Phase → ℕ
remaining none = 0
remaining (some finished) = 0
remaining (some leaving) = 1
remaining (some looping) = 2
remaining (some starting) = 3
remaining (some serving) = 3
remaining (some accepting) = 4

-- Every step of the thread of a listener that was stopped leads it nearer to its end.
pub ThreadStep-remaining :
    (s t : Listener)
    → ThreadStep s t
    → s.running ≡ false
    → (remaining t.thread < remaining s.thread) × (t.running ≡ false) × (t.owner ≡ s.owner)
unfolding run_startup run_test run_accept run_served run_end
ThreadStep-remaining s _ (starts no_socket e) r = rw e (omega arith, refl, refl)
ThreadStep-remaining s _ (starts (refused socket) e) r = rw e (omega arith, refl, refl)
ThreadStep-remaining s _ (starts (listens socket) e) r = rw e (omega arith, r, refl)
ThreadStep-remaining s _ (tests e) r =
    let same : some (if s.running then accepting else leaving) ≡ some leaving = rw r refl in
    rw (e, same) (omega arith, r, refl)
ThreadStep-remaining s _ (accepts e open_) r = rw e (omega arith, r, refl)
ThreadStep-remaining s _ (fails e) r = rw e (omega arith, r, refl)
ThreadStep-remaining s _ (serves e) r = rw e (omega arith, r, refl)
ThreadStep-remaining s _ (ends e) r = rw e (omega arith, refl, refl)

-- Steps of the thread alone.
pub data ThreadSteps : Listener → Listener → Type 0 where
  settled : (s : Listener) → ThreadSteps s s
  further : (s mid t : Listener) → ThreadStep s mid → ThreadSteps mid t → ThreadSteps s t

own_is_step : (s t : Listener) → OwnStep s t → ThreadStep s t
own_is_step s _ (begins startup e) = starts startup e
own_is_step s _ (looks e) = tests e
own_is_step s _ (wakes e closed) = fails e
own_is_step s _ (leaves e) = ends e

serving_waits : (s t : Listener) → s.thread ≡ some serving → OwnStep s t → ⊥
serving_waits s _ e (begins startup e') = cc
serving_waits s _ e (looks e') = cc
serving_waits s _ e (wakes e' closed) = cc
serving_waits s _ e (leaves e') = cc

ThreadSteps-IsStopped :
    (served : Type 0) (s t : Listener) → ThreadSteps s t → IsStopped served s → IsStopped served t
ThreadSteps-IsStopped served s _ (settled _) h = h
ThreadSteps-IsStopped served s t (further _ mid _ step steps) h =
    ThreadSteps-IsStopped served mid t steps (ThreadStep-IsStopped served s mid step h)

stop-joins :
    (s : Listener) (phase : Phase)
    → s.running ≡ true
    → s.thread ≡ some phase
    → (stop s).owner ≡ joining
unfolding stop
stop-joins s phase runs there = rw (runs, there, stop) refl

stop-idle : (s : Listener) → s.running ≡ false → stop s ≡ s
unfolding stop
stop-idle s idle = simp idle

join-finished :
    (t : Listener) → t.thread ≡ some finished → ((join t).thread ≡ none) × ((join t).owner ≡ free)
unfolding join
join-finished t e = rw (e, join) (refl, refl)

destroy_members-none : (u : Listener) → u.thread ≡ none → destroy_members u ≡ u
unfolding destroy_members
destroy_members-none u e = simp (e, destroy_members)

destroy_members-some :
    (u : Listener) (phase : Phase) → u.thread ≡ some phase → (destroy_members u).owner ≡ terminated
unfolding destroy_members
destroy_members-some u phase e = rw (e, destroy_members) refl

-- Where a thread that was told to stop stands: at its end, in a connection that was there before, or
-- before a step of its own that leads it nearer to its end.
abbrev pub Settles : Type 0 → Listener → Type 0
Settles served t =
    ((t.thread ≡ some finished)
      × ((join t).thread ≡ none)
      × ((destroy_members (join t)).owner ≡ free))
    ⊎ (((t.thread ≡ some serving) × served × ((u : Listener) → OwnStep t u → ⊥))
        ⊎ ((u : Listener) × OwnStep t u × (remaining u.thread < remaining t.thread)))

nearer : (served : Type 0) (t u : Listener) → t.running ≡ false → OwnStep t u → Settles served t
nearer served t u stopped step =
    inr (inr (u, step, (ThreadStep-remaining t u (own_is_step t u step) stopped).0))

phase-Settles :
    (served : Type 0) (t : Listener) (phase : Phase)
    → t.thread ≡ some phase
    → IsStopped served t
    → Settles served t
phase-Settles served t starting e h = nearer served t _ h.stopped (begins no_socket e)
phase-Settles served t looping e h = nearer served t _ h.stopped (looks e)
phase-Settles served t accepting e h =
    let waits = h.waits in nearer served t _ h.stopped (wakes e (rw e at waits))
phase-Settles served t serving e h =
    let waits = h.waits in inr (inl (e, rw e at waits, λ u step. serving_waits t u e step))
phase-Settles served t leaving e h = nearer served t _ h.stopped (leaves e)
phase-Settles served t finished e h =
    let (gone, is_free) = join-finished t e in
    inl (e, gone, ap (λ u. u.owner) (destroy_members-none (join t) gone) ∙ is_free)

IsStopped-Settles : (served : Type 0) (t : Listener) → IsStopped served t → Settles served t
IsStopped-Settles served t h = elim (Option-cases t.thread) [
  | inl nothing ↦ let waits = h.waits in absurd (rw nothing at waits)
  | inr (phase, there) ↦ phase-Settles served t phase there h
]

-- The three ends of a listener whose owner is not waiting. If it runs, `stop` lets the owner join the
-- thread; whatever steps the thread takes from there, it is at its end, where join returns and the
-- destructor does no harm, or has a step of its own that leads it nearer to its end, without a
-- client or a failure of the network; or it still serves the connection that it served when `stop`
-- was called, and then it has no such step: it waits for what the client does. If the listener
-- was never started or was stopped before, `stop` and the destructor do nothing; but if `run`
-- has ended by itself, as it does where a socket cannot be made, bound or listened on, `stop`
-- returns at once and the destructor of the thread, which was never joined, ends the program.
pub destroy_cases :
    (s : Listener)
    → Reach s
    → s.owner ≡ free
    → ((s.running ≡ true)
        × ((stop s).owner ≡ joining)
        × ((t : Listener) → ThreadSteps (stop s) t → Settles (s.thread ≡ some serving) t))
      ⊎ (((s.running ≡ false) × (s.thread ≡ none) × (destroy_members (stop s) ≡ s))
          ⊎ ((s.running ≡ false)
              × (s.thread ≡ some finished)
              × ((destroy_members (stop s)).owner ≡ terminated)))
destroy_cases s reach e =
    let sound = Reach-IsSound s reach in
    elim (Bool-cases s.running) [
      | inl runs ↦ elim (Option-cases s.thread) [
        | inl nothing ↦ absurd (rw (e, runs, nothing) at sound)
        | inr (phase, there) ↦ inl (
          runs,
          stop-joins s phase runs there,
          λ t steps. IsStopped-Settles (s.thread ≡ some serving) t (
              ThreadSteps-IsStopped (s.thread ≡ some serving) (stop s) t steps
                (stop-IsStopped s phase reach runs there)),
        )
      ]
      | inr idle ↦ elim (Option-cases s.thread) [
        | inl nothing ↦ inr (
            inl (
              idle,
              nothing,
              ap destroy_members (stop-idle s idle) ∙ destroy_members-none s nothing,
            ))
        | inr (phase, there) ↦
            let over : phase ≡ finished = rw (e, idle, there) at sound in
            inr (
              inr (
                idle,
                there ∙ ap some over,
                ap (λ u. (destroy_members u).owner) (stop-idle s idle)
                    ∙ destroy_members-some s phase there,
              ))
      ]
    ]
