-- ===== src/Trace/Transparent.antt =====
-- What tracing leaves alone.
use open_scum_rcon.Base.{
  ◌≡◌, refl, ◌∙◌, inl, inr, false, none, List, [], ◌∷◌, leb, Bool-cases, Option-cases,
}
use open_scum_rcon.Trace.{
  Trace, observe_interface, observe_effect, Seen, capture, Event, interface, effect, observe,
  observe_all, Handler, capture_execute,
}

-- What observing leaves alone.
pub record IsSteady (s t : Trace) : Type 0 where
  pub calls : t.calls ≡ s.calls
  pub pending : t.pending ≡ s.pending
  pub deadline : t.deadline ≡ s.deadline
  pub active : s.active ≡ none → t.active ≡ none

pub observe-IsSteady : (event : Event) (s : Trace) → IsSteady s (observe event s)
unfolding observe observe_interface observe_effect
observe-IsSteady (interface event) s = elim (Option-cases s.active) [
  | inl e ↦
      rw (e, observe_interface)
        (record { calls = refl; pending = refl; deadline = refl; active = λ _. e })
  | inr (a, e) ↦
      rw (e, observe_interface)
        (elim (Bool-cases (leb 8 s.interface_events)) [
          | inl many ↦
              rw many (record { calls = refl; pending = refl; deadline = refl; active = λ n. cc })
          | inr some_left ↦
              rw some_left
                (record { calls = refl; pending = refl; deadline = refl; active = λ n. cc })
        ])
]
observe-IsSteady (effect event) s = elim (Option-cases s.active) [
  | inl e ↦
      rw (e, observe_effect)
        (record { calls = refl; pending = refl; deadline = refl; active = λ _. e })
  | inr (a, e) ↦
      rw (e, observe_effect)
        (record { calls = refl; pending = refl; deadline = refl; active = λ n. cc })
]

pub observe_all-IsSteady : (events : List Event) (s : Trace) → IsSteady s (observe_all events s)
unfolding observe_all
observe_all-IsSteady [] s = record {
  calls = refl;
  pending = refl;
  deadline = refl;
  active = λ e. e;
}
observe_all-IsSteady (event ∷ events) s =
    let one = observe-IsSteady event s in
    let rest = observe_all-IsSteady events (observe event s) in
    record {
      calls = rest.calls ∙ one.calls;
      pending = rest.pending ∙ one.pending;
      deadline = rest.deadline ∙ one.deadline;
      active = λ e. rest.active (one.active e);
    }

-- The detour gives the result of the handler, throws where the handler throws, and leaves the game as
-- the handler does, whether or not the call is recorded; where it is not, the trace keeps its calls, its records and its deadline.
pub capture_execute_transparent :
    (handler : Handler) (seen : Seen) (world : handler.World) (s : Trace)
    → ((capture_execute handler seen world s).0 ≡ (handler.execute world).0)
      × ((capture_execute handler seen world s).1 ≡ (handler.execute world).1)
      × (capture seen s ≡ false
          → (((capture_execute handler seen world s).2.calls ≡ s.calls)
              × ((capture_execute handler seen world s).2.pending ≡ s.pending)
              × ((capture_execute handler seen world s).2.deadline ≡ s.deadline)))
unfolding capture_execute
capture_execute_transparent handler seen world s =
    let steady = observe_all-IsSteady (handler.execute world).2 s in
    elim (Bool-cases (capture seen s)) [
      | inl on ↦ elim (Option-cases (handler.execute world).0) [
        | inl threw ↦ rw (on, threw, capture_execute) (refl, refl, λ e. cc)
        | inr (returned, e) ↦ rw (on, e, capture_execute) (refl, refl, λ e. cc)
      ]
      | inr off ↦ rw off (refl, refl, λ e. (steady.calls, steady.pending, steady.deadline))
    ]
