-- ===== src/Trace/Bounded.antt =====
-- How much a trace records, whatever is called in whatever order.
use open_scum_rcon.Base.{
  ℕ, ◌≤◌, ◌<◌, ◌≡◌, refl, ◌≢◌, ◌⊎◌, inl, inr, false, not, ◌&&◌, ◌||◌, Option, none, some, List, [],
  ◌∷◌, ◌++◌, arith, Bytes, leb, ◌==◌, Bool-cases, Option-cases, length, take, length-append,
  length-take, All, All-append,
}
use mathlib.Core.Option
use open_scum_rcon.Trace.{
  max_calls, Trace, Written, not_opened, not_written, written, Log, joined, expire, flush, tick,
  start, stop, shutdown, Seen, capture, Event, observe, observe_all, Handler, keep, keep_record,
  begin_record, capture_execute,
}
use open_scum_rcon.Trace.Transparent.{IsSteady, observe-IsSteady, observe_all-IsSteady}

module _ (handler : Handler) where
  -- The handler never throws.
  abbrev Returns : Type 0
  Returns = (world : handler.World) → (handler.execute world).0 ≢ none

  -- Between two calls of the handler.
  pub record IsBounded (s : Trace) : Type 0 where
    pub few : s.calls ≤ max_calls
    pub counted : length s.pending ≤ s.calls
    pub short : All (λ r. length r ≤ 65536) s.pending
    pub spent : Returns → s.deadline ≢ 0 → s.calls < max_calls
    pub idle : s.active ≡ none

  disarmed : (s : Trace) → IsBounded s → IsBounded (record s { deadline = 0 })
  disarmed s v = record {
    few = v.few;
    counted = v.counted;
    short = v.short;
    spent = λ _ e. absurd (e refl);
    idle = v.idle;
  }

  flushed : (s : Trace) → IsBounded s → IsBounded (record s { pending = [] })
  flushed s v = record {
    few = v.few;
    counted = omega arith;
    short = _;
    spent = v.spent;
    idle = v.idle;
  }

  outcome_cases : (o : Written) → (o ≡ not_opened) ⊎ ((o ≡ not_written) ⊎ (o ≡ written))
  outcome_cases not_opened = inl refl
  outcome_cases not_written = inr (inl refl)
  outcome_cases written = inr (inr refl)

  pending_cases :
      (rs : List Bytes) → (rs ≡ []) ⊎ ((r : Bytes) × (more : List Bytes) × (rs ≡ r ∷ more))
  pending_cases [] = inl refl
  pending_cases (r ∷ more) = inr (r, more, refl)

  rearmed :
      (now thread : ℕ) (s : Trace)
      → IsBounded s
      → length s.pending ≡ 0
      → IsBounded (record s { game_thread = thread; calls = 0; deadline = now })
  rearmed now thread s v none_left = record {
    few = omega arith;
    counted = omega arith;
    short = v.short;
    spent = λ _ _. omega arith;
    idle = v.idle;
  }

  moved : (thread : ℕ) (s : Trace) → IsBounded s → IsBounded (record s { game_thread = thread })
  moved thread s v = record {
    few = v.few;
    counted = v.counted;
    short = v.short;
    spent = v.spent;
    idle = v.idle;
  }

  module _ (log : Log) where
    expire-IsBounded : (now : ℕ) (s : Trace) → IsBounded s → IsBounded (expire log now s)
    unfolding expire
    expire-IsBounded now s v = elim (Bool-cases (not (s.deadline == 0) && leb s.deadline now)) [
      | inl over ↦ rw over (disarmed s v)
      | inr going ↦ rw going v
    ]

    flush-IsBounded : (s : Trace) (file : log.File) → IsBounded s → IsBounded (flush log s file).0
    unfolding flush
    flush-IsBounded s file v = elim (pending_cases s.pending) [
      | inl nothing ↦ rw (nothing, flush) v
      | inr (r, more, e) ↦
          rw (e, flush)
            (elim (outcome_cases (log.append (joined s.pending) file).0) [
              | inl closed ↦ rw closed v
              | inr (inl failed) ↦ rw failed v
              | inr (inr done) ↦ rw done (flushed s v)
            ])
    ]

    tick-IsBounded :
        (now : ℕ) (s : Trace) (file : log.File) → IsBounded s → IsBounded (tick log now s file).0
    unfolding tick
    tick-IsBounded now s file v = flush-IsBounded (expire log now s) file (expire-IsBounded now s v)

    start-IsBounded :
        (now thread : ℕ) (baseline : Bytes) (s : Trace) (file : log.File)
        → IsBounded s
        → IsBounded (start log now thread baseline s file).1
    unfolding start
    start-IsBounded now thread baseline s file v =
        elim (Bool-cases (not s.hook_ok || not s.interface_hook_ok)) [
          | inl missing ↦ rw missing v
          | inr hooked ↦
              let ticked = tick-IsBounded now s file v in
              let s' = (tick log now s file).0 in
              rw hooked (elim (Bool-cases (length s'.pending == 0)) [
                | inr left ↦ rw left ticked
                | inl none_left ↦
                    rw none_left
                      (elim (outcome_cases (log.append baseline (tick log now s file).1).0) [
                        | inl closed ↦ rw (closed, start) ticked
                        | inr (inl failed) ↦ rw (failed, start) (moved thread s' ticked)
                        | inr (inr done) ↦
                            rw (done, start) (rearmed _ thread s' ticked (ground arith))
                      ])
              ])
        ]

  keep_short :
      (after : Option Bytes) (s : Trace)
      → length s.pending < s.calls
      → All (λ r. length r ≤ 65536) s.pending
      → (length (keep after s) ≤ s.calls) × All (λ r. length r ≤ 65536) (keep after s)
  unfolding keep
  keep_short none s counted short = (omega arith, short)
  keep_short (some rest) s counted short =
      let whole = Option.get_or s.active [] ++ rest in
      (
        omega (arith, length-append s.pending (take 65536 whole ∷ [])),
        All-append _ s.pending _ short (omega (arith, length-take 65536 whole), _),
      )

  keep_record-IsBounded :
      (after : Option Bytes) (s : Trace)
      → s.calls ≤ max_calls
      → length s.pending < s.calls
      → All (λ r. length r ≤ 65536) s.pending
      → IsBounded (keep_record after s)
  unfolding keep_record
  keep_record-IsBounded after s few counted short =
      let (kept, short') = keep_short after s counted short in
      elim (Bool-cases (leb max_calls s.calls)) [
        | inl last ↦ rw last (record {
          few = few;
          counted = kept;
          short = short';
          spent = λ _ e. absurd (e refl);
          idle = refl;
        })
        | inr more ↦ rw more (record {
          few = few;
          counted = kept;
          short = short';
          spent = λ _ _. ground arith;
          idle = refl;
        })
      ]

  steady-IsBounded : (s t : Trace) → IsSteady s t → IsBounded s → IsBounded t
  steady-IsBounded s t steady v = record {
    few = rw steady.calls v.few;
    counted = rw (steady.calls, steady.pending) v.counted;
    short = rw steady.pending v.short;
    spent = rw (steady.calls, steady.deadline) v.spent;
    idle = steady.active v.idle;
  }

  observe-IsBounded : (event : Event) (s : Trace) → IsBounded s → IsBounded (observe event s)
  observe-IsBounded event s v = steady-IsBounded s (observe event s) (observe-IsSteady event s) v

  unhooked : (s : Trace) → IsBounded s → IsBounded (record s { hook_ok = false })
  unhooked s v = record {
    few = v.few;
    counted = v.counted;
    short = v.short;
    spent = v.spent;
    idle = v.idle;
  }

  capture_execute-IsBounded :
      (seen : Seen) (world : handler.World) (s : Trace)
      → IsBounded s
      → IsBounded (capture_execute handler seen world s).2
  unfolding capture_execute capture
  capture_execute-IsBounded seen world s v = elim (Bool-cases (capture seen s)) [
    | inr passed ↦
        let events = (handler.execute world).2 in
        rw (passed, capture_execute)
          (steady-IsBounded s (observe_all events s) (observe_all-IsSteady events s) v)
    | inl on ↦
        let events = (handler.execute world).2 in
        let begun = begin_record seen s in
        let steady = observe_all-IsSteady events begun in
        let room : s.calls < max_calls = ground arith in
        elim (Option-cases (handler.execute world).0) [
          | inl threw ↦
              rw (on, threw, capture_execute)
                (record {
                  few = rw steady.calls (omega arith);
                  counted = rw (steady.calls, steady.pending) (omega (arith, v.counted));
                  short = rw steady.pending v.short;
                  spent = λ returns _. absurd (returns world threw);
                  idle = refl;
                })
          | inr (returned, e) ↦
              rw (on, e, capture_execute)
                (keep_record-IsBounded seen.after (observe_all events begun)
                  (rw steady.calls (omega arith))
                  (rw (steady.calls, steady.pending) (omega (arith, v.counted)))
                  (rw steady.pending v.short))
        ]
  ]

  module _ (log : Log) where
    pub record System : Type 0 where
      pub trace : Trace
      pub file : log.File
      pub world : handler.World

    -- A call of one of the functions.
    pub data Step (u : System) : System → Type 0 where
      ticks :
          (now : ℕ)
          → Step u (record u {
            trace = (tick log now u.trace u.file).0;
            file = (tick log now u.trace u.file).1;
          })
      starts :
          (now thread : ℕ) (baseline : Bytes)
          → Step u (record u {
            trace = (start log now thread baseline u.trace u.file).1;
            file = (start log now thread baseline u.trace u.file).2;
          })
      stops :
          (now : ℕ) (baseline : Bytes)
          → Step u (record u {
            trace = (stop log now baseline u.trace u.file).0;
            file = (stop log now baseline u.trace u.file).1;
          })
      shuts_down :
          (now : ℕ)
          → Step u (record u {
            trace = (shutdown log now u.trace u.file).0;
            file = (shutdown log now u.trace u.file).1;
          })
      executes :
          (seen : Seen)
          → Step u (record u {
            world = (capture_execute handler seen u.world u.trace).1;
            trace = (capture_execute handler seen u.world u.trace).2;
          })
      observes : (event : Event) → Step u (record u { trace = observe event u.trace })

    pub data Reach (u : System) : System → Type 0 where
      here : Reach u u
      next : {v w : System} → Reach u v → Step v w → Reach u w

    Step-IsBounded : (u v : System) → Step u v → IsBounded u.trace → IsBounded v.trace
    unfolding stop shutdown
    Step-IsBounded u v (ticks now) h = tick-IsBounded log now u.trace u.file h
    Step-IsBounded u v (starts now thread baseline) h =
        start-IsBounded log now thread baseline u.trace u.file h
    Step-IsBounded u v (stops now baseline) h = tick-IsBounded log now _ u.file (disarmed u.trace h)
    Step-IsBounded u v (shuts_down now) h =
        unhooked _ (tick-IsBounded log now _ u.file (disarmed u.trace h))
    Step-IsBounded u v (executes seen) h = capture_execute-IsBounded seen u.world u.trace h
    Step-IsBounded u v (observes event) h = observe-IsBounded event u.trace h

    -- From a trace that is within these bounds, whatever is called in whatever order: at most four
    -- calls are recorded since it was last armed, no more records wait to be written than calls were
    -- recorded, none of them is longer than 65536 bytes, and no record is left open, also where the
    -- handler throws; and if the handler never throws, the trace is not armed behind the fourth call.
    pub Reach-IsBounded : (u v : System) → Reach u v → IsBounded u.trace → IsBounded v.trace
    Reach-IsBounded u v here h = h
    Reach-IsBounded u v (next {v = w} r s) h = Step-IsBounded w v s (Reach-IsBounded u w r h)
