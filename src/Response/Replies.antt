-- ===== src/Response/Replies.antt =====
-- What a scope holds after all messages of a command: the whole reply exactly when it fits.
use open_scum_rcon.Base.{
  ℕ, ◌+◌, ◌-◌, ◌≤◌, ◌<◌, ◌≡◌, refl, sym, ap, ◌∙◌, ◌⊎◌, inl, inr, Bool, true, false, List, [], ◌∷◌,
  ◌++◌, arith, Bytes, length, length-append, take_all,
}
use open_scum_rcon.Utf8.{utf8_prefix_size}
use open_scum_rcon.Utf8.Boundary.{utf8_prefix_size_greatest}
use open_scum_rcon.Response.{
  ResponseScope, fresh, needs_break, append_prefix, collect, max_bytes, max_messages,
}
use open_scum_rcon.Response.Collect.{
  joined, join_all, joined-break, joined-plain, counted, broken, collect_cases, collect-IsLossless,
}

module _ (can_hold : ℕ → Bool) where
  -- The messages that one command sends while its scope is the innermost.
  unfoldable pub collect_all : List Bytes → ResponseScope → ResponseScope
  collect_all [] scope = scope
  collect_all (m ∷ messages) scope = collect_all messages (collect can_hold m scope)

  pub record IsWhole (messages : List Bytes) (scope r : ResponseScope) : Type 0 where
    pub joins : r.output ≡ join_all scope.output messages
    pub was_whole : scope.cut ≡ false
    pub was_sound : scope.failed ≡ false
    pub counts : r.count ≡ scope.count + length messages
    pub few : scope.count ≤ max_messages → r.count ≤ max_messages

  all_lossless :
      (messages : List Bytes) (scope : ResponseScope)
      → (collect_all messages scope).cut ≡ false
      → (collect_all messages scope).failed ≡ false
      → IsWhole messages scope (collect_all messages scope)
  unfolding collect_all
  all_lossless [] scope c f = record {
    joins = refl;
    was_whole = c;
    was_sound = f;
    counts = omega arith;
    few = λ n. n;
  }
  all_lossless (m ∷ messages) scope c f =
      let rest = all_lossless messages (collect can_hold m scope) c f in
      let step = collect-IsLossless can_hold m scope rest.was_whole rest.was_sound in
      record {
        joins = rest.joins ∙ ap (λ o. join_all o messages) step.joins;
        was_whole = step.was_whole;
        was_sound = step.was_sound;
        counts = omega (arith, rest.counts, step.counts);
        few = λ _. rest.few (omega (arith, step.counts, step.few));
      }

  -- A reply that is neither marked as cut nor as failed is the join of all messages, in order and
  -- whole, and there were at most 128 of them.
  pub collect_all_lossless :
      (key : ℕ) (messages : List Bytes)
      → (collect_all messages (fresh key)).cut ≡ false
      → (collect_all messages (fresh key)).failed ≡ false
      → ((collect_all messages (fresh key)).output ≡ join_all [] messages)
        × (length messages ≤ max_messages)
  collect_all_lossless key messages c f =
      let w = all_lossless messages (fresh key) c f in
      (w.joins, omega (arith, w.counts, w.few (omega arith)))

  length-joined-ge :
      (output message : Bytes) → length output + length message ≤ length (joined output message)
  unfolding joined
  length-joined-ge output [] = omega arith
  length-joined-ge [] (m ∷ message) = omega arith
  length-joined-ge (o ∷ output) (m ∷ message) = ground (
    arith,
    length-append (o ∷ output) (m ∷ message),
    length-append (o ∷ output) (b'\n' ∷ m ∷ message),
  )

  length-join_all-ge :
      (output : Bytes) (messages : List Bytes) → length output ≤ length (join_all output messages)
  length-join_all-ge output [] = omega arith
  length-join_all-ge output (m ∷ messages) =
      omega (arith, length-joined-ge output m, length-join_all-ge (joined output m) messages)

  -- Room for the whole message, and memory for it.
  append_prefix_whole :
      (message : Bytes) (scope : ResponseScope)
      → ((n : ℕ) → can_hold n ≡ true)
      → length scope.output + length message ≤ max_bytes
      → append_prefix can_hold message scope ≡ record scope { output = scope.output ++ message }
  unfolding append_prefix
  append_prefix_whole message scope m h =
      ground (arith, fits, take_all n message, m (length scope.output + n))
    where
      n : ℕ
      n = utf8_prefix_size message (max_bytes - length scope.output)

      fits : n ≡ length message
      fits =
          let g = utf8_prefix_size_greatest message (max_bytes - length scope.output) in
          omega
            (arith, g.0, g.3 (length message) (inr (inl (omega arith))) (omega arith) (omega arith))

  collect_whole :
      (message : Bytes) (scope : ResponseScope)
      → ((n : ℕ) → can_hold n ≡ true)
      → scope.count + 1 ≤ max_messages
      → length (joined scope.output message) ≤ max_bytes
      → collect can_hold message scope
        ≡ record scope { count = scope.count + 1; output = joined scope.output message }
  collect_whole message scope m few room =
      collect_cases can_hold message
        (λ r. r ≡ record scope { count = scope.count + 1; output = joined scope.output message })
        scope refused (λ e. cc (m (length scope.output + 1), e))
        (λ b ne h.
          let size = ap length (joined-break scope.output message b) in
          append_prefix_whole message (broken scope) m
            (omega (arith, size, length-append (scope.output ++ b'\n' ∷ []) message))
          ∙ ap (λ o. record scope { count = scope.count + 1; output = o })
              (sym (joined-break scope.output message b)))
        (λ b h.
          let size = ap length (joined-plain scope.output message b) in
          append_prefix_whole message (counted scope) m
            (omega (arith, size, length-append scope.output message))
          ∙ ap (λ o. record scope { count = scope.count + 1; output = o })
              (sym (joined-plain scope.output message b)))
    where
      refused :
          (max_messages < scope.count + 1)
            ⊎ ((needs_break scope.output message ≡ true) × (length scope.output ≡ max_bytes))
          → record scope { count = scope.count + 1; cut = true }
            ≡ record scope { count = scope.count + 1; output = joined scope.output message }
      refused (inl many) = absurd (omega arith)
      refused (inr (b, full)) = absurd (
          omega (
            arith,
            ap length (joined-break scope.output message b),
            length-append (scope.output ++ b'\n' ∷ []) message,
            length-append scope.output (b'\n' ∷ []),
          ))

  all_whole :
      (messages : List Bytes) (scope : ResponseScope)
      → ((n : ℕ) → can_hold n ≡ true)
      → scope.count + length messages ≤ max_messages
      → length (join_all scope.output messages) ≤ max_bytes
      → collect_all messages scope ≡ record scope {
        count = scope.count + length messages;
        output = join_all scope.output messages;
      }
  unfolding collect_all
  all_whole [] scope m few room = ground arith
  all_whole (x ∷ messages) scope m few room =
      let next : ResponseScope = record scope {
        count = scope.count + 1;
        output = joined scope.output x;
      } in
      rw
        (collect_whole x scope m (omega arith)
          (omega (arith, length-join_all-ge (joined scope.output x) messages)))
        (all_whole messages next m (omega arith) room
          ∙ ap (λ k. record scope { count = k; output = join_all (joined scope.output x) messages })
              (omega arith))

  -- Where memory suffices, at most 128 messages whose join is at most 65536 bytes long are all
  -- collected, and the reply is marked neither as cut nor as failed.
  pub collect_all_whole :
      (key : ℕ) (messages : List Bytes)
      → ((n : ℕ) → can_hold n ≡ true)
      → length messages ≤ max_messages
      → length (join_all [] messages) ≤ max_bytes
      → collect_all messages (fresh key) ≡ record {
        command = key;
        output = join_all [] messages;
        count = length messages;
        cut = false;
        failed = false;
      }
  collect_all_whole key messages m few room =
      all_whole messages (fresh key) m (omega arith) room
      ∙ ap (λ k. record (fresh key) { count = k; output = join_all [] messages }) (omega arith)
