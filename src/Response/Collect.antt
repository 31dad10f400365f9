-- ===== src/Response/Collect.antt =====
-- What one scope collects.
use open_scum_rcon.Base.{
  ℕ, ◌+◌, ◌-◌, ◌≤◌, ◌<◌, ◌≡◌, refl, sym, ◌∙◌, ◌≢◌, ◌⊎◌, inl, inr, Bool, true, false, ◌||◌, List, [],
  ◌∷◌, ◌++◌, append-nil, append_assoc, arith, Bytes, ltb, ◌==◌, if◌then◌else◌, ltb→lt, ltb→ge,
  Bool-cases, length, take, length-append, length-take, take_all,
}
use open_scum_rcon.Utf8.{utf8_prefix_size}
use open_scum_rcon.Utf8.Boundary.{utf8_prefix_size_greatest}
use open_scum_rcon.Utf8.Valid.{IsUtf8, utf8_prefix_size-IsUtf8, append-IsUtf8, one-IsUtf8}
use open_scum_rcon.Response.{
  ResponseScope, back, needs_break, append_prefix, collect, max_bytes, max_messages,
}

-- The messages of a reply, one after another, each on a line of its own.
unfoldable pub joined : Bytes → Bytes → Bytes
joined output [] = output
joined [] (m ∷ message) = m ∷ message
joined (o ∷ output) (m ∷ message) =
    if back (o ∷ output) == b'\n'
    then (o ∷ output) ++ m ∷ message
    else (o ∷ output) ++ (b'\n' ∷ m ∷ message)

abbrev pub join_all : Bytes → List Bytes → Bytes
join_all output [] = output
join_all output (m ∷ messages) = join_all (joined output m) messages

pub joined-break :
    (output message : Bytes)
    → needs_break output message ≡ true
    → joined output message ≡ (output ++ b'\n' ∷ []) ++ message
unfolding joined needs_break
joined-break output [] h = ground arith
joined-break [] (m ∷ message) h = ground arith
joined-break (o ∷ output) (m ∷ message) h =
    rw (append_assoc (o ∷ output) (b'\n' ∷ []) (m ∷ message)) (ground arith)

pub joined-plain :
    (output message : Bytes)
    → needs_break output message ≡ false
    → joined output message ≡ output ++ message
unfolding joined needs_break
joined-plain output [] h = sym (append-nil output)
joined-plain [] (m ∷ message) h = refl
joined-plain (o ∷ output) (m ∷ message) h = ground arith

abbrev pub counted : ResponseScope → ResponseScope
counted scope = record scope { count = scope.count + 1 }

abbrev pub broken : ResponseScope → ResponseScope
broken scope = record scope { count = scope.count + 1; output = scope.output ++ b'\n' ∷ [] }

module _ (can_hold : ℕ → Bool) (message : Bytes) where
  pub collect_cases :
      (P : ResponseScope → Type 0) (scope : ResponseScope)
      → ((max_messages < scope.count + 1)
            ⊎ ((needs_break scope.output message ≡ true) × (length scope.output ≡ max_bytes))
          → P (record scope { count = scope.count + 1; cut = true }))
      → (can_hold (length scope.output + 1) ≡ false
          → P (record scope { count = scope.count + 1; failed = true }))
      → (needs_break scope.output message ≡ true
          → length scope.output ≢ max_bytes
          → scope.count + 1 ≤ max_messages
          → P (append_prefix can_hold message (broken scope)))
      → (needs_break scope.output message ≡ false
          → scope.count + 1 ≤ max_messages
          → P (append_prefix can_hold message (counted scope)))
      → P (collect can_hold message scope)
  unfolding collect
  collect_cases P scope cut failed breaks plain =
      elim (Bool-cases (ltb max_messages (scope.count + 1))) [
        | inl many ↦ rw many (cut (inl (ltb→lt _ _ many)))
        | inr few ↦ rw few (elim (Bool-cases (needs_break scope.output message)) [
          | inr no_break ↦ rw no_break (plain no_break (ltb→ge _ _ few))
          | inl break ↦ rw break (elim (Bool-cases (length scope.output == max_bytes)) [
            | inl full ↦ rw full (cut (inr (break, ground arith)))
            | inr room ↦ rw room (elim (Bool-cases (can_hold (length scope.output + 1))) [
              | inr thrown ↦ rw thrown (failed thrown)
              | inl held ↦ rw held (breaks break (ground arith) (ltb→ge _ _ few))
            ])
          ])
        ])
      ]

  append_prefix-le :
      (scope : ResponseScope)
      → length scope.output ≤ max_bytes
      → length (append_prefix can_hold message scope).output ≤ max_bytes
  unfolding append_prefix
  append_prefix-le scope h =
      let n = utf8_prefix_size message (max_bytes - length scope.output) in
      let g = utf8_prefix_size_greatest message (max_bytes - length scope.output) in
      ground (arith, g.1, length-append scope.output (take n message), length-take n message)

  -- The output never grows beyond 65536 bytes, whatever messages arrive.
  pub collect-le :
      (scope : ResponseScope)
      → length scope.output ≤ max_bytes
      → length (collect can_hold message scope).output ≤ max_bytes
  collect-le scope h =
      collect_cases (λ r. length r.output ≤ max_bytes) scope (λ _. h) (λ _. h)
        (λ b ne few.
          append_prefix-le (broken scope) (omega (arith, length-append scope.output (b'\n' ∷ []))))
        (λ b few. append_prefix-le (counted scope) h)

  append_prefix-IsUtf8 :
      (scope : ResponseScope)
      → IsUtf8 message
      → IsUtf8 scope.output
      → IsUtf8 (append_prefix can_hold message scope).output
  unfolding append_prefix
  append_prefix-IsUtf8 scope v w =
      let available = max_bytes - length scope.output in
      let n = utf8_prefix_size message available in
      elim (Bool-cases (n == 0 || can_hold (length scope.output + n))) [
        | inl held ↦ rw held (append-IsUtf8 _ w (utf8_prefix_size-IsUtf8 available v).0)
        | inr thrown ↦ rw thrown w
      ]

  -- Messages of whole code points, as `IsUtf8` has them, leave an output of whole code points, also
  -- where they are cut.
  pub collect-IsUtf8 :
      (scope : ResponseScope)
      → IsUtf8 message
      → IsUtf8 scope.output
      → IsUtf8 (collect can_hold message scope).output
  collect-IsUtf8 scope v w =
      collect_cases (λ r. IsUtf8 r.output) scope (λ _. w) (λ _. w)
        (λ b ne few.
          append_prefix-IsUtf8 (broken scope) v
            (append-IsUtf8 _ w (one-IsUtf8 b'\n' (omega arith))))
        (λ b few. append_prefix-IsUtf8 (counted scope) v w)

  append_prefix_lossless :
      (scope : ResponseScope)
      → (append_prefix can_hold message scope).cut ≡ false
      → (append_prefix can_hold message scope).failed ≡ false
      → ((append_prefix can_hold message scope).output ≡ scope.output ++ message)
        × (scope.cut ≡ false)
        × (scope.failed ≡ false)
  unfolding append_prefix
  append_prefix_lossless scope c f =
      let n = utf8_prefix_size message (max_bytes - length scope.output) in
      ground (arith, take_all n message)

  pub record IsLossless (scope r : ResponseScope) : Type 0 where
    pub joins : r.output ≡ joined scope.output message
    pub was_whole : scope.cut ≡ false
    pub was_sound : scope.failed ≡ false
    pub counts : r.count ≡ scope.count + 1
    pub few : scope.count + 1 ≤ max_messages

  pub append_prefix-count :
      (scope : ResponseScope) → (append_prefix can_hold message scope).count ≡ scope.count
  unfolding append_prefix
  append_prefix-count scope = ground arith

  pub collect-IsLossless :
      (scope : ResponseScope)
      → (collect can_hold message scope).cut ≡ false
      → (collect can_hold message scope).failed ≡ false
      → IsLossless scope (collect can_hold message scope)
  collect-IsLossless scope =
      collect_cases (λ r. r.cut ≡ false → r.failed ≡ false → IsLossless scope r) scope (λ _ c f. cc)
        (λ _ c f. cc)
        (λ b ne few c f.
          let l = append_prefix_lossless (broken scope) c f in
          record {
            joins = l.0 ∙ sym (joined-break scope.output message b);
            was_whole = l.1;
            was_sound = l.2;
            counts = append_prefix-count (broken scope);
            few = few;
          })
        (λ b few c f.
          let l = append_prefix_lossless (counted scope) c f in
          record {
            joins = l.0 ∙ sym (joined-plain scope.output message b);
            was_whole = l.1;
            was_sound = l.2;
            counts = append_prefix-count (counted scope);
            few = few;
          })
