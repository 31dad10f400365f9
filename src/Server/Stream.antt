-- ===== src/Server/Stream.antt =====
-- The loops over a socket against the byte stream: how the network cuts it does not matter.
use open_scum_rcon.Base.{
  ℕ, zero, suc, ◌+◌, ◌-◌, ◌≤◌, ◌<◌, ◌≡◌, refl, sym, ap, ◌∙◌, ◌≢◌, inl, inr, Bool, true, false,
  Option, none, some, [], ◌∷◌, ◌++◌, append-nil, append_assoc, arith, Bytes, ltb, ◌==◌,
  if◌then◌else◌, ltb→lt, ltb→ge, Bool-cases, Option-cases, length, take, drop, length-append,
  length-drop, take_all, drop_all, take-append_eq, drop-append_eq,
}
use open_scum_rcon.Server.{recv_loop, recv_exact, send_loop, send_all}
use open_scum_rcon.Server.Transport.{Tcp, IsTcp}

module _ (tcp : Tcp) (law : IsTcp tcp) where
  open law use {incoming, sent}

  -- Exactly `size` bytes are taken off the stream, or the stream ends before that.
  pub record IsReceived (size : ℕ) (s : tcp.Socket) (r : Option Bytes × tcp.Socket) : Type 0 where
    pub got : r.0 ≡ (if ltb (length (incoming s)) size then none else some (take size (incoming s)))
    pub left : incoming r.1 ≡ drop size (incoming s)
    pub quiet : sent r.1 ≡ sent s

  -- The same for bytes of which a part has been received before.
  abbrev Completes : ℕ → Bytes → tcp.Socket → Option Bytes × tcp.Socket → Type 0
  Completes size whole s r =
      (r.0 ≡ (if ltb (length whole) size then none else some (take size whole)))
      × (incoming r.1 ≡ drop size whole)
      × (sent r.1 ≡ sent s)

  complete :
      (size : ℕ) (received whole : Bytes) (s : tcp.Socket)
      → length received ≡ size
      → whole ≡ received ++ incoming s
      → Completes size whole s (some received, s)
  complete size received whole s h e =
      let enough : ltb (length whole) size ≡ false =
        ground (arith, ap length e, length-append received (incoming s)) in
      rw (enough, e)
        (
          ap some (sym (take-append_eq size received (incoming s) h)),
          sym (drop-append_eq size received (incoming s) h),
          refl,
        )

  ended :
      (size n : ℕ) (received whole : Bytes) (s : tcp.Socket)
      → length received < size
      → whole ≡ received ++ incoming s
      → incoming s ≡ []
      → Completes size whole s (none, (tcp.recv n s).1)
  ended size n received whole s h e closed =
      let short : length whole < size =
        omega (arith, ap length e, length-append received (incoming s), ap length closed) in
      let test : ltb (length whole) size ≡ true = ground arith in
      rw test (
        refl,
        law.recv_closed n s closed ∙ sym (drop_all size whole (omega arith)),
        law.recv_sent n s,
      )

  recv_loop_lem :
      (fuel size : ℕ) (received : Bytes) (s : tcp.Socket) (whole : Bytes)
      → length received ≤ size
      → size ≤ fuel + length received
      → whole ≡ received ++ incoming s
      → Completes size whole s (recv_loop tcp fuel size received s)
  unfolding recv_loop
  recv_loop_lem zero size received s whole h f e =
      let full : ltb (length received) size ≡ false = ground arith in
      rw full (complete size received whole s (omega arith) e)
  recv_loop_lem (suc fuel) size received s whole h f e =
      let n = size - length received in
      elim (Bool-cases (ltb (length received) size)) [
        | inr full ↦
            rw (full, recv_loop) (complete size received whole s (omega (arith, ltb→ge _ _ full)) e)
        | inl more ↦
            rw (more, recv_loop)
              (let lt : length received < size = ltb→lt _ _ more in
                elim (Option-cases (tcp.recv n s).0) [
                  | inl closed ↦
                      rw (closed, recv_loop)
                        (ended size n received whole s lt e
                          (law.recv_none n s (omega arith) closed))
                  | inr (got, some_got) ↦
                      let (pos, small, splits) = law.recv_some n s got (omega arith) some_got in
                      let size_now = length-append received got in
                      let rest =
                        recv_loop_lem fuel size (received ++ got) (tcp.recv n s).1 whole
                          (omega arith) (omega arith)
                          (e
                            ∙ ap (λ zs. received ++ zs) splits
                            ∙ sym (append_assoc received got _)) in
                      rw (some_got, recv_loop) (rest.0, rest.1, rest.2 ∙ law.recv_sent n s)
                ])
      ]

  -- `recv_exact` takes exactly `size` bytes off the stream however they arrive, or fails because
  -- the connection ends before; `size` rounds are enough for either.
  pub recv_exact-IsReceived :
      (size : ℕ) (s : tcp.Socket) → IsReceived size s (recv_exact tcp size s)
  unfolding recv_exact
  recv_exact-IsReceived size s =
      let r = recv_loop_lem size size [] s (incoming s) (omega arith) (omega arith) refl in
      record { got = r.0; left = r.1; quiet = r.2 }

  -- Some of the bytes, from the first on, were sent: all of them if the call succeeded.
  pub record IsSent (content : Bytes) (s : tcp.Socket) (r : Bool × tcp.Socket) : Type 0 where
    pub count : ℕ
    pub written : sent r.1 ≡ sent s ++ take count content
    pub all : r.0 ≡ true → count ≡ length content
    pub unread : incoming r.1 ≡ incoming s

  nothing-IsSent :
      (content : Bytes) (s : tcp.Socket) → length content ≡ 0 → IsSent content s (true, s)
  nothing-IsSent content s h = record {
    count = 0;
    written = sym (append-nil (sent s));
    all = λ _. sym h;
    unread = refl;
  }

  take-add : (n m : ℕ) (xs : Bytes) → take n xs ++ take m (drop n xs) ≡ take (n + m) xs
  take-add zero m xs = ap (λ k. take k xs) (omega arith)
  take-add (suc n) m [] = take_all m [] (omega arith) ∙ sym (take_all (suc n + m) [] (omega arith))
  take-add (suc n) m (x ∷ xs) =
      ap (λ zs. x ∷ zs) (take-add n m xs)
      ∙ ap (λ k. take k (x ∷ xs)) {x = suc (n + m)} (omega arith)

  send_loop-IsSent :
      (fuel : ℕ) (content : Bytes) (s : tcp.Socket)
      → length content ≤ fuel
      → IsSent content s (send_loop tcp fuel content s)
  unfolding send_loop
  send_loop-IsSent zero content s h =
      let e : (length content == 0) ≡ true = ground arith in
      rw e (nothing-IsSent content s (omega arith))
  send_loop-IsSent (suc fuel) content s h = elim (Bool-cases (ltb 0 (length content))) [
    | inr done ↦ rw (done, send_loop) (nothing-IsSent content s (omega (arith, ltb→ge _ _ done)))
    | inl more ↦
        rw (more, send_loop)
          (elim (Option-cases (tcp.send content s).0) [
            | inl failed ↦
                rw (failed, send_loop)
                  (record {
                    count = 0;
                    written = law.send_none content s failed ∙ sym (append-nil (sent s));
                    all = λ e. cc;
                    unread = law.send_incoming content s;
                  })
            | inr (n, accepted) ↦
                rw (accepted, send_loop)
                  (let (pos, small, now) = law.send_some content s n (ltb→lt _ _ more) accepted in
                    let rest =
                      send_loop-IsSent fuel (drop n content) (tcp.send content s).1
                        (omega (arith, length-drop n content)) in
                    record {
                      count = n + rest.count;
                      written =
                          rest.written
                          ∙ ap (λ zs. zs ++ take rest.count (drop n content)) now
                          ∙ append_assoc (sent s) _ _
                          ∙ ap (λ zs. sent s ++ zs) (take-add n rest.count content);
                      all = λ e. omega (arith, rest.all e, length-drop n content);
                      unread = rest.unread ∙ law.send_incoming content s;
                    })
          ])
  ]

  -- `send_all` sends the bytes in order, from the first on, and all of them where it reports
  -- success; it ends within as many rounds as there are bytes, and takes nothing off the stream.
  pub send_all-IsSent :
      (content : Bytes) (s : tcp.Socket) → IsSent content s (send_all tcp content s)
  unfolding send_all
  send_all-IsSent content s = send_loop-IsSent (length content) content s (omega arith)

  -- Where the system accepts something of every offer, the call succeeds.
  send_loop_works :
      (fuel : ℕ) (content : Bytes) (s : tcp.Socket)
      → ((offer : Bytes) (t : tcp.Socket) → (tcp.send offer t).0 ≢ none)
      → length content ≤ fuel
      → (send_loop tcp fuel content s).0 ≡ true
  unfolding send_loop
  send_loop_works zero content s accepts h = ground arith
  send_loop_works (suc fuel) content s accepts h = elim (Bool-cases (ltb 0 (length content))) [
    | inr done ↦ rw (done, send_loop)
    | inl more ↦
        rw (more, send_loop)
          (elim (Option-cases (tcp.send content s).0) [
            | inl failed ↦ absurd (accepts content s failed)
            | inr (n, accepted) ↦
                rw (accepted, send_loop)
                  (let (pos, small, now) = law.send_some content s n (ltb→lt _ _ more) accepted in
                    send_loop_works fuel (drop n content) (tcp.send content s).1 accepts
                      (omega (arith, length-drop n content)))
          ])
  ]

  pub send_all_works :
      (content : Bytes) (s : tcp.Socket)
      → ((offer : Bytes) (t : tcp.Socket) → (tcp.send offer t).0 ≢ none)
      → ((send_all tcp content s).0 ≡ true)
        × (sent (send_all tcp content s).1 ≡ sent s ++ content)
        × (incoming (send_all tcp content s).1 ≡ incoming s)
  unfolding send_all
  send_all_works content s accepts =
      let done = send_loop_works (length content) content s accepts (omega arith) in
      let r = send_loop-IsSent (length content) content s (omega arith) in
      (
        done,
        r.written ∙ ap (λ zs. sent s ++ zs) (take_all r.count content (omega (arith, r.all done))),
        r.unread,
      )
