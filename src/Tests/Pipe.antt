-- ===== src/Tests/Pipe.antt =====
-- A socket for the tests: the chunks that arrive, and what was sent, five bytes at a time.
use open_scum_rcon.Base.{
  ℕ, ◌≤◌, ◌<◌, min, ◌≡◌, refl, sym, ap, ◌∙◌, ◌≢◌, Option, none, some, List, [], ◌∷◌, ◌++◌,
  append_assoc, arith, Bytes, length, take, drop, take-append-drop, length-take,
}
use open_scum_rcon.Server.Transport.{Tcp, IsTcp}

pub record Pipe : Type 0 where
  pub chunks : List Bytes
  pub written : Bytes

abbrev pub joined : List Bytes → Bytes
joined [] = []
joined (c ∷ cs) = c ++ joined cs

-- The first bytes of a chunk, and what stays.
unfoldable pub pull : ℕ → List Bytes → Option Bytes × List Bytes
pull n [] = (none, [])
pull n ([] ∷ cs) = pull n cs
pull n ((b ∷ bs) ∷ cs) = (some (take n (b ∷ bs)), drop n (b ∷ bs) ∷ cs)

pub pull-some :
    (n : ℕ) (cs : List Bytes) (got : Bytes)
    → 0 < n
    → (pull n cs).0 ≡ some got
    → (0 < length got) × (length got ≤ n) × (joined cs ≡ got ++ joined (pull n cs).1)
unfolding pull
pull-some n [] got h e = cc
pull-some n ([] ∷ cs) got h e = pull-some n cs got h e
pull-some n ((b ∷ bs) ∷ cs) got h e =
    let same : take n (b ∷ bs) ≡ got = cc in
    rw (← same) (
      omega (arith, length-take n (b ∷ bs)),
      omega (arith, length-take n (b ∷ bs)),
      ap (λ zs. zs ++ joined cs) (sym (take-append-drop n (b ∷ bs)))
          ∙ append_assoc (take n (b ∷ bs)) (drop n (b ∷ bs)) (joined cs),
    )

pub pull-none : (n : ℕ) (cs : List Bytes) → (pull n cs).0 ≡ none → joined cs ≡ []
unfolding pull
pull-none n [] e = refl
pull-none n ([] ∷ cs) e = pull-none n cs e
pull-none n ((b ∷ bs) ∷ cs) e = cc

pub pull_closed : (n : ℕ) (cs : List Bytes) → joined cs ≡ [] → joined (pull n cs).1 ≡ []
unfolding pull
pull_closed n [] e = refl
pull_closed n ([] ∷ cs) e = pull_closed n cs e
pull_closed n ((b ∷ bs) ∷ cs) e = cc

unfoldable pub offer_five : Bytes → Pipe → Option ℕ × Pipe
offer_five offer s = (
  some (min 5 (length offer)),
  record s { written = s.written ++ take (min 5 (length offer)) offer },
)

abbrev pub pipe : Tcp
pipe = record {
  Socket = Pipe;
  recv = λ n s. ((pull n s.chunks).0, record s { chunks = (pull n s.chunks).1 });
  send = offer_five;
}

unfoldable pub pipe_law : IsTcp pipe
unfolding offer_five
pipe_law = record {
  incoming = λ s. joined s.chunks;
  sent = λ s. s.written;
  recv_some = λ n s got h e. pull-some n s.chunks got h e;
  recv_none = λ n s h e. pull-none n s.chunks e;
  recv_sent = λ n s. refl;
  recv_closed = λ n s e. pull_closed n s.chunks e;
  send_some = λ offer s n h e.
      let same : min 5 (length offer) ≡ n = cc in rw (← same) (omega arith, omega arith, refl);
  send_none = λ offer s e. cc;
  send_incoming = λ offer s. refl;
}

pub pipe_accepts : (offer : Bytes) (s : Pipe) → (pipe.send offer s).0 ≢ none
unfolding offer_five
pipe_accepts offer s e = cc
