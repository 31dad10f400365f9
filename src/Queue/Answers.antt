-- ===== src/Queue/Answers.antt =====
-- Which promises still wait for their value.
use open_scum_rcon.Base.{
  ℕ, zero, suc, ◌+◌, ◌≤◌, ◌≡◌, refl, sym, ap, ◌∙◌, Option, none, some, List, [], ◌∷◌, ◌++◌, map,
  append_assoc, arith, Bytes, length,
}
use mathlib.Core.List.{map-append}
use open_scum_rcon.Authority.{CommandAuthority}
use open_scum_rcon.Queue.{PendingCommand, CommandQueue, enqueue, set_value, answer, unauthorized}

-- The indices of the promises without a value, in the order in which they were made; `n` is the
-- index of the first cell.
abbrev pub unset : ℕ → List (Option Bytes) → List ℕ
unset n [] = []
unset n (none ∷ futures) = n ∷ unset (suc n) futures
unset n (some reply ∷ futures) = unset (suc n) futures

abbrev pub responses : List PendingCommand → List ℕ
responses = map (λ item. item.response)

-- The commands that wait, oldest first, are exactly the promises that wait.
abbrev pub Awaited : List PendingCommand → List (Option Bytes) → Type 0
Awaited items futures = responses items ≡ unset 0 futures

unset-append_some :
    (n : ℕ) (futures : List (Option Bytes)) (reply : Bytes)
    → unset n (futures ++ some reply ∷ []) ≡ unset n futures
unset-append_some n [] reply = refl
unset-append_some n (none ∷ futures) reply =
    ap (λ is. n ∷ is) (unset-append_some (suc n) futures reply)
unset-append_some n (some old ∷ futures) reply = unset-append_some (suc n) futures reply

unset-append_none :
    (n : ℕ) (futures : List (Option Bytes))
    → unset n (futures ++ none ∷ []) ≡ unset n futures ++ (n + length futures) ∷ []
unset-append_none n [] = ap (λ k. k ∷ []) (omega arith)
unset-append_none n (none ∷ futures) =
    ap (λ is. n ∷ is)
      (unset-append_none (suc n) futures ∙ ap (λ k. unset (suc n) futures ++ k ∷ []) (omega arith))
unset-append_none n (some old ∷ futures) =
    unset-append_none (suc n) futures ∙ ap (λ k. unset (suc n) futures ++ k ∷ []) (omega arith)

-- The first promise that waits takes a value, and no other changes.
pub record IsStored (i : ℕ) (reply : Bytes) (futures : List (Option Bytes)) (is : List ℕ) (n : ℕ)
    (futures' : List (Option Bytes)) : Type 0 where
  pub sets : set_value i reply futures ≡ some futures'
  pub rest : unset n futures' ≡ is
  pub found : answer i futures' ≡ some reply
  pub others : (j : ℕ) (old : Bytes) → answer j futures ≡ some old → answer j futures' ≡ some old

unset-ge :
    (n i : ℕ) (is : List ℕ) (futures : List (Option Bytes)) → i ∷ is ≡ unset n futures → n ≤ i
unset-ge n i is [] h = cc
unset-ge n i is (none ∷ futures) h = ground arith
unset-ge n i is (some old ∷ futures) h = omega (arith, unset-ge (suc n) i is futures h)

keep_old :
    (k : ℕ) (f : Option Bytes) (futures futures' : List (Option Bytes))
    → ((j : ℕ) (old : Bytes) → answer j futures ≡ some old → answer j futures' ≡ some old)
    → (j : ℕ) (old : Bytes) → answer j (f ∷ futures) ≡ some old
    → answer j (f ∷ futures') ≡ some old
unfolding answer
keep_old k f futures futures' keep zero old h = h
keep_old k f futures futures' keep (suc j) old h = keep j old h

first_old :
    (reply : Bytes) (futures : List (Option Bytes)) (j : ℕ) (old : Bytes)
    → answer j (none ∷ futures) ≡ some old
    → answer j (some reply ∷ futures) ≡ some old
unfolding answer
first_old reply futures zero old h = cc
first_old reply futures (suc j) old h = h

set_first :
    (reply : Bytes) (n k : ℕ) (is : List ℕ) (futures : List (Option Bytes))
    → (n + k) ∷ is ≡ unset n futures
    → (futures' : List (Option Bytes)) × IsStored k reply futures is n futures'
unfolding set_value answer
set_first reply n k is [] h = cc
set_first reply n zero is (none ∷ futures) h = (
  some reply ∷ futures,
  record {
    sets = refl;
    rest = ground arith;
    found = refl;
    others = λ j old e. first_old reply futures j old e;
  },
)
set_first reply n (suc k) is (none ∷ futures) h = absurd (ground arith)
set_first reply n zero is (some old ∷ futures) h =
    absurd (omega (arith, unset-ge (suc n) (n + 0) is futures h))
set_first reply n (suc k) is (some old ∷ futures) h =
    let next : (suc n + k) ∷ is ≡ unset (suc n) futures =
      ap (λ i. i ∷ is) {y = n + suc k} (omega arith) ∙ h in
    let (futures', s) = set_first reply (suc n) k is futures next in
    (
      some old ∷ futures',
      record {
        sets = rw s.sets;
        rest = s.rest;
        found = s.found;
        others = λ j o e. keep_old k (some old) futures futures' s.others j o e;
      },
    )

-- `set_value` on the oldest command that waits never throws: it sets that promise, keeps every
-- answer that was given, and leaves the other promises waiting in the same order.
pub set_oldest :
    (reply : Bytes) (item : PendingCommand) (items : List PendingCommand)
    (futures : List (Option Bytes))
    → Awaited (item ∷ items) futures
    → (futures' : List (Option Bytes)) × (set_value item.response reply futures ≡ some futures')
      × Awaited items futures'
      × (answer item.response futures' ≡ some reply)
      × ((j : ℕ) (old : Bytes) → answer j futures ≡ some old → answer j futures' ≡ some old)
set_oldest reply item items futures h =
    let start : (0 + item.response) ∷ responses items ≡ unset 0 futures =
      ap (λ i. i ∷ responses items) {y = item.response} (omega arith) ∙ h in
    let (futures', s) = set_first reply 0 item.response (responses items) futures start in
    (futures', s.sets, sym s.rest, s.found, s.others)

append_old :
    (futures more : List (Option Bytes)) (j : ℕ) (old : Bytes)
    → answer j futures ≡ some old
    → answer j (futures ++ more) ≡ some old
unfolding answer
append_old [] more j old h = cc
append_old (f ∷ futures) more zero old h = h
append_old (f ∷ futures) more (suc j) old h = append_old futures more j old h

-- Where the promises that wait are those of the commands `taken`, which were drained, and of the
-- queue in order, they are so again behind `enqueue`, and every value that was given stays.
pub enqueue-Awaited :
    (command_text : Bytes) (authority : CommandAuthority) (taken : List PendingCommand)
    (q : CommandQueue)
    → Awaited (taken ++ q.pending) q.futures
    → Awaited
        (taken ++ (enqueue command_text authority q).1.pending)
        (enqueue command_text authority q).1.futures
      × ((j : ℕ) (old : Bytes)
          → answer j q.futures ≡ some old
          → answer j (enqueue command_text authority q).1.futures ≡ some old)
unfolding enqueue
enqueue-Awaited command_text CommandAuthority.none taken q h =
    (h ∙ sym (unset-append_some 0 q.futures unauthorized), append_old q.futures _)
enqueue-Awaited command_text CommandAuthority.authenticated_rcon taken q h = (
  ap responses (sym (append_assoc taken q.pending _))
      ∙ map-append _ _ _
      ∙ ap (λ is. is ++ length q.futures ∷ []) h
      ∙ ap (λ k. unset 0 q.futures ++ k ∷ []) {x = length q.futures} (omega arith)
      ∙ sym (unset-append_none 0 q.futures),
  append_old q.futures _,
)
