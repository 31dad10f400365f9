-- ===== src/Registry/Connected.antt =====
-- The connected players against the objects of the game.
use open_scum_rcon.Base.{
  ℕ, ◌≤◌, ◌≡◌, refl, sym, ap, ◌∙◌, subst, inl, inr, true, false, not, ◌&&◌, ◌||◌, List, [], ◌∷◌,
  ◌++◌, append-nil, append_assoc, arith, Bytes, same_text, less_text, less_text_asym,
  less_text_connex, insert_by, sort_by, IsSorted, sort_by-IsSorted, sort_by-Perm, length-sort_by,
  All-sort_by, Perm, ok, err, bind-inversion, Result-cases, leb, ◌==◌, if◌then◌else◌, Bool-cases,
  length, length-append, All,
}
use open_scum_rcon.Request.{steam_id_valid}
use open_scum_rcon.Registry.Engine.{Engine, string_call}
use open_scum_rcon.Registry.Players.{
  Player, seen_id, is_connected, add_player, visit, less_id, connected_players,
}

-- The ids of the players are all different.
abbrev pub AllDifferent : List Player → Type 0
AllDifferent [] = Unit
AllDifferent (p ∷ online) = (seen_id p.id online ≡ false) × AllDifferent online

-- Each id is less than the next.
abbrev pub IsAscending : List Player → Type 0
IsAscending [] = Unit
IsAscending (p ∷ []) = Unit
IsAscending (p ∷ q ∷ online) = (less_text p.id q.id ≡ true) × IsAscending (q ∷ online)

abbrev pub HasSteamId : Player → Type 0
HasSteamId p = steam_id_valid p.id ≡ true

seen_id-append :
    (id : Bytes) (online : List Player) (p : Player)
    → seen_id id (online ++ p ∷ []) ≡ (seen_id id online || same_text p.id id)
unfolding seen_id
seen_id-append id [] p = ground arith
seen_id-append id (q ∷ online) p = rw (seen_id-append id online p) (ground arith)

same_text_sym : (a b : Bytes) → same_text a b ≡ same_text b a
unfolding same_text
same_text_sym (x ∷ a) (y ∷ b) = rw (same_text_sym a b) (ground arith)
same_text_sym [] [] = refl
same_text_sym [] (y ∷ b) = refl
same_text_sym (x ∷ a) [] = refl

AllDifferent-append :
    (online : List Player) (p : Player)
    → AllDifferent online
    → seen_id p.id online ≡ false
    → AllDifferent (online ++ p ∷ [])
unfolding seen_id
AllDifferent-append [] p d new = (refl, tt)
AllDifferent-append (q ∷ online) p (other, d) new =
    let other_way = same_text_sym q.id p.id in
    let at_end = seen_id-append q.id online p in
    (ground arith, AllDifferent-append online p d (ground arith))

seen_id-insert_by :
    (id : Bytes) (p : Player) (online : List Player)
    → seen_id id (insert_by less_id p online) ≡ (same_text p.id id || seen_id id online)
unfolding seen_id insert_by
seen_id-insert_by id p [] = refl
seen_id-insert_by id p (q ∷ online) =
    let deeper = seen_id-insert_by id p online in
    elim (Bool-cases (less_id q p)) [ inl e ↦ rw (e, deeper) (ground arith) | inr e ↦ rw e refl ]

AllDifferent-insert_by :
    (p : Player) (online : List Player)
    → AllDifferent online
    → seen_id p.id online ≡ false
    → AllDifferent (insert_by less_id p online)
unfolding seen_id insert_by
AllDifferent-insert_by p [] d new = (refl, tt)
AllDifferent-insert_by p (q ∷ online) (other, d) new =
    let other_way = same_text_sym q.id p.id in
    let deeper = seen_id-insert_by q.id p online in
    elim (Bool-cases (less_id q p)) [
      | inl e ↦ rw e (ground arith, AllDifferent-insert_by p online d (ground arith))
      | inr e ↦ rw e (new, (other, d))
    ]

seen_id-sort_by :
    (id : Bytes) (online : List Player) → seen_id id (sort_by less_id online) ≡ seen_id id online
unfolding seen_id sort_by
seen_id-sort_by id [] = refl
seen_id-sort_by id (p ∷ online) =
    seen_id-insert_by id p (sort_by less_id online)
    ∙ ap (λ b. same_text p.id id || b) (seen_id-sort_by id online)

AllDifferent-sort_by :
    (online : List Player) → AllDifferent online → AllDifferent (sort_by less_id online)
unfolding sort_by
AllDifferent-sort_by [] d = tt
AllDifferent-sort_by (p ∷ online) (other, d) =
    AllDifferent-insert_by p (sort_by less_id online) (AllDifferent-sort_by online d)
      (seen_id-sort_by p.id online ∙ other)

IsSorted-IsAscending :
    (online : List Player) → IsSorted less_id online → AllDifferent online → IsAscending online
unfolding seen_id
IsSorted-IsAscending [] s d = tt
IsSorted-IsAscending (p ∷ []) s d = tt
IsSorted-IsAscending (p ∷ q ∷ online) (le, s) (other, d) =
    (less_text_connex q.id p.id le (ground arith), IsSorted-IsAscending (q ∷ online) s d)

module _ {World Double : Type 0} (engine : Engine World Double) (w : World) (cls fn : ℕ) where
  -- The connected objects whose id is a SteamID, in the order of the objects.
  unfoldable pub identified : List ℕ → List Player
  identified [] = []
  identified (object ∷ rest) =
      let more = identified rest in
      elim (string_call engine w object fn) [
        | err why ↦ more
        | ok id ↦
            if is_connected engine w cls object && steam_id_valid id
            then record { controller = object; id = id } ∷ more
            else more
      ]

  identified-HasSteamId : (rest : List ℕ) → All HasSteamId (identified rest)
  unfolding identified
  identified-HasSteamId [] = tt
  identified-HasSteamId (object ∷ rest) =
      let more = identified-HasSteamId rest in
      elim (Result-cases (string_call engine w object fn)) [
        | inl (why, e) ↦ rw (e, identified) more
        | inr (id, e) ↦ elim (Bool-cases (is_connected engine w cls object && steam_id_valid id)) [
          | inr not_one ↦ rw (e, identified) (rw not_one more)
          | inl one ↦ rw (e, identified) (rw one (ground arith, more))
        ]
      ]

  abbrev Found : List Player → List Player → List ℕ → Type 0
  Found before online rest =
      (online ≡ before ++ identified rest) × AllDifferent online × (length online ≤ 1024)

  unconnected :
      (object : ℕ) (rest : List ℕ)
      → is_connected engine w cls object ≡ false
      → identified (object ∷ rest) ≡ identified rest
  unfolding identified
  unconnected object rest other = elim (Result-cases (string_call engine w object fn)) [
    | inl (why, e) ↦ rw (e, identified) refl
    | inr (id, e) ↦ rw (e, identified) (rw other refl)
  ]

  -- A connected object whose id was read, given what holds of the objects behind it.
  add_player-Found :
      (object : ℕ) (rest : List ℕ) (id : Bytes) (before mid online : List Player)
      → AllDifferent before
      → length before ≤ 1024
      → is_connected engine w cls object ≡ true
      → string_call engine w object fn ≡ ok id
      → add_player object id before ≡ ok mid
      → (AllDifferent mid → length mid ≤ 1024 → Found mid online rest)
      → Found before online (object ∷ rest)
  unfolding add_player identified
  add_player-Found object rest id before mid online d few here called added later =
      elim (Bool-cases (steam_id_valid id)) [
        | inr no_id ↦
            let same : before ≡ mid = cc (rw no_id at added) in
            let from_here : AllDifferent before → length before ≤ 1024 → Found before online rest =
              rw (← same) at later in
            rw (called, identified) (rw (here, no_id) (from_here d few))
        | inl is_id ↦ elim (Bool-cases (seen_id id before)) [
          | inl again ↦ cc (rw (is_id, again) at added)
          | inr new ↦ elim (Bool-cases (leb 1024 (length before))) [
            | inl full ↦ cc (rw (is_id, new, full) at added)
            | inr room ↦
                let p : Player = record { controller = object; id = id } in
                let same : before ++ p ∷ [] ≡ mid = cc (rw (is_id, new, room) at added) in
                let from_here : AllDifferent (before ++ p ∷ [])
                    → length (before ++ p ∷ []) ≤ 1024
                    → Found (before ++ p ∷ []) online rest =
                  rw (← same) at later in
                let (all, different, at_most) =
                  from_here (AllDifferent-append before p d new)
                    (ground (arith, length-append before (p ∷ []))) in
                rw (called, identified)
                  (rw (here, is_id)
                    (all ∙ append_assoc before (p ∷ []) (identified rest), different, at_most))
          ]
        ]
      ]

  visit-Found :
      (rest : List ℕ) (before online : List Player)
      → AllDifferent before
      → length before ≤ 1024
      → visit engine w cls fn rest before ≡ ok online
      → Found before online rest
  unfolding visit identified
  visit-Found [] before online d few e =
      let same : before ≡ online = cc in rw (← same) (sym (append-nil before), d, few)
  visit-Found (object ∷ rest) before online d few e =
      let (mid, later, first) = bind-inversion _ (visit engine w cls fn rest) e in
      elim (Bool-cases (is_connected engine w cls object)) [
        | inr other ↦
            let same : before ≡ mid = cc (rw other at first) in
            rw (unconnected object rest other)
              (visit-Found rest before online d few (rw (← same) at later))
        | inl here ↦
            let (id, added, called) =
              bind-inversion _ (λ v. add_player object v before) (rw here at first) in
            add_player-Found object rest id before mid online d few here called added
              (λ d' few'. visit-Found rest mid online d' few' later)
      ]

-- What connected_players gives is a permutation of the connected objects that have a SteamID, in
-- the ascending order of the ids, which are all different; there are at most 1024 of them.
pub connected_players-IsAscending :
    {World Double : Type 0} (engine : Engine World Double) (w : World) (online : List Player)
    → connected_players engine w ≡ ok online
    → Perm online (
        identified engine w
          (engine.find_class w "/Script/SCUM.ConZPlayerController")
          (engine.find_function w "/Script/SCUM.ConZPlayerController:GetUserId")
          (engine.objects w))
      × IsAscending online
      × (length online ≤ 1024)
unfolding connected_players
connected_players-IsAscending engine w online e =
    let cls = engine.find_class w "/Script/SCUM.ConZPlayerController" in
    let fn = engine.find_function w "/Script/SCUM.ConZPlayerController:GetUserId" in
    elim (Bool-cases (cls == 0 || fn == 0 || not (engine.params_size w fn == 16))) [
      | inl missing ↦ cc (rw missing at e)
      | inr there ↦
          let (found, sorted, visited) =
            bind-inversion _ (λ online. ok (sort_by less_id online)) (rw there at e) in
          let (all, different, few) =
            visit-Found engine w cls fn (engine.objects w) [] found tt (omega arith) visited in
          let same : sort_by less_id found ≡ online = cc in
          let perm = sort_by-Perm less_id found in
          rw (← same) (
            subst (λ xs. Perm (sort_by less_id found) xs) all perm,
            IsSorted-IsAscending (sort_by less_id found)
                (sort_by-IsSorted less_id (λ a b. less_text_asym a.id b.id) found)
                (AllDifferent-sort_by found different),
            omega (arith, length-sort_by less_id found, few),
          )
    ]

-- Each player that connected_players gives has a SteamID of 17 digits.
pub connected_players-HasSteamId :
    {World Double : Type 0} (engine : Engine World Double) (w : World) (online : List Player)
    → connected_players engine w ≡ ok online
    → All HasSteamId online
unfolding connected_players
connected_players-HasSteamId engine w online e =
    let cls = engine.find_class w "/Script/SCUM.ConZPlayerController" in
    let fn = engine.find_function w "/Script/SCUM.ConZPlayerController:GetUserId" in
    elim (Bool-cases (cls == 0 || fn == 0 || not (engine.params_size w fn == 16))) [
      | inl missing ↦ cc (rw missing at e)
      | inr there ↦
          let (found, sorted, visited) =
            bind-inversion _ (λ online. ok (sort_by less_id online)) (rw there at e) in
          let (all, different, few) =
            visit-Found engine w cls fn (engine.objects w) [] found tt (omega arith) visited in
          let same : sort_by less_id found ≡ online = cc in
          rw (← same) (
            All-sort_by less_id HasSteamId found
              (rw all (identified-HasSteamId engine w cls fn (engine.objects w))))
    ]
