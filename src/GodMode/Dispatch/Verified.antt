-- ===== src/GodMode/Dispatch/Verified.antt =====
-- When the native GodMode handler is called, and for whom.
use open_scum_rcon.Base.{
  ℕ, ◌+◌, ◌≡◌, refl, sym, ap, ◌∙◌, ◌⊎◌, inl, inr, Bool, true, false, ◌&&◌, some, List, [], ◌∷◌,
  arith, Bytes, same_text, ◌==◌, if◌then◌else◌, Bool-cases, Option-cases, length,
}
use open_scum_rcon.Authority.{CommandAuthority, is_rcon_authorized}
use open_scum_rcon.GodMode.{Action, unrelated, invalid, state, prepare, execute, Request, parse}
use open_scum_rcon.GodMode.Dispatch.{
  Player, Engine, count_matches, find_player, run_native, construct, act, answer_request, guarded,
  dispatch, is_prepare, is_state,
}

module _ (engine : Engine) where
  open engine use {
    World, objects, is_connected, user_id, live_prisoner, new_object, is_instance_sound,
    is_capture_ready,
  }

  -- The connected controllers of a player.
  unfoldable pub controllers : World → Bytes → List ℕ → List ℕ
  controllers w id [] = []
  controllers w id (object ∷ rest) =
      let more = controllers w id rest in
      if is_connected w object && same_text (user_id w object) id then object ∷ more else more

  count_matches-controllers :
      (w : World) (id : Bytes) (rest : List ℕ) (controller found : ℕ)
      → ((count_matches engine w id rest controller found).1
          ≡ found + length (controllers w id rest))
        × ((controllers w id rest ≡ [])
            → (count_matches engine w id rest controller found).0 ≡ controller)
        × ((c : ℕ)
            → controllers w id rest ≡ c ∷ []
            → (count_matches engine w id rest controller found).0 ≡ c)
  unfolding count_matches controllers
  count_matches-controllers w id [] controller found = (omega arith, λ e. refl, λ c e. cc)
  count_matches-controllers w id (object ∷ rest) controller found =
      elim (Bool-cases (is_connected w object && same_text (user_id w object) id)) [
        | inl here ↦
            let (many, zero_more, one_more) =
              count_matches-controllers w id rest object (found + 1) in
            rw here (
              omega (arith, many),
              λ e. cc,
              λ c e.
                  let first : object ≡ c = cc in
                  let nothing : controllers w id rest ≡ [] = cc in zero_more nothing ∙ first,
            )
        | inr other ↦ rw other (count_matches-controllers w id rest controller found)
      ]

  one_only : (xs : List ℕ) → length xs ≡ 1 → (x : ℕ) × (xs ≡ x ∷ [])
  one_only [] h = absurd (omega arith)
  one_only (x ∷ []) h = (x, refl)
  one_only (x ∷ y ∷ xs) h = absurd (omega arith)

  -- The player that is found has the one connected controller with this SteamID, and its pawn.
  pub find_player_unique :
      (w : World) (id : Bytes) (player : Player)
      → find_player engine w id ≡ inr player
      → (controllers w id (objects w) ≡ player.controller ∷ [])
        × (live_prisoner w player.controller ≡ some player.pawn)
  unfolding find_player
  find_player_unique w id player e =
      let (many, zero_more, one_more) = count_matches-controllers w id (objects w) 0 0 in
      let (controller, found) = count_matches engine w id (objects w) 0 0 in
      elim (Bool-cases (engine.has_player_reflection w)) [
        | inr missing ↦ cc (rw missing at e)
        | inl reflected ↦ elim (Bool-cases (found == 1)) [
          | inr several ↦ cc (rw (reflected, several) at e)
          | inl once ↦
              let (c, only) = one_only (controllers w id (objects w)) (ground arith) in
              elim (Option-cases (live_prisoner w controller)) [
                | inl dead ↦ cc (rw (reflected, once, dead) at e)
                | inr (pawn, lives) ↦ elim (Bool-cases (engine.has_admin_state w pawn)) [
                  | inr without ↦ cc (rw (reflected, once, lives, without) at e)
                  | inl complete ↦
                      let same : record { controller = controller; pawn = pawn } ≡ player =
                        cc (rw (reflected, once, lives, complete) at e) in
                      rw (← same) (only ∙ ap (λ x. x ∷ []) (sym (one_more c only)), lives)
                ]
              ]
        ]
      ]

  -- What a request may do to the game.
  pub data Effect (request : Request) (w : World) : World → Type 0 where
    untouched : Effect request w w
    made :
        (player : Player)
        → controllers w request.steam_id (objects w) ≡ player.controller ∷ []
        → (request.action ≡ prepare) ⊎ (request.action ≡ execute)
        → Effect request w (new_object w player.controller).1
    ran :
        (player : Player)
        → controllers w request.steam_id (objects w) ≡ player.controller ∷ []
        → request.action ≡ execute
        → is_instance_sound
            (new_object w player.controller).1
            (new_object w player.controller).0
            player.controller
          ≡ true
        → Effect request w
            (engine.execute
              (new_object w player.controller).1
              (new_object w player.controller).0
              request.enabled).2

  run_native-Effect :
      (can_hold : ℕ → Bool) (request : Request) (player : Player) (w : World)
      → controllers w request.steam_id (objects w) ≡ player.controller ∷ []
      → request.action ≡ execute
      → is_instance_sound
          (new_object w player.controller).1
          (new_object w player.controller).0
          player.controller
        ≡ true
      → Effect request w
          (run_native engine can_hold request player
            (new_object w player.controller).0
            (new_object w player.controller).1).1
  unfolding run_native
  run_native-Effect can_hold request player w only asked sound =
      elim (Bool-cases
        (is_capture_ready (new_object w player.controller).1 (new_object w player.controller).0)) [
          | inl ready ↦ rw ready (ran player only asked sound)
          | inr no_capture ↦ rw no_capture (made player only (inr asked))
        ]

  construct-Effect :
      (can_hold : ℕ → Bool) (request : Request) (player : Player) (w : World)
      → controllers w request.steam_id (objects w) ≡ player.controller ∷ []
      → (request.action ≡ prepare) ⊎ (request.action ≡ execute)
      → Effect request w (construct engine can_hold request player w).1
  unfolding construct
  construct-Effect can_hold request player w only asked =
      elim (Bool-cases (
        is_instance_sound (new_object w player.controller).1 (new_object w player.controller).0
          player.controller)) [
            | inr unsound ↦ rw unsound (made player only asked)
            | inl sound ↦ rw sound (elim asked [
              | inl prepares ↦
                  let test : is_prepare request.action ≡ true = rw prepares refl in
                  rw test (made player only (inl prepares))
              | inr executes ↦
                  let test : is_prepare request.action ≡ false = rw executes refl in
                  rw test (run_native-Effect can_hold request player w only executes sound)
            ])
          ]

  act-Effect :
      (can_hold : ℕ → Bool) (request : Request) (player : Player) (w : World)
      → controllers w request.steam_id (objects w) ≡ player.controller ∷ []
      → (request.action ≡ state) ⊎ ((request.action ≡ prepare) ⊎ (request.action ≡ execute))
      → Effect request w (act engine can_hold request player w).1
  unfolding act
  act-Effect can_hold request player w only (inl reads) =
      let test : is_state request.action ≡ true = rw reads refl in rw test untouched
  act-Effect can_hold request player w only (inr acts) =
      let changes : is_state request.action ≡ false = elim acts [
        | inl e ↦ rw e refl
        | inr e ↦ rw e refl
      ] in
      rw changes (elim (Bool-cases (engine.has_class w)) [
        | inr missing ↦ rw missing untouched
        | inl there ↦ rw there (elim (Bool-cases (engine.is_default_sound w)) [
          | inr unsound ↦ rw unsound untouched
          | inl sound ↦ rw sound (construct-Effect can_hold request player w only acts)
        ])
      ])

  abbrev Asks : Request → Type 0
  Asks request =
      (request.action ≡ state) ⊎ ((request.action ≡ prepare) ⊎ (request.action ≡ execute))

  player_cases : (o : Bytes ⊎ Player) → ((e : Bytes) × (o ≡ inl e)) ⊎ ((p : Player) × (o ≡ inr p))
  player_cases (inl e) = inl (e, refl)
  player_cases (inr p) = inr (p, refl)

  answer_request-Effect :
      (can_hold : ℕ → Bool) (signatures_ok : Bool) (request : Request) (w : World)
      → Asks request
      → Effect request w (answer_request engine can_hold signatures_ok request w).1
  unfolding answer_request
  answer_request-Effect can_hold false request w asks = untouched
  answer_request-Effect can_hold true request w asks =
      elim (player_cases (find_player engine w request.steam_id)) [
        | inl (error, e) ↦ rw (e, answer_request) untouched
        | inr (player, e) ↦
            rw (e, answer_request)
              (act-Effect can_hold request player w
                (find_player_unique w request.steam_id player e).0 asks)
      ]

  action_cases :
      (a : Action)
      → (a ≡ unrelated) ⊎ ((a ≡ invalid) ⊎ ((a ≡ state) ⊎ ((a ≡ prepare) ⊎ (a ≡ execute))))
  action_cases unrelated = inl refl
  action_cases invalid = inr (inl refl)
  action_cases state = inr (inr (inl refl))
  action_cases prepare = inr (inr (inr (inl refl)))
  action_cases execute = inr (inr (inr (inr refl)))

  guarded-Effect :
      (can_hold : ℕ → Bool) (signatures_ok : Bool) (request : Request)
      (authority : CommandAuthority) (w : World)
      → Asks request
      → Effect request w (guarded engine can_hold signatures_ok request authority w).1
        × (is_rcon_authorized authority ≡ false
            → (guarded engine can_hold signatures_ok request authority w).1 ≡ w)
  unfolding guarded
  guarded-Effect can_hold signatures_ok request authority w asks =
      elim (Bool-cases (is_rcon_authorized authority)) [
        | inr refused ↦ rw refused (untouched, λ e. refl)
        | inl fine ↦ rw fine (answer_request-Effect can_hold signatures_ok request w asks, λ e. cc)
      ]

  -- A request changes the game in no other way than these: for a prepare or execute request it makes
  -- one object for the only connected controller that has its SteamID, and for an execute request
  -- it may call the native handler once, on this object after it was validated, with the value
  -- asked for. Without the authority of an authenticated connection it changes nothing.
  pub dispatch-Effect :
      (can_hold : ℕ → Bool) (signatures_ok : Bool) (input : Bytes) (authority : CommandAuthority)
      (w : World)
      → Effect (parse input) w (dispatch engine can_hold signatures_ok input authority w).1
        × (is_rcon_authorized authority ≡ false
            → (dispatch engine can_hold signatures_ok input authority w).1 ≡ w)
  unfolding dispatch parse
  dispatch-Effect can_hold signatures_ok input authority w =
      elim (action_cases (parse input).action) [
        | inl e ↦ rw (e, dispatch) (untouched, λ _. refl)
        | inr (inl e) ↦ rw (e, dispatch) (untouched, λ _. refl)
        | inr (inr (inl e)) ↦
            rw (e, dispatch)
              (guarded-Effect can_hold signatures_ok (parse input) authority w (inl e))
        | inr (inr (inr (inl e))) ↦
            rw (e, dispatch)
              (guarded-Effect can_hold signatures_ok (parse input) authority w (inr (inl e)))
        | inr (inr (inr (inr e))) ↦
            rw (e, dispatch)
              (guarded-Effect can_hold signatures_ok (parse input) authority w (inr (inr e)))
      ]
