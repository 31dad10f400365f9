-- ===== src/Admin/Routed.antt =====
-- Where a command goes, and which object it is called on.
use open_scum_rcon.Base.{
  ℕ, ◌≡◌, refl, ◌≢◌, ◌⊎◌, inl, inr, Bool, true, false, not, ◌&&◌, ◌||◌, none, some, List, [], ◌∷◌,
  arith, Bytes, ◌==◌, if◌then◌else◌, Bool-cases,
}
use open_scum_rcon.Authority.{CommandAuthority, is_rcon_authorized}
use open_scum_rcon.LiveQuery.{Numbers}
use open_scum_rcon.GodMode.{Action, unrelated, invalid, state, prepare, execute}
use open_scum_rcon.GodMode
use open_scum_rcon.GodMode.Dispatch
use open_scum_rcon.GodMode.Dispatch.Verified
use open_scum_rcon.Request.{parse_dispatch_request}
use open_scum_rcon.Registry.Engine
use open_scum_rcon.Registry.Engine.{State}
use open_scum_rcon.Registry
use open_scum_rcon.Admin.{
  AdminDispatch, Objects, search_context, find_admin_context_object, or_registry, dispatch_command,
}

-- Whether an object counts, for a class.
module _ (about : Objects) where
  unfoldable pub instances : ℕ → List ℕ → List ℕ
  instances cls [] = []
  instances cls (object ∷ rest) =
      let more = instances cls rest in
      if not (object == 0 || about.is_unreachable object)
        && (about.is_a object cls && not (about.is_default_object_name object))
      then object ∷ more
      else more

abbrev pub first_or : ℕ → List ℕ → ℕ
first_or d [] = d
first_or d (x ∷ xs) = x

search_context_first :
    (about : Objects) (d : AdminDispatch) (objects : List ℕ) (fallback : ℕ)
    → d.game_instance_class ≢ 0
    → search_context about d objects fallback
      ≡ first_or
          (if fallback == 0
            then first_or 0 (instances about d.game_instance_class objects)
            else fallback)
          (instances about d.player_controller_class objects)
unfolding search_context instances
search_context_first about d [] fallback h = ground arith
search_context_first about d (object ∷ rest) fallback h =
    let unchanged = search_context_first about d rest fallback h in
    let first = search_context_first about d rest object h in ground (arith, unchanged, first, h)

-- With a class of game instances, a command is called on the first player's controller among the
-- reachable objects that are no default objects; only where there is none, on the first game
-- instance; and on nothing where there is neither.
pub find_admin_context_object_first :
    (about : Objects) (d : AdminDispatch) (objects : List ℕ)
    → d.game_instance_class ≢ 0
    → find_admin_context_object about d objects
      ≡ first_or
          (first_or 0 (instances about d.game_instance_class objects))
          (instances about d.player_controller_class objects)
unfolding find_admin_context_object
find_admin_context_object_first about d objects h = search_context_first about d objects 0 h

module _ {Double : Type 0} (godmode : Dispatch.Engine)
    (registry : Engine.Engine godmode.World Double) (numbers : Numbers Double) (zeroed : Double)
    (can_hold : ℕ → Bool) (signatures_ok : Bool) where
  -- What a command may do to the game: what GodMode may do with it, where it is about GodMode, and
  -- else what the registry may do with it.
  pub data Effect (input : Bytes) (s : State godmode.World) : State godmode.World → Type 0 where
    untouched : Effect input s s
    by_godmode :
        (w : godmode.World)
        → (GodMode.parse input).action ≢ unrelated
        → Verified.Effect godmode (GodMode.parse input) s.world w
        → Effect input s (record s { world = w })
    by_registry :
        (t : State godmode.World)
        → (GodMode.parse input).action ≡ unrelated
        → Registry.Running.Effect registry (parse_dispatch_request input) s t
        → Effect input s t

  guarded-some :
      (request : GodMode.Request) (authority : CommandAuthority) (w : godmode.World)
      → (r : Bytes) × ((Dispatch.guarded godmode can_hold signatures_ok request authority w).0
          ≡ some r)
  unfolding Dispatch.guarded
  guarded-some request authority w = elim (Bool-cases (is_rcon_authorized authority)) [
    | inl fine ↦ rw fine (_, refl)
    | inr refused ↦ rw refused (_, refl)
  ]

  -- GodMode gives no reply exactly to what is not about it.
  godmode_reply :
      (input : Bytes) (authority : CommandAuthority) (w : godmode.World) (action : Action)
      → (GodMode.parse input).action ≡ action
      → ((action ≡ unrelated)
          × (Dispatch.dispatch godmode can_hold signatures_ok input authority w ≡ (none, w)))
        ⊎ ((action ≢ unrelated)
            × ((r : Bytes) × ((Dispatch.dispatch godmode can_hold signatures_ok input authority w).0
                  ≡ some r)))
  unfolding Dispatch.dispatch
  godmode_reply input authority w unrelated e = inl (refl, rw (e, Dispatch.dispatch) refl)
  godmode_reply input authority w invalid e = inr (λ e. cc, rw (e, Dispatch.dispatch) (_, refl))
  godmode_reply input authority w state e =
      inr (λ e. cc, rw (e, Dispatch.dispatch) (guarded-some (GodMode.parse input) authority w))
  godmode_reply input authority w prepare e =
      inr (λ e. cc, rw (e, Dispatch.dispatch) (guarded-some (GodMode.parse input) authority w))
  godmode_reply input authority w execute e =
      inr (λ e. cc, rw (e, Dispatch.dispatch) (guarded-some (GodMode.parse input) authority w))

  routed :
      (d : AdminDispatch) (input : Bytes) (authority : CommandAuthority) (s : State godmode.World)
      → is_rcon_authorized authority ≡ true
      → d.initialized ≡ true
      → Effect input s
          (dispatch_command godmode registry numbers zeroed can_hold signatures_ok d input authority
            s).1
  unfolding dispatch_command or_registry
  routed d input authority s fine ready = elim (godmode_reply input authority s.world _ refl) [
    | inl (other, e) ↦
        rw (fine, ready, e)
          (by_registry _ other
            (Registry.Effect.registry_dispatch-Effect registry numbers zeroed can_hold input
              authority s).0)
    | inr (own, (r, e)) ↦
        rw (fine, ready, e)
          (by_godmode _ own
            (Verified.dispatch-Effect godmode can_hold signatures_ok input authority s.world).0)
  ]

  -- A command changes the game as GodMode may or as the registry may, never as both; without the
  -- authority of an authenticated connection, or before AdminDispatch is set up, not at all.
  pub dispatch_command-Effect :
      (d : AdminDispatch) (input : Bytes) (authority : CommandAuthority) (s : State godmode.World)
      → Effect input s
          (dispatch_command godmode registry numbers zeroed can_hold signatures_ok d input authority
            s).1
        × ((is_rcon_authorized authority && d.initialized) ≡ false
            → (dispatch_command godmode registry numbers zeroed can_hold signatures_ok d input
                authority s).1
              ≡ s)
  unfolding dispatch_command
  dispatch_command-Effect d input authority s = elim (Bool-cases (is_rcon_authorized authority)) [
    | inr refused ↦ rw refused (untouched, λ _. refl)
    | inl fine ↦ elim (Bool-cases d.initialized) [
      | inr early ↦ rw (fine, early) (untouched, λ _. refl)
      | inl ready ↦ (routed d input authority s fine ready, λ e. cc (rw (fine, ready) at e))
    ]
  ]
