-- ===== src/GodMode/Dispatch.antt =====
-- native_module/src/godmode_dispatch.cpp: `find_player` and `dispatch`.
-- The engine is a parameter: what is read of the world, and the two calls that change it, the making
-- of an object and the native handler, which gives its result and the replies that it sends for
-- the object. An object is a number.
pub mod Verified
use open_scum_rcon.Base.{
  ℕ, zero, suc, ◌+◌, ◌-◌, ◌*◌, ◌/◌, ◌%◌, ◌^◌, ◌≤◌, ◌<◌, min, ◌≡◌, refl, sym, ap, ◌∙◌, subst, ◌≢◌,
  ◌↔◌, ◌⊎◌, inl, inr, Bool, true, false, not, ◌&&◌, ◌||◌, Option, none, some, List, [], ◌∷◌, ◌++◌,
  map, append-nil, append_assoc, arith, Bytes, IsBytes, text, same_text, same_text_iff, any_byte,
  all_bytes, ltb, leb, ◌==◌, if◌then◌else◌, ltb→lt, ltb→ge, leb→le, ==_iff, Bool-cases,
  Option-cases, length, get_or, take, drop, replicate, length-append, take-append-drop, length-take,
  length-drop, length-replicate, take_all, drop_all, take-append_eq, drop-append_eq,
  take-append_right, drop-drop, get_or-drop, get_or-take, get_or_inside, take-append_left,
  drop-append_left, drop-append_right, get_or-append_left, get_or-append_right, All, All-append,
  All-append_left, All-append_right, All-take, All-drop, All-get_or, All-get_or_lt,
}
use mathlib.Core.Option
use open_scum_rcon.Authority.{CommandAuthority, is_rcon_authorized}
use open_scum_rcon.Response.{ResponseScope, fresh}
use open_scum_rcon.Response.Replies.{collect_all}
use open_scum_rcon.GodMode.{Action, unrelated, invalid, state, prepare, execute, Request, parse}

pub record Player : Type 0 where
  pub controller : ℕ
  pub pawn : ℕ

pub record Engine : Type 1 where
  pub World : Type 0
  -- The classes and the function are there, with the parameters expected.
  pub has_player_reflection : World → Bool
  -- The objects, of which those with a live connection count as connected controllers.
  pub objects : World → List ℕ
  pub is_connected : World → ℕ → Bool
  pub user_id : World → ℕ → Bytes
  -- The pawn that a controller has, if it is a live Prisoner.
  pub live_prisoner : World → ℕ → Option ℕ
  pub has_pawn : World → ℕ → ℕ → Bool
  pub has_admin_state : World → ℕ → Bool
  pub god : World → ℕ → Bool
  pub immortal : World → ℕ → Bool
  -- The class, its default object, and the object that is made for a controller.
  pub has_class : World → Bool
  pub is_default_sound : World → Bool
  pub can_execute : World → ℕ → Bool × Bytes
  pub new_object : World → ℕ → ℕ × World
  pub is_instance_sound : World → ℕ → ℕ → Bool
  pub is_capture_ready : World → ℕ → Bool
  pub execute : World → ℕ → Bool → Bool × List Bytes × World

abbrev pub unauthorized : Bytes
unauthorized = text "error: authenticated RCON connection required"

abbrev pub usage : Bytes
usage =
    text
      "error: usage: SetGodMode <true|false> <17-digit SteamID> | !godmode_state <SteamID> | !godmode_prepare <SteamID>"

abbrev pub same_bool : Bool → Bool → Bool
same_bool a b = if a then b else not b

abbrev pub is_state : Action → Bool
is_state state = true
is_state action = false

abbrev pub is_prepare : Action → Bool
is_prepare prepare = true
is_prepare action = false

module _ (engine : Engine) where
  open engine use {
    World, has_player_reflection, objects, is_connected, user_id, live_prisoner, has_pawn,
    has_admin_state, god, immortal, has_class, is_default_sound, can_execute, new_object,
    is_instance_sound, is_capture_ready,
  }

  -- `ForEachUObject`: the controller found last, and how many were found.
  unfoldable pub count_matches : World → Bytes → List ℕ → ℕ → ℕ → ℕ × ℕ
  count_matches w id [] controller found = (controller, found)
  count_matches w id (object ∷ rest) controller found =
      if is_connected w object && same_text (user_id w object) id
      then count_matches w id rest object (found + 1)
      else count_matches w id rest controller found

  -- An error, or the player.
  unfoldable pub find_player : World → Bytes → Bytes ⊎ Player
  find_player w id =
      let (controller, found) = count_matches w id (objects w) 0 0 in
      if not (has_player_reflection w)
      then inl (text "player reflection unavailable or signature mismatch")
      else if not (found == 1)
      then inl (
          if not (found == 0)
          then text "ambiguous connected SteamID"
          else text "target SteamID is not connected")
      else elim (live_prisoner w controller) [
        | none ↦ inl (text "target has no live Prisoner pawn")
        | some pawn ↦
            if not (has_admin_state w pawn)
            then inl (text "admin-state reflection unavailable")
            else inr (record { controller = controller; pawn = pawn })
      ]

  abbrev pub shown : Bool → Bytes
  shown b = if b then text "true" else text "false"

  unfoldable pub state_of : World → Player → Bytes
  state_of w player =
      text "godmode="
      ++ shown (god w player.pawn)
      ++ text " immortal="
      ++ shown (immortal w player.pawn)

  -- The reply to an execution that was verified, with what was captured.
  unfoldable pub verified_reply : Request → Bytes → ResponseScope → Bytes
  verified_reply request after scope =
      text "ok: native SetGodMode verified; steam_id="
      ++ request.steam_id
      ++ text " "
      ++ after
      ++ (if length scope.output == 0 then [] else b'\n' ∷ scope.output)
      ++ (if scope.failed
          then text "\nwarning: state verified but native reply capture failed"
          else [])
      ++ (if scope.cut then text "\n[response truncated]" else [])

  -- Behind the native handler.
  unfoldable pub verify : Request → Player → Bool → Bool → ResponseScope → World → Bytes
  verify request player old_immortal result scope w =
      if not (has_pawn w player.controller player.pawn)
      then text "error: target pawn changed during native GodMode execution; verify player state"
      else (let after = state_of w player in
          if not result
            || not (same_bool (god w player.pawn) request.enabled)
            || not (same_bool (immortal w player.pawn) old_immortal)
          then text "error: native GodMode result/state verification failed; " ++ after
          else verified_reply request after scope)

  -- From the check of the capture on; the scope collects the replies that the handler sends.
  unfoldable pub run_native : (ℕ → Bool) → Request → Player → ℕ → World → Bytes × World
  run_native can_hold request player instance w =
      if not (is_capture_ready w instance)
      then (text "error: native response capture unavailable; GodMode was not executed", w)
      else (let (result, replies, w') = engine.execute w instance request.enabled in
          let scope = collect_all can_hold replies (fresh instance) in
          (verify request player (immortal w player.pawn) result scope w', w'))

  unfoldable pub chat_diagnostic : World → Player → Bytes
  chat_diagnostic w player =
      let (allowed, reason) = can_execute w player.controller in
      text " chat_can_execute="
      ++ shown allowed
      ++ (if allowed then [] else text " chat_reason=" ++ reason)

  -- Behind the checks of the class: the object is made, and the handler called unless the request
  -- was only to prepare.
  unfoldable pub construct : (ℕ → Bool) → Request → Player → World → Bytes × World
  unfolding chat_diagnostic
  construct can_hold request player w =
      let (instance, w') = new_object w player.controller in
      if not (is_instance_sound w' instance player.controller)
      then (text "error: constructed GodMode instance failed validation", w')
      else if is_prepare request.action
      then (
        text
              "ok: prepared SetGodMode_C; authority=authenticated_rcon outer=target_controller steam_id="
            ++ request.steam_id
            ++ text " "
            ++ state_of w player
            ++ chat_diagnostic w player
            ++ text " executed=false",
        w',
      )
      else run_native can_hold request player instance w'

  -- With a player.
  unfoldable pub act : (ℕ → Bool) → Request → Player → World → Bytes × World
  act can_hold request player w =
      if is_state request.action
      then (text "ok: steam_id=" ++ request.steam_id ++ text " " ++ state_of w player, w)
      else if not (has_class w)
      then (text "error: SetGodMode blueprint class unavailable", w)
      else if not (is_default_sound w)
      then (text "error: SetGodMode CDO/vtable mismatch", w)
      else construct can_hold request player w

  unfoldable pub answer_request : (ℕ → Bool) → Bool → Request → World → Bytes × World
  answer_request can_hold signatures_ok request w =
      if not signatures_ok
      then (text "error: native GodMode disabled: unsupported SCUM build/signature", w)
      else elim (find_player w request.steam_id) [
        | inl error ↦ (text "error: " ++ error, w)
        | inr player ↦ act can_hold request player w
      ]

  unfoldable pub guarded :
      (ℕ → Bool) → Bool → Request → CommandAuthority → World → Option Bytes × World
  guarded can_hold signatures_ok request authority w =
      if not (is_rcon_authorized authority)
      then (some unauthorized, w)
      else (let (reply, w') = answer_request can_hold signatures_ok request w in (some reply, w'))

  -- `none` is std::nullopt, a request that is not about GodMode.
  unfoldable pub dispatch :
      (ℕ → Bool) → Bool → Bytes → CommandAuthority → World → Option Bytes × World
  dispatch can_hold signatures_ok input authority w =
      let request = parse input in
      elim request.action [
        | unrelated ↦ (none, w)
        | invalid ↦ (some (if not (is_rcon_authorized authority) then unauthorized else usage), w)
        | state ↦ guarded can_hold signatures_ok request authority w
        | prepare ↦ guarded can_hold signatures_ok request authority w
        | execute ↦ guarded can_hold signatures_ok request authority w
      ]
