-- ===== src/Admin.antt =====
-- native_module/src/admin_dispatch.cpp: the set-up of AdminDispatch, the object that a command is
-- called on, and the order in which a command is offered to GodMode and to the registry.
-- The dumps for diagnosis, which only write a log, are left out.
pub mod Routed
pub mod Console
pub mod Latched
use open_scum_rcon.Base.{
  ℕ, zero, suc, ◌+◌, ◌-◌, ◌*◌, ◌/◌, ◌%◌, ◌^◌, ◌≤◌, ◌<◌, min, ◌≡◌, refl, sym, ap, ◌∙◌, subst, ◌≢◌,
  ◌↔◌, ◌⊎◌, inl, inr, Bool, true, false, not, ◌&&◌, ◌||◌, Option, none, some, List, [], ◌∷◌, ◌++◌,
  map, append-nil, append_assoc, arith, Bytes, IsBytes, text, same_text, same_text_iff, any_byte,
  all_bytes, starts_with, contains_text, less_text, IsPlain, no_break, plain, ◌⊕◌, IsPlain-take,
  less_text_asym, less_text_connex, starts_with-append, insert_by, sort_by, IsSorted,
  sort_by-IsSorted, sort_by-Perm, length-sort_by, All-sort_by, digits, decimal, signed_decimal,
  decimal-IsPlain, signed_decimal-IsPlain, Perm, Result, ok, err, ◌>>=◌, bind-inversion,
  Result-cases, ltb, leb, ◌==◌, if◌then◌else◌, ltb→lt, ltb→ge, leb→le, ==_iff, Bool-cases,
  Option-inversion, if-elim, Option-cases, length, get_or, take, drop, replicate, length-append,
  take-append-drop, length-take, length-drop, length-replicate, take_all, drop_all, take-append_eq,
  drop-append_eq, take-append_right, drop-drop, get_or-drop, get_or-take, get_or_inside,
  take-append_left, drop-append_left, drop-append_right, get_or-append_left, get_or-append_right,
  All, All-append, All-append_left, All-append_right, All-take, All-drop, All-get_or, All-get_or_lt,
}
use mathlib.Core.Option
use Prim.Native.String.{String}
use open_scum_rcon.Authority.{CommandAuthority, is_rcon_authorized}
use open_scum_rcon.LiveQuery.{Numbers}
use open_scum_rcon.GodMode.Dispatch
use open_scum_rcon.Registry.Engine
use open_scum_rcon.Registry.Engine.{State}
use open_scum_rcon.Registry.Execute

-- What `initialize` resolves, 0 where it is not found.
pub record AdminDispatch : Type 0 where
  pub initialized : Bool
  pub test_process_admin_command : ℕ
  pub player_controller_class : ℕ
  pub game_instance_class : ℕ
  pub player_rpc_channel_class : ℕ
  pub chat_server_process_admin_command : ℕ

-- The objects found by name; what was resolved is kept where others are missing.
unfoldable pub initialize : (String → ℕ) → AdminDispatch → Bool × AdminDispatch
initialize find d =
    let resolved : AdminDispatch = record {
      initialized = d.initialized;
      test_process_admin_command = find "/Script/SCUM.MiscStatics:Test_ProcessAdminCommand";
      player_controller_class = find "/Script/SCUM.ConZPlayerController";
      game_instance_class = find "/Script/SCUM.ConZGameInstance";
      player_rpc_channel_class = find "/Script/SCUM.PlayerRpcChannel";
      chat_server_process_admin_command =
          find "/Script/SCUM.PlayerRpcChannel:Chat_Server_ProcessAdminCommand";
    } in
    if resolved.player_controller_class == 0
      || resolved.player_rpc_channel_class == 0
      || resolved.chat_server_process_admin_command == 0
    then (false, resolved)
    else (true, record resolved { initialized = true })

-- What the search for an object asks: whether it is unreachable, of a class, and a default object.
pub record Objects : Type 0 where
  pub is_unreachable : ℕ → Bool
  pub is_a : ℕ → ℕ → Bool
  pub is_default_object_name : ℕ → Bool

module _ (about : Objects) (d : AdminDispatch) where
  open about use {is_unreachable, is_a, is_default_object_name}

  abbrev pub is_instance : ℕ → ℕ → Bool
  is_instance object cls = is_a object cls && not (is_default_object_name object)

  -- The callback over the objects, with `fallback`; the search ends at a player's controller.
  unfoldable pub search_context : List ℕ → ℕ → ℕ
  search_context [] fallback = fallback
  search_context (object ∷ rest) fallback =
      let unchanged = search_context rest fallback in
      let first = search_context rest object in
      if object == 0 || is_unreachable object
      then unchanged
      else if is_instance object d.player_controller_class
      then object
      else if not (d.game_instance_class == 0)
          && fallback == 0
          && is_instance object d.game_instance_class
      then first
      else unchanged

  -- From the list of the objects.
  unfoldable pub find_admin_context_object : List ℕ → ℕ
  find_admin_context_object objects = search_context objects 0

module _ {Double : Type 0} (godmode : Dispatch.Engine)
    (registry : Engine.Engine godmode.World Double) (numbers : Numbers Double) (zeroed : Double)
    (can_hold : ℕ → Bool) (signatures_ok : Bool) where
  -- Behind GodMode: its reply, or the registry.
  unfoldable pub or_registry :
      Option Bytes
      → Bytes
      → CommandAuthority
      → State godmode.World
      → Result Bytes × State godmode.World
  or_registry (some reply) raw_command_text authority s = (ok reply, s)
  or_registry none raw_command_text authority s =
      Execute.dispatch registry numbers zeroed can_hold raw_command_text authority s

  unfoldable pub dispatch_command :
      AdminDispatch
      → Bytes
      → CommandAuthority
      → State godmode.World
      → Result Bytes × State godmode.World
  dispatch_command d raw_command_text authority s =
      if not (is_rcon_authorized authority)
      then (ok (text "error: authenticated RCON connection required"), s)
      else if not d.initialized
      then (ok (text "error: AdminDispatch not initialized"), s)
      else (let (reply, w) =
            Dispatch.dispatch godmode can_hold signatures_ok raw_command_text authority s.world in
          or_registry reply raw_command_text authority (record s { world = w }))
