-- ===== src/Admin/Latched.antt =====
-- The latch of native exceptions, through the queue and the two threads.
use open_scum_rcon.Base.{ℕ, ◌≡◌, sym, ap, ◌∙◌, subst, inl, inr, Bool, true, some, Option-cases}
use open_scum_rcon.Authority.{is_rcon_authorized}
use open_scum_rcon.Queue.{PendingCommand, set_value}
use open_scum_rcon.LiveQuery.{Numbers}
use open_scum_rcon.GodMode
use open_scum_rcon.GodMode.Dispatch
use open_scum_rcon.GodMode.Dispatch.Verified
use open_scum_rcon.Request.{parse_dispatch_request}
use open_scum_rcon.Registry.Engine
use open_scum_rcon.Registry.Engine.{State}
use open_scum_rcon.Registry
use open_scum_rcon.Admin.{AdminDispatch}
use open_scum_rcon.Admin.Routed
use open_scum_rcon.Admin.Console.{Change, none_made, diagnosed, commanded, console, respond-Change}
use open_scum_rcon.Mod.{Call, Game, Flags, Reply, respond, answer_item}
use open_scum_rcon.Mod
use open_scum_rcon.Mod.Order

-- One round of the loop leaves the world that `respond` leaves.
answer_item-world :
    (game : Game) (item : PendingCommand) (s t : Mod.State game)
    → answer_item game item s ≡ some t
    → t.world ≡ (respond game item s.flags s.world).2
unfolding answer_item
answer_item-world game item s t e =
    let (reply, flags, world) = respond game item s.flags s.world in
    elim (Option-cases (set_value item.response reply s.queue.futures)) [
      | inl bad ↦ cc (rw bad at e)
      | inr (futures, set) ↦
          let same : record s {
            queue = record s.queue { futures = futures };
            flags = flags;
            world = world;
          }
              ≡ t =
            cc (rw set at e) in
          ap (λ u. u.world) (sym same)
    ]

module _ {Double : Type 0} (godmode : Dispatch.Engine)
    (registry : Engine.Engine godmode.World Double) (numbers : Numbers Double) (zeroed : Double)
    (can_hold : ℕ → Bool) (signatures_ok : Bool) (d : AdminDispatch)
    (diagnose : Call → godmode.World → Reply × godmode.World) where
  abbrev the_console : Game
  the_console = console godmode registry numbers zeroed can_hold signatures_ok d diagnose

  -- What is left of the changes of a command once the latch is set.
  pub data LatchedChange (item : PendingCommand) (w : godmode.World) : godmode.World → Type 0 where
    none_left : LatchedChange item w w
    diagnosed_only : (c : Call) → LatchedChange item w (diagnose c w).1
    godmode_only :
        (w' : godmode.World)
        → is_rcon_authorized item.authority ≡ true
        → Verified.Effect godmode (GodMode.parse item.command_text) w w'
        → LatchedChange item w w'

  Change-latched :
      (item : PendingCommand) (s t : State godmode.World)
      → Change godmode registry numbers zeroed can_hold signatures_ok d diagnose item s t
      → s.native_faulted ≡ true
      → (t.native_faulted ≡ true) × LatchedChange item s.world t.world
  Change-latched item s _ none_made e = (e, none_left)
  Change-latched item s _ (diagnosed c) e = (e, diagnosed_only c)
  Change-latched item s _ (commanded _ fine Routed.untouched) e = (e, none_left)
  Change-latched item s _ (commanded _ fine (Routed.by_godmode w own effect)) e =
      (e, godmode_only w fine effect)
  Change-latched item s t (commanded _ fine (Routed.by_registry _ other effect)) e =
      let (kept, same) =
        Registry.Effect.Effect-latched registry numbers zeroed
          (parse_dispatch_request item.command_text) s t effect e in
      (kept, rw same none_left)

  Step-latched :
      (u v : Order.System the_console)
      → Order.Step the_console u v
      → u.state.world.native_faulted ≡ true
      → v.state.world.native_faulted ≡ true
  Step-latched u v (Order.enqueues command_text authority e) h = rw e h
  Step-latched u v (Order.drains e f) h = rw f h
  Step-latched u v (Order.answers item items e a f) h =
      ap (λ s. s.native_faulted) (answer_item-world the_console item u.state v.state a)
      ∙ (Change-latched item u.state.world _
          (respond-Change godmode registry numbers zeroed can_hold signatures_ok d diagnose item
            u.state.flags u.state.world)
          h).0

  Reach-latched :
      (u v : Order.System the_console)
      → Order.Reach the_console u v
      → u.state.world.native_faulted ≡ true
      → v.state.world.native_faulted ≡ true
  Reach-latched u _ Order.here h = h
  Reach-latched u w (Order.next {v = v} r s) h = Step-latched v w s (Reach-latched u v r h)

  -- Once a native call of the registry has raised an exception: however commands are queued and
  -- answered from then on, a command that is answered changes the game only by a function for
  -- diagnosis or as GodMode may, and never calls into the registry's commands again.
  pub answer_item_latched :
      (u v : Order.System the_console) (item : PendingCommand) (t : Mod.State the_console)
      → u.state.world.native_faulted ≡ true
      → Order.Reach the_console u v
      → answer_item the_console item v.state ≡ some t
      → LatchedChange item v.state.world.world t.world.world
  answer_item_latched u v item t h r a =
      subst (λ s. LatchedChange item v.state.world.world s.world)
        (sym (answer_item-world the_console item v.state t a))
        (Change-latched item v.state.world _
          (respond-Change godmode registry numbers zeroed can_hold signatures_ok d diagnose item
            v.state.flags v.state.world)
          (Reach-latched u v r h)).1
