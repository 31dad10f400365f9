-- ===== src/Admin/Console.antt =====
-- The console of dllmain.cpp over AdminDispatch: what a queued command may do to the game.
-- The functions for diagnosis and tracing are a parameter: each replies, and may change the game.
use open_scum_rcon.Base.{
  ℕ, ◌≡◌, refl, ◌⊎◌, inl, inr, Bool, true, arith, Bytes, Result, ok, err, Bool-cases,
}
use open_scum_rcon.Authority.{CommandAuthority, is_rcon_authorized}
use open_scum_rcon.Queue.{PendingCommand}
use open_scum_rcon.LiveQuery.{Numbers}
use open_scum_rcon.GodMode.Dispatch
use open_scum_rcon.Registry.Engine
use open_scum_rcon.Registry.Engine.{State}
use open_scum_rcon.Admin.{AdminDispatch}
use open_scum_rcon.Admin
use open_scum_rcon.Admin.Routed.{Effect, dispatch_command-Effect}
use open_scum_rcon.Mod.{
  Call, Game, Flags, Outcome, Reply, returned, threw, threw_unknown, calls, replies, dispatches,
  run_switch, run_command, caught, respond,
}

reply_cases :
    (r : Reply)
    → ((b : Bytes) × (r ≡ returned b)) ⊎ (((b : Bytes) × (r ≡ threw b)) ⊎ (r ≡ threw_unknown))
reply_cases (returned b) = inl (b, refl)
reply_cases (threw b) = inr (inl (b, refl))
reply_cases threw_unknown = inr (inr refl)

module _ (game : Game) where
  open game use {World, call}

  run_command_world :
      (command_text : Bytes) (authority : CommandAuthority) (flags : Flags) (world : World)
      (after : World)
      → after ≡ (run_command game command_text authority flags world).world
      → (after ≡ world)
        ⊎ ((after ≡ (call Call.trace_start world).1)
            ⊎ ((after ≡ (call Call.trace_stop world).1)
                ⊎ ((after ≡ (call Call.trace_status world).1)
                    ⊎ ((after ≡ (call Call.dump_admin_command_permission_levels world).1)
                        ⊎ ((after ≡ (call Call.dump_test_process_admin_command_address world).1)
                            ⊎ ((after ≡ (call Call.dump_player_rpc_channel_info world).1)
                                ⊎ ((after ≡ (call Call.dump_chat_server_function_flags world).1)
                                    ⊎ ((after ≡ (call Call.call_context_resolver_and_dump world).1)
                                        ⊎ ((after
                                              ≡ (call Call.call_executor_resolver_and_dump world).1)
                                            ⊎ ((after ≡ (call Call.dump_setgodmode_field world).1)
                                                ⊎ (after
                                                    ≡ (call
                                                        (Call.dispatch_command command_text
                                                          authority)
                                                        world).1)))))))))))
  unfolding run_command run_switch calls replies dispatches
  run_command_world command_text authority flags world after e = ground arith

  -- Exceptions that are caught leave the world as it is.
  caught_world : (o : Outcome game) → (caught game o).2 ≡ o.world
  unfolding caught
  caught_world o = elim (reply_cases o.reply) [
    | inl (reply, e) ↦ rw (e, caught) refl
    | inr (inl (what, e)) ↦ rw (e, caught) refl
    | inr (inr e) ↦ rw (e, caught) refl
  ]

module _ {Double : Type 0} (godmode : Dispatch.Engine)
    (registry : Engine.Engine godmode.World Double) (numbers : Numbers Double) (zeroed : Double)
    (can_hold : ℕ → Bool) (signatures_ok : Bool) (d : AdminDispatch)
    (diagnose : Call → godmode.World → Reply × godmode.World) where
  abbrev as_reply : Result Bytes → Reply
  as_reply (ok reply) = returned reply
  as_reply (err what) = threw what

  unfoldable pub answer_call : Call → State godmode.World → Reply × State godmode.World
  answer_call (Call.dispatch_command command_text authority) s =
      let (result, s') =
        Admin.dispatch_command godmode registry numbers zeroed can_hold signatures_ok d command_text
          authority s in
      (as_reply result, s')
  answer_call c s = let (reply, w) = diagnose c s.world in (reply, record s { world = w })

  -- The game that the console of the module works on.
  abbrev pub console : Game
  console = record { World = State godmode.World; call = answer_call }

  -- What a queued command may do to the game.
  pub data Change (item : PendingCommand) (s : State godmode.World)
      : State godmode.World → Type 0 where
    none_made : Change item s s
    diagnosed : (c : Call) → Change item s (record s { world = (diagnose c s.world).1 })
    commanded :
        (t : State godmode.World)
        → is_rcon_authorized item.authority ≡ true
        → Effect godmode registry numbers zeroed can_hold signatures_ok item.command_text s t
        → Change item s t

  run_command-Change :
      (item : PendingCommand) (flags : Flags) (s : State godmode.World)
      → is_rcon_authorized item.authority ≡ true
      → Change item s (run_command console item.command_text item.authority flags s).world
  unfolding answer_call
  run_command-Change item flags s fine =
      elim (run_command_world console item.command_text item.authority flags s _ refl) [
        | inl e ↦ rw e none_made
        | inr (inl e) ↦ rw e (diagnosed Call.trace_start)
        | inr (inr (inl e)) ↦ rw e (diagnosed Call.trace_stop)
        | inr (inr (inr (inl e))) ↦ rw e (diagnosed Call.trace_status)
        | inr (inr (inr (inr (inl e)))) ↦ rw e (diagnosed Call.dump_admin_command_permission_levels)
        | inr (inr (inr (inr (inr (inl e))))) ↦
            rw e (diagnosed Call.dump_test_process_admin_command_address)
        | inr (inr (inr (inr (inr (inr (inl e)))))) ↦
            rw e (diagnosed Call.dump_player_rpc_channel_info)
        | inr (inr (inr (inr (inr (inr (inr (inl e))))))) ↦
            rw e (diagnosed Call.dump_chat_server_function_flags)
        | inr (inr (inr (inr (inr (inr (inr (inr (inl e)))))))) ↦
            rw e (diagnosed Call.call_context_resolver_and_dump)
        | inr (inr (inr (inr (inr (inr (inr (inr (inr (inl e))))))))) ↦
            rw e (diagnosed Call.call_executor_resolver_and_dump)
        | inr (inr (inr (inr (inr (inr (inr (inr (inr (inr (inl e)))))))))) ↦
            rw e (diagnosed Call.dump_setgodmode_field)
        | inr (inr (inr (inr (inr (inr (inr (inr (inr (inr (inr e)))))))))) ↦ rw e (
            commanded _ fine
              (dispatch_command-Effect godmode registry numbers zeroed can_hold signatures_ok d
                item.command_text item.authority s).0)
      ]

  -- A queued command changes the game only by a function for diagnosis, or, with the authority of an
  -- authenticated connection, as GodMode or the registry may change it for the command's text.
  pub respond-Change :
      (item : PendingCommand) (flags : Flags) (s : State godmode.World)
      → Change item s (respond console item flags s).2
  unfolding respond
  respond-Change item flags s = elim (Bool-cases (is_rcon_authorized item.authority)) [
    | inr refused ↦ rw refused none_made
    | inl fine ↦
        rw
          (
            fine,
            caught_world console (run_command console item.command_text item.authority flags s),
          )
          (run_command-Change item flags s fine)
  ]
