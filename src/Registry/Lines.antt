-- ===== src/Registry/Lines.antt =====
-- The lines of the list of players.
use open_scum_rcon.Base.{
  ℕ, ◌≡◌, refl, sym, ap, ◌∙◌, ◌⊎◌, inl, inr, Bool, true, false, not, ◌&&◌, ◌||◌, Option, List, [],
  ◌∷◌, ◌++◌, append_assoc, arith, Bytes, text, all_bytes, starts_with, IsPlain, no_break, plain,
  ◌⊕◌, starts_with-append, ok, bind-inversion, Result-cases, ◌==◌, Bool-cases, All,
}
use open_scum_rcon.Config.{lines_of}
use open_scum_rcon.LiveQuery.{Numbers}
use open_scum_rcon.Registry.Engine.{Engine, State, string_call}
use open_scum_rcon.Registry.Players.{
  Player, connection_ip, shown_ip, details, player_lines, list_some, list_players,
  connected_players,
}
use open_scum_rcon.Registry.Connected.{HasSteamId, connected_players-HasSteamId}
use open_scum_rcon.Registry.Details.{
  HasSteamId-IsPlain, shown_ip-IsPlain, details-IsPlain, details-blank,
}

lines_of-line :
    (line rest : Bytes) → IsPlain line → lines_of (line ++ b'\n' ∷ rest) ≡ line ∷ lines_of rest
unfolding lines_of no_break
lines_of-line [] rest h = refl
lines_of-line (c ∷ line) rest h =
    let e : (not (c == b'\n') && no_break line) ≡ true = h.unbroken in
    let here : (c == b'\n') ≡ false = ground arith in
    rw (here, lines_of-line line rest (record { unbroken = ground arith }), lines_of) refl

-- There is one line for each player, in this order, that begins with the player's SteamID.
abbrev pub HasLines : List Player → List Bytes → Type 0
HasLines [] [] = Unit
HasLines (p ∷ online) (line ∷ lines) =
    (starts_with (text "PLAYER steam=" ++ p.id ++ text " ") line ≡ true) × HasLines online lines
HasLines _ _ = ⊥

module _ {World Double : Type 0} (engine : Engine World Double) (numbers : Numbers Double)
    -- What InetPtonA accepts, and how a stream prints a double.
    (addresses_plain : (a : Bytes) → (engine.is_ipv4 a || engine.is_ipv6 a) ≡ true → IsPlain a)
    (numbers_plain : (d : Double) → IsPlain (numbers.shown_fixed d)) where
  abbrev prefix_of : Player → Bytes
  prefix_of player = text "PLAYER steam=" ++ player.id ++ text " "

  label-IsPlain : IsPlain (text "PLAYER steam=")
  unfolding text all_bytes
  label-IsPlain = plain (text "PLAYER steam=") refl

  -- One line of the list, and those behind it.
  line-HasLines :
      (w : World) (prisoner : ℕ) (player : Player) (ip : Option Bytes) (name : Bytes)
      (online : List Player) (rest : Bytes)
      → HasSteamId player
      → IsPlain (shown_ip ip)
      → HasLines online (lines_of rest)
      → HasLines (player ∷ online) (
          lines_of (
            text "PLAYER steam="
            ++ player.id
            ++ details engine numbers w prisoner player ip name
            ++ b'\n' ∷ rest))
  line-HasLines w prisoner player ip name online rest has_id ip_plain more =
      let shown = details engine numbers w prisoner player ip name in
      let whole : IsPlain (text "PLAYER steam=" ++ player.id ++ shown) =
        label-IsPlain
        ⊕ HasSteamId-IsPlain player has_id
        ⊕ details-IsPlain engine numbers addresses_plain numbers_plain w prisoner player ip name
            ip_plain in
      let (behind, blank) =
        details-blank engine numbers addresses_plain numbers_plain w prisoner player ip name in
      let split : text "PLAYER steam=" ++ player.id ++ shown ≡ prefix_of player ++ behind =
        rw blank (sym (append_assoc (text "PLAYER steam=" ++ player.id) (text " ") behind)) in
      rw (lines_of-line (text "PLAYER steam=" ++ player.id ++ shown) rest whole) (
        ap (starts_with (prefix_of player)) split ∙ starts_with-append (prefix_of player) behind,
        more,
      )

  player_lines-HasLines :
      (w : World) (fn prisoner : ℕ) (online : List Player) (faulted : Bool) (reply : Bytes)
      → All HasSteamId online
      → (player_lines engine numbers w fn prisoner online faulted).0 ≡ ok reply
      → HasLines online (lines_of reply)
  unfolding player_lines lines_of
  player_lines-HasLines w fn prisoner [] faulted reply ids e =
      let same : [] ≡ reply = cc in rw (← same) tt
  player_lines-HasLines w fn prisoner (player ∷ online) faulted reply (has_id, ids) e =
      elim (Result-cases (connection_ip engine w player.controller faulted).0) [
        | inl (why, threw) ↦ cc (rw (threw, player_lines) at e)
        | inr (ip, found) ↦ elim (Result-cases (string_call engine w player.controller fn)) [
          | inl (why, threw) ↦ cc (rw (found, threw, player_lines) at e)
          | inr (name, named) ↦
              let (rest, shown, lines) =
                bind-inversion _ _ (rw (found, named, player_lines) at e) in
              let same : text "PLAYER steam="
                    ++ player.id
                    ++ details engine numbers w prisoner player ip name
                    ++ b'\n' ∷ rest
                  ≡ reply =
                cc in
              rw (← same) (
                line-HasLines w prisoner player ip name online rest has_id
                  (shown_ip-IsPlain engine numbers addresses_plain numbers_plain w player.controller
                    faulted ip found)
                  (player_lines-HasLines w fn prisoner online _ rest ids lines))
        ]
      ]

  list_some-HasLines :
      (online : List Player) (s s' : State World) (reply : Bytes)
      → All HasSteamId online
      → list_some engine numbers online s ≡ (ok reply, s')
      → (online ≡ [] × reply ≡ text "No players online.") ⊎ HasLines online (lines_of reply)
  unfolding list_some
  list_some-HasLines [] s s' reply ids e = inl (refl, cc)
  list_some-HasLines (player ∷ online) s s' reply ids e =
      let fn =
        engine.find_function s.world "/Script/SCUM.ConZPlayerController:GetUserProfileName" in
      let prisoner = engine.find_class s.world "/Script/SCUM.Prisoner" in
      elim (Bool-cases (fn == 0 || not (engine.params_size s.world fn == 16) || prisoner == 0)) [
        | inl missing ↦ cc (rw missing at e)
        | inr there ↦ inr (
            player_lines-HasLines s.world fn prisoner (player ∷ online) s.address_faulted reply ids
              (ap (λ r. r.0) (rw there at e)))
      ]

  -- Where list_players replies: the reply says that nobody is online, and then nobody is connected;
  -- or it has one line for each connected player, in the order of the ids, which begins with the
  -- SteamID of this player, whatever the names of the players are.
  pub list_players-HasLines :
      (s s' : State World) (reply : Bytes)
      → list_players engine numbers s ≡ (ok reply, s')
      → (online : List Player) × (connected_players engine s.world ≡ ok online)
        × ((online ≡ [] × reply ≡ text "No players online.") ⊎ HasLines online (lines_of reply))
  unfolding list_players
  list_players-HasLines s s' reply e = elim (Result-cases (connected_players engine s.world)) [
    | inl (why, threw) ↦ cc (rw (threw, list_players) at e)
    | inr (online, found) ↦ (
      online,
      found,
      list_some-HasLines online s s' reply
          (connected_players-HasSteamId engine s.world online found)
          (rw (found, list_players) at e),
    )
  ]
