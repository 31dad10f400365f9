-- ===== src/Registry/Players.antt =====
-- native_module/src/registry_dispatch.cpp: the connected players and the list of them.
use open_scum_rcon.Base.{
  ℕ, ◌+◌, ◌*◌, ◌%◌, ◌^◌, Bool, true, false, not, ◌&&◌, ◌||◌, Option, none, some, List, [], ◌∷◌,
  ◌++◌, Bytes, text, same_text, less_text, sort_by, decimal, signed_decimal, Result, ok, err, ◌>>=◌,
  ltb, leb, ◌==◌, if◌then◌else◌, length,
}
use Prim.Native.String.{String}
use open_scum_rcon.LiveQuery.{Numbers}
use open_scum_rcon.Request.{steam_id_valid}
use open_scum_rcon.Registry.Engine.{
  Engine, State, field, live, object_property, utf8, string_call, slot,
}

pub record Player : Type 0 where
  pub controller : ℕ
  pub id : Bytes

-- The entry instructions of the function that gives an address.
abbrev pub address_signature : Bytes
address_signature =
    0x48 ∷ 0x89 ∷ 0x5c ∷ 0x24 ∷ 0x10 ∷ 0x48 ∷ 0x89 ∷ 0x74 ∷ 0x24 ∷ 0x18 ∷ 0x57 ∷ 0x48 ∷ 0x83 ∷ 0xec
    ∷ 0x40 ∷ 0x48 ∷ 0x8b ∷ 0x89 ∷ 0x10 ∷ 0x01 ∷ 0x00 ∷ 0x00 ∷ 0x33 ∷ 0xf6 ∷ 0x89 ∷ 0x74 ∷ 0x24
    ∷ 0x50 ∷ 0x48 ∷ 0x8b ∷ 0xda ∷ 0x48 ∷ []

-- Whether a SteamID is in the set of those seen.
unfoldable pub seen_id : Bytes → List Player → Bool
seen_id id [] = false
seen_id id (p ∷ players) = same_text p.id id || seen_id id players

abbrev pub less_id : Player → Player → Bool
less_id a b = less_text a.id b.id

abbrev pub labelled : String → Option ℕ → Bytes
labelled label none = []
labelled label (some n) = text label ++ signed_decimal 64 n

-- `<< *ip`, or that there is none.
abbrev pub shown_ip : Option Bytes → Bytes
shown_ip none = text " ipStatus=unavailable"
shown_ip (some ip) = text " ip=" ++ ip ++ text " ipSource=connection"

-- The body of the callback for an object that is connected.
unfoldable pub add_player : ℕ → Bytes → List Player → Result (List Player)
add_player object value players =
    if not (steam_id_valid value)
    then ok players
    else if seen_id value players
    then err (text "ambiguous connected SteamID")
    else if leb 1024 (length players)
    then err (text "connected player limit exceeded")
    else ok (players ++ record { controller = object; id = value } ∷ [])

module _ {World Double : Type 0} (engine : Engine World Double) where
  -- The first test of the callback.
  unfoldable pub is_connected : World → ℕ → ℕ → Bool
  is_connected w cls object =
      live engine w object
      && engine.is_a w object cls
      && live engine w (object_property engine w object "NetConnection")

  -- ForEachUObject.
  unfoldable pub visit : World → ℕ → ℕ → List ℕ → List Player → Result (List Player)
  visit w cls fn [] players = ok players
  visit w cls fn (object ∷ rest) players =
      (if is_connected w cls object
        then (string_call engine w object fn >>= λ value. add_player object value players)
        else ok players)
      >>= visit w cls fn rest

  unfoldable pub connected_players : World → Result (List Player)
  connected_players w =
      let cls = engine.find_class w "/Script/SCUM.ConZPlayerController" in
      let fn = engine.find_function w "/Script/SCUM.ConZPlayerController:GetUserId" in
      if cls == 0 || fn == 0 || not (engine.params_size w fn == 16)
      then err (text "player reflection unavailable")
      else (visit w cls fn (engine.objects w) [] >>= λ players. ok (sort_by less_id players))

  -- From the call on, a negative number of 64 bits is no profile.
  unfoldable pub profile_id : World → ℕ → Option ℕ
  profile_id w controller =
      if not (engine.has_profile_reflection w)
      then none
      else (let value = engine.profile_value w controller in
          if ltb value (2 ^ 63) then some value else none)

  -- Behind the guarded call.
  unfoldable pub checked_address : Option (List ℕ) → Result (Option Bytes)
  checked_address value = utf8 engine value >>= λ address.
      if length address == 0 || ltb 45 (length address)
      then ok none
      else if not (engine.is_ipv4 address) && not (engine.is_ipv6 address)
      then ok none
      else ok (some address)

  abbrev pub address_function : World → ℕ
  address_function w = (engine.module_base w + 0x12dfde0) % 2 ^ 64

  -- Whether the address function may be called for a connection.
  unfoldable pub can_ask_address : World → ℕ → ℕ → Bool
  can_ask_address w controller connection =
      let cls = engine.find_class w "/Script/OnlineSubsystemUtils.IpConnection" in
      not (cls == 0)
      && live engine w connection
      && engine.is_a w connection cls
      && object_property engine w connection "OwningActor" == controller
      && slot engine w connection 0x288 == address_function w
      && elim (engine.read_bytes w (address_function w) 32) [
        | none ↦ false
        | some actual ↦ same_text actual address_signature
      ]

  -- The address, and whether the latch of the function is set behind it.
  unfoldable pub connection_ip : World → ℕ → Bool → Result (Option Bytes) × Bool
  connection_ip w controller faulted =
      let connection = object_property engine w controller "NetConnection" in
      if faulted || not (engine.supported_build w)
      then (ok none, faulted)
      else if not (can_ask_address w controller connection)
      then (ok none, faulted)
      else elim (engine.read_address w connection) [
        | none ↦ (ok none, true)
        | some value ↦ (checked_address value, faulted)
      ]

  unfoldable pub shown_ping : World → ℕ → Bytes
  shown_ping w controller =
      let state = object_property engine w controller "PlayerState" in
      if not (live engine w state) then [] else elim (engine.byte_value w state "Ping") [
        | none ↦ []
        | some ping ↦ text " ping=" ++ decimal (ping * 4)
      ]

  module _ (numbers : Numbers Double) where
    unfoldable pub shown_location : World → ℕ → ℕ → Bytes
    shown_location w controller prisoner =
        let pawn = object_property engine w controller "Pawn" in
        let (x, y, z) = engine.location w pawn in
        if live engine w pawn
          && engine.is_a w pawn prisoner
          && numbers.is_finite x
          && numbers.is_finite y
          && numbers.is_finite z
        then text " ("
          ++ numbers.shown_fixed x
          ++ text ", "
          ++ numbers.shown_fixed y
          ++ text ", "
          ++ numbers.shown_fixed z
          ++ text ")"
        else []

    -- What stands behind the SteamID and before the line's end.
    unfoldable pub details : World → ℕ → Player → Option Bytes → Bytes → Bytes
    details w prisoner player ip name =
        labelled " upid=" (profile_id w player.controller)
        ++ shown_ip ip
        ++ labelled " money=" (engine.int64_value w player.controller "_moneyBalanceRep")
        ++ labelled " gold=" (engine.int64_value w player.controller "_goldBalanceRep")
        ++ shown_ping w player.controller
        ++ shown_location w player.controller prisoner
        ++ text " | "
        ++ field name
        ++ text " |"

    -- The loop over the players, with the latch of the addresses.
    unfoldable pub player_lines : World → ℕ → ℕ → List Player → Bool → Result Bytes × Bool
    player_lines w fn prisoner [] faulted = (ok [], faulted)
    player_lines w fn prisoner (player ∷ players) faulted =
        let (ip, faulted') = connection_ip w player.controller faulted in
        let (rest, faulted'') = player_lines w fn prisoner players faulted' in
        elim ip [
          | err why ↦ (err why, faulted')
          | ok ip ↦ elim (string_call engine w player.controller fn) [
            | err why ↦ (err why, faulted')
            | ok name ↦ (
              rest >>= λ lines. ok (
                  text "PLAYER steam="
                  ++ player.id
                  ++ details w prisoner player ip name
                  ++ b'\n' ∷ lines),
              faulted'',
            )
          ]
        ]

    unfoldable pub list_some : List Player → State World → Result Bytes × State World
    list_some [] s = (ok (text "No players online."), s)
    list_some (player ∷ players) s =
        let fn =
          engine.find_function s.world "/Script/SCUM.ConZPlayerController:GetUserProfileName" in
        let prisoner = engine.find_class s.world "/Script/SCUM.Prisoner" in
        if fn == 0 || not (engine.params_size s.world fn == 16) || prisoner == 0
        then (err (text "player details reflection unavailable"), s)
        else (let (reply, faulted) =
              player_lines s.world fn prisoner (player ∷ players) s.address_faulted in
            (reply, record s { address_faulted = faulted }))

    unfoldable pub list_players : State World → Result Bytes × State World
    list_players s = elim (connected_players s.world) [
      | err why ↦ (err why, s)
      | ok players ↦ list_some players s
    ]
