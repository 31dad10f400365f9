-- ===== src/Registry/Details.antt =====
-- What the lines about a player are made of: none of it holds a line break.
use open_scum_rcon.Base.{
  ℕ, ◌*◌, ◌≡◌, refl, inl, inr, Bool, true, not, ◌&&◌, ◌||◌, Option, none, some, List, [], ◌∷◌, ◌++◌,
  map, arith, Bytes, text, all_bytes, IsPlain, no_break, plain, ◌⊕◌, IsPlain-take, decimal-IsPlain,
  signed_decimal-IsPlain, ok, bind-inversion, ltb, ◌==◌, Bool-cases, Option-cases, length,
}
use Prim.Native.String.{String}
use open_scum_rcon.LiveQuery.{Numbers}
use open_scum_rcon.Request.{is_digit, steam_id_valid}
use open_scum_rcon.Utf8.{utf8_prefix_size}
use open_scum_rcon.Registry.Engine.{Engine, live, object_property, utf8, field_byte, field}
use open_scum_rcon.Registry.Players.{
  Player, checked_address, can_ask_address, connection_ip, labelled, shown_ip, profile_id,
  shown_ping, shown_location, details,
}
use open_scum_rcon.Registry.Connected.{HasSteamId}

field_byte-IsPlain : (value : Bytes) → IsPlain (map field_byte value)
unfolding field_byte no_break
field_byte-IsPlain [] = record { unbroken = refl }
field_byte-IsPlain (c ∷ value) = record {
  unbroken = ground (arith, (field_byte-IsPlain value).unbroken);
}

field-IsPlain : (value : Bytes) → IsPlain (field value)
unfolding field
field-IsPlain value =
    IsPlain-take (utf8_prefix_size (map field_byte value) 512) (map field_byte value)
      (field_byte-IsPlain value)

digits-IsPlain : (id : Bytes) → all_bytes is_digit id ≡ true → IsPlain id
unfolding all_bytes no_break
digits-IsPlain [] e = record { unbroken = refl }
digits-IsPlain (c ∷ id) e = record {
  unbroken = ground (arith, (digits-IsPlain id (ground arith)).unbroken);
}

pub HasSteamId-IsPlain : (p : Player) → HasSteamId p → IsPlain p.id
unfolding steam_id_valid
HasSteamId-IsPlain p e = digits-IsPlain p.id (ground arith)

nothing-IsPlain : IsPlain []
unfolding no_break
nothing-IsPlain = record { unbroken = refl }

labelled-IsPlain :
    (label : String) (n : Option ℕ) → IsPlain (text label) → IsPlain (labelled label n)
labelled-IsPlain label none e = nothing-IsPlain
labelled-IsPlain label (some n) e = e ⊕ signed_decimal-IsPlain 64 n

module _ {World Double : Type 0} (engine : Engine World Double) (numbers : Numbers Double)
    -- What InetPtonA accepts, and how a stream prints a double.
    (addresses_plain : (a : Bytes) → (engine.is_ipv4 a || engine.is_ipv6 a) ≡ true → IsPlain a)
    (numbers_plain : (d : Double) → IsPlain (numbers.shown_fixed d)) where
  checked_address-IsPlain :
      (value : Option (List ℕ)) (ip : Bytes)
      → checked_address engine value ≡ ok (some ip)
      → IsPlain ip
  unfolding checked_address
  checked_address-IsPlain value ip e =
      let (address, more, converted) = bind-inversion (utf8 engine value) _ e in
      elim (Bool-cases (length address == 0 || ltb 45 (length address))) [
        | inl odd ↦ cc (rw odd at more)
        | inr fits ↦
            elim (Bool-cases (not (engine.is_ipv4 address) && not (engine.is_ipv6 address))) [
              | inl neither ↦ cc (rw (fits, neither) at more)
              | inr one ↦
                  let same : address ≡ ip = cc (rw (fits, one) at more) in
                  rw (← same) (addresses_plain address (ground arith))
            ]
      ]

  connection_ip-IsPlain :
      (w : World) (controller : ℕ) (faulted : Bool) (ip : Bytes)
      → (connection_ip engine w controller faulted).0 ≡ ok (some ip)
      → IsPlain ip
  unfolding connection_ip
  connection_ip-IsPlain w controller faulted ip e =
      let connection = object_property engine w controller "NetConnection" in
      elim (Bool-cases (faulted || not (engine.supported_build w))) [
        | inl off ↦ cc (rw off at e)
        | inr on ↦ elim (Bool-cases (can_ask_address engine w controller connection)) [
          | inr refuses ↦ cc (rw (on, refuses) at e)
          | inl asks ↦ elim (Option-cases (engine.read_address w connection)) [
            | inl threw ↦ cc (rw (on, asks, threw, connection_ip) at e)
            | inr (value, answers) ↦
                checked_address-IsPlain value ip (rw (on, asks, answers, connection_ip) at e)
          ]
        ]
      ]

  pub shown_ip-IsPlain :
      (w : World) (controller : ℕ) (faulted : Bool) (ip : Option Bytes)
      → (connection_ip engine w controller faulted).0 ≡ ok ip
      → IsPlain (shown_ip ip)
  unfolding text all_bytes
  shown_ip-IsPlain w controller faulted none e = plain (text " ipStatus=unavailable") refl
  shown_ip-IsPlain w controller faulted (some ip) e =
      plain (text " ip=") refl
      ⊕ connection_ip-IsPlain w controller faulted ip e
      ⊕ plain (text " ipSource=connection") refl

  shown_ping-IsPlain : (w : World) (controller : ℕ) → IsPlain (shown_ping engine w controller)
  unfolding shown_ping text all_bytes
  shown_ping-IsPlain w controller =
      let player_state = object_property engine w controller "PlayerState" in
      elim (Bool-cases (live engine w player_state)) [
        | inr gone ↦ rw gone nothing-IsPlain
        | inl there ↦ elim (Option-cases (engine.byte_value w player_state "Ping")) [
          | inl nothing ↦ rw (there, nothing, shown_ping) nothing-IsPlain
          | inr (ping, found) ↦
              rw (there, found, shown_ping)
                (plain (text " ping=") refl ⊕ decimal-IsPlain (ping * 4))
        ]
      ]

  between : String → Double → Bytes → Bytes
  between label d rest = text label ++ numbers.shown_fixed d ++ rest

  shown_location-IsPlain :
      (w : World) (controller prisoner : ℕ)
      → IsPlain (shown_location engine numbers w controller prisoner)
  unfolding shown_location text all_bytes
  shown_location-IsPlain w controller prisoner =
      let pawn = object_property engine w controller "Pawn" in
      let (x, y, z) = engine.location w pawn in
      elim (Bool-cases (
        live engine w pawn
        && engine.is_a w pawn prisoner
        && numbers.is_finite x
        && numbers.is_finite y
        && numbers.is_finite z)) [
          | inr nowhere ↦ rw nowhere nothing-IsPlain
          | inl there ↦ rw there (
              plain (text " (") refl
              ⊕ numbers_plain x
              ⊕ plain (text ", ") refl
              ⊕ numbers_plain y
              ⊕ plain (text ", ") refl
              ⊕ numbers_plain z
              ⊕ plain (text ")") refl)
        ]

  pub details-IsPlain :
      (w : World) (prisoner : ℕ) (player : Player) (ip : Option Bytes) (name : Bytes)
      → IsPlain (shown_ip ip)
      → IsPlain (details engine numbers w prisoner player ip name)
  unfolding details text all_bytes
  details-IsPlain w prisoner player ip name ip_plain =
      let c = player.controller in
      labelled-IsPlain " upid=" (profile_id engine w c) (plain (text " upid=") refl)
      ⊕ ip_plain
      ⊕ labelled-IsPlain " money=" (engine.int64_value w c "_moneyBalanceRep")
          (plain (text " money=") refl)
      ⊕ labelled-IsPlain " gold=" (engine.int64_value w c "_goldBalanceRep")
          (plain (text " gold=") refl)
      ⊕ shown_ping-IsPlain w c
      ⊕ shown_location-IsPlain w c prisoner
      ⊕ plain (text " | ") refl
      ⊕ field-IsPlain name
      ⊕ plain (text " |") refl

  -- The details begin with a blank.
  pub details-blank :
      (w : World) (prisoner : ℕ) (player : Player) (ip : Option Bytes) (name : Bytes)
      → (rest : Bytes) × (details engine numbers w prisoner player ip name ≡ text " " ++ rest)
  unfolding details text
  details-blank w prisoner player ip name =
      elim (Option-cases (profile_id engine w player.controller)) [
        | inr (n, e) ↦ rw e (_, refl)
        | inl e ↦
            rw e
              (elim (Option-cases ip) [ inl e' ↦ rw e' (_, refl) | inr (a, e') ↦ rw e' (_, refl) ])
      ]
