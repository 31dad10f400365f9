-- ===== src/Tests/Replies.antt =====
-- A reply of the game at concrete inputs.
use open_scum_rcon.Base.{ℕ, Bool, List, Bytes, arith, ◌≡◌, refl, true, false, some, [], ◌∷◌, take}
use open_scum_rcon.Response.{ResponseScope, Scopes, fresh, matches, accept, collect_first, collect}
use open_scum_rcon.Response.Receive.{
  Message, header_refused, clean, clean_unit, pop_back_if, convert, receive_own, receive,
}
use open_scum_rcon.Response.Strings.{Holds, Converts, taken, IsBroken}
use open_scum_rcon.Response.Received.{Collects, Awaits, receive-Collects}

-- The text "a", a control character, and the final NUL.
abbrev message : Message
message = record {
  header = some (record { has_data = true; num = 3; capacity = 4 });
  units = λ n. some (take n (0x61 ∷ 0x01 ∷ 0x00 ∷ []));
  to_utf8 = λ units. some units;
}

received :
    (receive (λ n. true) message 5 (fresh 5 ∷ [])).1
    ≡ collect (λ n. true) (0x61 ∷ 0x20 ∷ []) (fresh 5) ∷ []
unfolding receive receive_own convert clean clean_unit pop_back_if header_refused matches accept
    collect_first
received = refl

message-Holds : Holds message (0x61 ∷ 0x01 ∷ [])
message-Holds = record {
  header = record { has_data = true; num = 3; capacity = 4 };
  read = refl;
  counted = refl;
  small = omega arith;
  in_capacity = omega arith;
  positive = omega arith;
  stored = refl;
  readable = λ n h. refl;
}

abbrev scopes : Scopes
scopes = fresh 5 ∷ []

abbrev received_by : Bool × Scopes
received_by = receive (λ n. true) message 5 scopes

receive-Collects_example :
    ((Awaits 5 scopes → ⊥) → received_by ≡ (true, scopes))
    × ((scope : ResponseScope) (previous : Scopes)
        → scopes ≡ scope ∷ previous
        → Awaits 5 (scope ∷ previous)
        → (received_by.0 ≡ false)
          × Collects (λ n. true) scope previous received_by.1
          × ((units : List ℕ) (content : Bytes)
              → Holds message units
              → Converts message (taken units) content
              → ((n : ℕ) → true ≡ true)
              → received_by.1 ≡ collect (λ n. true) content scope ∷ previous)
          × (IsBroken message → received_by.1 ≡ record scope { failed = true } ∷ previous))
receive-Collects_example = receive-Collects (λ n. true) message 5 scopes

-- The text of the message, by the theorem.
collected : received_by.1 ≡ collect (λ n. true) (0x61 ∷ 0x20 ∷ []) (fresh 5) ∷ []
unfolding clean_unit
collected =
    ((receive-Collects (λ n. true) message 5 scopes).1 (fresh 5) [] refl (ground arith, refl)).2
      (0x61 ∷ 0x01 ∷ []) (0x61 ∷ 0x20 ∷ []) message-Holds refl (λ n. refl)
