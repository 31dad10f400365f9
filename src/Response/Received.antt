-- ===== src/Response/Received.antt =====
-- Where a reply goes, and what of its text is collected.
use open_scum_rcon.Base.{
  ℕ, ◌*◌, min, ◌≡◌, refl, ap, ◌∙◌, ◌≢◌, ◌⊎◌, inl, inr, Bool, true, false, not, ◌&&◌, none, some,
  List, [], ◌∷◌, ◌++◌, map, arith, Bytes, ◌==◌, Bool-cases, Option-cases, length, take,
}
use open_scum_rcon.Response.{
  ResponseScope, Scopes, matches, failure, collect, collect_first, accept,
}
use open_scum_rcon.Response.Receive.{
  StringHeader, Message, header_refused, clean_unit, convert, receive_own, receive,
}
use open_scum_rcon.Response.Strings.{
  Holds, taken, Converts, IsBroken, clean-taken, sound_header, no_header, too_long, over_capacity,
  negative, no_data, not_readable, not_utf16,
}

-- A reply of the scope's own command adds to this scope what `collect` adds for some text, or marks
-- it as failed.
abbrev pub Collects : (ℕ → Bool) → ResponseScope → Scopes → Scopes → Type 0
Collects can_hold scope previous current =
    (current ≡ record scope { failed = true } ∷ previous)
    ⊎ ((content : Bytes) × (current ≡ collect can_hold content scope ∷ previous))

accept-Collects :
    (can_hold : ℕ → Bool) (content : Bytes) (command : ℕ) (scope : ResponseScope)
    (previous : Scopes)
    → matches command (scope ∷ previous) ≡ true
    → Collects can_hold scope previous (accept can_hold command content (scope ∷ previous)).1
unfolding accept collect_first
accept-Collects can_hold content command scope previous own = rw own (inr (content, refl))

convert-Collects :
    (can_hold : ℕ → Bool) (message : Message) (wide : List ℕ) (command : ℕ) (scope : ResponseScope)
    (previous : Scopes)
    → matches command (scope ∷ previous) ≡ true
    → Collects can_hold scope previous (convert can_hold message wide command (scope ∷ previous))
unfolding convert failure
convert-Collects can_hold message wide command scope previous own =
    elim (Bool-cases (length wide == 0)) [
      | inl blank ↦ rw blank (accept-Collects can_hold [] command scope previous own)
      | inr filled ↦ elim (Option-cases (message.to_utf8 wide)) [
        | inl bad ↦ rw (filled, bad, convert) (inl refl)
        | inr (content, good) ↦ elim (Bool-cases (can_hold (length content))) [
          | inl held ↦
              rw (filled, good, held, convert)
                (accept-Collects can_hold content command scope previous own)
          | inr full ↦ rw (filled, good, full, convert) (inl refl)
        ]
      ]
    ]

receive_own-Collects :
    (can_hold : ℕ → Bool) (message : Message) (command : ℕ) (scope : ResponseScope)
    (previous : Scopes)
    → matches command (scope ∷ previous) ≡ true
    → Collects can_hold scope previous (receive_own can_hold message command (scope ∷ previous))
unfolding receive_own failure
receive_own-Collects can_hold message command scope previous own =
    elim (Option-cases message.header) [
      | inl unread ↦ rw (unread, receive_own) (inl refl)
      | inr (header, found) ↦ elim (Bool-cases (header_refused header)) [
        | inl refused ↦ rw (found, refused, receive_own) (inl refl)
        | inr sound ↦ elim (Bool-cases (header.num == 0)) [
          | inl blank ↦
              rw (found, sound, blank, receive_own)
                (accept-Collects can_hold [] command scope previous own)
          | inr filled ↦ elim (Bool-cases (can_hold (2 * min header.num 65538))) [
            | inr full ↦ rw (found, sound, filled, full, receive_own) (inl refl)
            | inl held ↦ elim (Option-cases (message.units (min header.num 65538))) [
              | inl unread ↦ rw (found, sound, filled, held, unread, receive_own) (inl refl)
              | inr (wide, units) ↦
                  rw (found, sound, filled, held, units, receive_own)
                    (convert-Collects can_hold message _ command scope previous own)
            ]
          ]
        ]
      ]
    ]

-- The innermost scope is that of the command.
abbrev pub Awaits : ℕ → Scopes → Type 0
Awaits command [] = ⊥
Awaits command (scope ∷ previous) = (command ≢ 0) × (scope.command ≡ command)

module _ (can_hold : ℕ → Bool) (message : Message) (command : ℕ) (scope : ResponseScope)
    (previous : Scopes) where
  abbrev failing : Scopes
  failing = record scope { failed = true } ∷ previous

  filled : (c : ℕ) (units : List ℕ) → (length (map clean_unit (c ∷ units)) == 0) ≡ false
  filled c units = ground arith

  convert-Converts :
      (units : List ℕ) (content : Bytes)
      → matches command (scope ∷ previous) ≡ true
      → ((n : ℕ) → can_hold n ≡ true)
      → Converts message units content
      → convert can_hold message (map clean_unit units) command (scope ∷ previous)
        ≡ collect can_hold content scope ∷ previous
  unfolding convert accept collect_first
  convert-Converts [] content own held e = rw (own, e) refl
  convert-Converts (c ∷ units) content own held e =
      rw (filled c units, e, own, held (length content), convert) refl

  convert-failing :
      (c : ℕ) (units : List ℕ)
      → message.to_utf8 (map clean_unit (c ∷ units)) ≡ none
      → convert can_hold message (map clean_unit (c ∷ units)) command (scope ∷ previous) ≡ failing
  unfolding convert failure
  convert-failing c units e = rw (filled c units, e, convert) refl

  module _ (units : List ℕ) (holds : Holds message units) where
    abbrev read_count : ℕ
    read_count = min holds.header.num 65538

    some_units : (holds.header.num == 0) ≡ false
    some_units = ground (arith, holds.counted)

    read_units : message.units read_count ≡ some (take read_count (units ++ 0 ∷ []))
    read_units = holds.readable read_count (omega (arith, holds.counted))

    receive_own-Holds :
        can_hold (2 * read_count) ≡ true
        → receive_own can_hold message command (scope ∷ previous)
          ≡ convert can_hold message (map clean_unit (taken units)) command (scope ∷ previous)
    unfolding receive_own convert
    receive_own-Holds held =
        rw
          (
            holds.read,
            sound_header message units holds,
            some_units,
            held,
            read_units,
            receive_own,
            clean-taken holds.header.num units holds.counted,
          )
          refl

    receive_own-full :
        can_hold (2 * read_count) ≡ false
        → receive_own can_hold message command (scope ∷ previous) ≡ failing
    unfolding receive_own failure
    receive_own-full full =
        rw (holds.read, sound_header message units holds, some_units, full, receive_own) refl

  refused-failing :
      (h : StringHeader)
      → message.header ≡ some h
      → header_refused h ≡ true
      → receive_own can_hold message command (scope ∷ previous) ≡ failing
  unfolding receive_own failure
  refused-failing h read refused = rw (read, refused, receive_own) refl

  unread-failing :
      (h : StringHeader)
      → message.header ≡ some h
      → h.num ≢ 0
      → ((n : ℕ) → message.units n ≡ none)
      → receive_own can_hold message command (scope ∷ previous) ≡ failing
  unfolding receive_own failure
  unread-failing h read some_num none_read = elim (Bool-cases (header_refused h)) [
    | inl refused ↦ rw (read, refused, receive_own) refl
    | inr sound ↦
        let more : (h.num == 0) ≡ false = ground arith in
        elim (Bool-cases (can_hold (2 * min h.num 65538))) [
          | inr full ↦ rw (read, sound, more, full, receive_own) refl
          | inl held ↦ rw (read, sound, more, held, none_read (min h.num 65538), receive_own) refl
        ]
  ]

  receive_own-IsBroken :
      IsBroken message → receive_own can_hold message command (scope ∷ previous) ≡ failing
  unfolding receive_own failure header_refused
  receive_own-IsBroken (no_header e) = rw (e, receive_own) refl
  receive_own-IsBroken (too_long h e long) = refused-failing h e (ground arith)
  receive_own-IsBroken (over_capacity h e over) = refused-failing h e (ground arith)
  receive_own-IsBroken (negative h e below) = refused-failing h e (ground arith)
  receive_own-IsBroken (no_data h e more null) = refused-failing h e (ground arith)
  receive_own-IsBroken (not_readable h e more none_read) = unread-failing h e more none_read
  receive_own-IsBroken (not_utf16 c units rest holds e odd) =
      elim (Bool-cases (can_hold (2 * read_count units holds))) [
        | inr full ↦ receive_own-full units holds full
        | inl held ↦
            receive_own-Holds units holds held
            ∙ ap (λ us. convert can_hold message (map clean_unit us) command (scope ∷ previous)) e
            ∙ convert-failing c rest odd
      ]

own_matches :
    (command : ℕ) (scope : ResponseScope) (previous : Scopes)
    → Awaits command (scope ∷ previous)
    → matches command (scope ∷ previous) ≡ true
unfolding matches
own_matches command scope previous awaits = ground arith

foreign :
    (can_hold : ℕ → Bool) (message : Message) (command : ℕ) (current : Scopes)
    → (Awaits command current → ⊥)
    → receive can_hold message command current ≡ (true, current)
unfolding receive matches
foreign can_hold message command [] n = refl
foreign can_hold message command (scope ∷ previous) n =
    elim (Bool-cases (not (command == 0) && scope.command == command)) [
      | inl own ↦ absurd (n (ground arith))
      | inr other ↦ rw other refl
    ]

own_reply :
    (can_hold : ℕ → Bool) (message : Message) (command : ℕ) (scope : ResponseScope)
    (previous : Scopes)
    → Awaits command (scope ∷ previous)
    → ((receive can_hold message command (scope ∷ previous)).0 ≡ false)
      × Collects can_hold scope previous (receive can_hold message command (scope ∷ previous)).1
      × ((units : List ℕ) (content : Bytes)
          → Holds message units
          → Converts message (taken units) content
          → ((n : ℕ) → can_hold n ≡ true)
          → (receive can_hold message command (scope ∷ previous)).1
            ≡ collect can_hold content scope ∷ previous)
      × (IsBroken message
          → (receive can_hold message command (scope ∷ previous)).1
            ≡ record scope { failed = true } ∷ previous)
unfolding receive
own_reply can_hold message command scope previous awaits =
    let own = own_matches command scope previous awaits in
    rw own (
      refl,
      receive_own-Collects can_hold message command scope previous own,
      λ units content holds converts held.
          receive_own-Holds can_hold message command scope previous units holds (held _)
          ∙ convert-Converts can_hold message command scope previous (taken units) content own held
              converts,
      receive_own-IsBroken can_hold message command scope previous,
    )

-- A reply of a command other than the innermost scope's is passed through and changes no scope. One
-- of this scope's own command is kept from the game and changes this scope only, by one collected
-- text or by the mark of a failure. If the message is a string and memory suffices, the text is
-- that of the whole string with blanks for its control characters but line breaks, returns
-- and tabs, or of its first 65538 units, without half of a surrogate pair at their end; and the
-- mark is set if the header cannot be read, is too long, above its capacity or without data, if
-- the units cannot be read, or if they are no UTF-16.
pub receive-Collects :
    (can_hold : ℕ → Bool) (message : Message) (command : ℕ) (current : Scopes)
    → ((Awaits command current → ⊥) → receive can_hold message command current ≡ (true, current))
      × ((scope : ResponseScope) (previous : Scopes)
          → current ≡ scope ∷ previous
          → Awaits command (scope ∷ previous)
          → ((receive can_hold message command current).0 ≡ false)
            × Collects can_hold scope previous (receive can_hold message command current).1
            × ((units : List ℕ) (content : Bytes)
                → Holds message units
                → Converts message (taken units) content
                → ((n : ℕ) → can_hold n ≡ true)
                → (receive can_hold message command current).1
                  ≡ collect can_hold content scope ∷ previous)
            × (IsBroken message
                → (receive can_hold message command current).1
                  ≡ record scope { failed = true } ∷ previous))
receive-Collects can_hold message command current = (
  foreign can_hold message command current,
  λ scope previous e awaits. rw e (own_reply can_hold message command scope previous awaits),
)
