-- ===== src/Protocol/Decode.antt =====
-- The parser of a packet body is the inverse of the encoder.
use open_scum_rcon.Base.{
  ℕ, ◌+◌, ◌-◌, ◌^◌, ◌≤◌, ◌<◌, ◌≡◌, refl, sym, ap, ◌∙◌, subst, ◌≢◌, some, [], ◌∷◌, ◌++◌, arith,
  Bytes, IsBytes, length, get_or, take, drop, length-append, take-append-drop, length-drop,
  take-append_eq, drop-drop, get_or-drop, get_or-append_right, All, All-drop,
}
use mathlib.Core.Path.{ap₂}
use open_scum_rcon.Protocol.{
  Packet, int32_bytes, bytes_int32, encode_packet, decode_packet_body, find,
}
use open_scum_rcon.Protocol.Frame.{frame, encode_packet-frame}

-- A packet that the wire format can carry: int32_t fields and a payload with no NUL byte.
pub record IsSendable (p : Packet) : Type 0 where
  pub id_fits : p.request_id < 2 ^ 32
  pub type_fits : p.type < 2 ^ 32
  pub no_nul : All (λ b. b ≢ 0) p.payload

pub bytes_int32-int32_bytes :
    (n : ℕ) (rest : Bytes) → n < 2 ^ 32 → bytes_int32 (int32_bytes n ++ rest) ≡ n
unfolding bytes_int32 int32_bytes
bytes_int32-int32_bytes n rest h = omega arith

int32_bytes-bytes_int32 :
    (xs : Bytes) → IsBytes xs → 4 ≤ length xs → int32_bytes (bytes_int32 xs) ≡ take 4 xs
unfolding bytes_int32 int32_bytes
int32_bytes-bytes_int32 (a ∷ b ∷ c ∷ d ∷ rest) v h = ground arith
int32_bytes-bytes_int32 _ v h = absurd (omega arith)

bytes_int32-lt : (xs : Bytes) → IsBytes xs → bytes_int32 xs < 2 ^ 32
unfolding bytes_int32
bytes_int32-lt (a ∷ b ∷ c ∷ d ∷ rest) v = omega arith
bytes_int32-lt _ v = omega arith

find-All : (xs : Bytes) → find 0 xs ≡ length xs → All (λ b. b ≢ 0) xs
unfolding find
find-All [] h = tt
find-All (x ∷ xs) h = ground (arith, find-All xs)

All-find : (xs : Bytes) → All (λ b. b ≢ 0) xs → find 0 xs ≡ length xs
unfolding find
All-find [] h = refl
All-find (x ∷ xs) h = ground (arith, All-find xs h.1)

two_items : (xs : Bytes) → length xs ≡ 2 → xs ≡ get_or xs 0 0 ∷ get_or xs 1 0 ∷ []
two_items (a ∷ b ∷ []) h = refl
two_items (a ∷ b ∷ c ∷ xs) h = absurd (omega arith)
two_items (a ∷ []) h = absurd (omega arith)
two_items [] h = absurd (omega arith)

-- What a successful parse has tested, and what it has read.
record Tested (body : Bytes) (p : Packet) : Type 0 where
  large : 10 ≤ length body
  last : get_or body (length body - 1) 0 ≡ 0
  before_last : get_or body (length body - 2) 0 ≡ 0
  no_nul : find 0 p.payload ≡ length p.payload
  payload : p.payload ≡ take (length body - 2 - 8) (drop 8 body)
  request_id : p.request_id ≡ bytes_int32 body
  type : p.type ≡ bytes_int32 (drop 4 body)

tested : (body : Bytes) (p : Packet) → decode_packet_body body ≡ some p → Tested body p
unfolding decode_packet_body
tested body p h = ground arith

accepted : (body : Bytes) (p : Packet) → Tested body p → decode_packet_body body ≡ some p
unfolding decode_packet_body
accepted body p t = ground arith

abbrev body_of : Packet → Bytes
body_of p = int32_bytes p.request_id ++ (int32_bytes p.type ++ (p.payload ++ 0 ∷ 0 ∷ []))

drop-frame : (p : Packet) → drop 4 (frame p.request_id p.type p.payload) ≡ body_of p
unfolding int32_bytes
drop-frame p = refl

body_of-Tested : (p : Packet) → IsSendable p → Tested (body_of p) p
unfolding int32_bytes
body_of-Tested p v = record {
  large = omega (arith, size);
  last = rw (parts, last_at) (get_or-append_right front (0 ∷ 0 ∷ []) 1 0);
  before_last = rw (parts, before_at) (get_or-append_right front (0 ∷ 0 ∷ []) 0 0);
  no_nul = All-find p.payload v.no_nul;
  payload = sym (take-append_eq _ p.payload (0 ∷ 0 ∷ []) (omega (arith, size)));
  request_id = sym (bytes_int32-int32_bytes p.request_id _ v.id_fits);
  type = sym (bytes_int32-int32_bytes p.type _ v.type_fits);
}
  where
    front : Bytes
    front = int32_bytes p.request_id ++ (int32_bytes p.type ++ p.payload)

    parts : body_of p ≡ front ++ 0 ∷ 0 ∷ []
    parts = refl

    size : length (p.payload ++ 0 ∷ 0 ∷ []) ≡ length p.payload + 2
    size = length-append p.payload (0 ∷ 0 ∷ [])

    last_at : length (body_of p) - 1 ≡ length front + 1
    last_at = omega (arith, size)

    before_at : length (body_of p) - 2 ≡ length front + 0
    before_at = omega (arith, size)

-- The body of an encoded packet is parsed back to the same packet, where its request id and type
-- have 32 bits and its payload holds no NUL byte.
pub decode_packet_body-encode_packet :
    (p : Packet)
    → IsSendable p
    → decode_packet_body (drop 4 (encode_packet p.request_id p.type p.payload)) ≡ some p
decode_packet_body-encode_packet p v =
    rw (encode_packet-frame, drop-frame p) (accepted (body_of p) p (body_of-Tested p v))

ends :
    (body : Bytes) (p : Packet) → Tested body p → drop (length body - 10) (drop 8 body) ≡ 0 ∷ 0 ∷ []
ends body p t =
    rw (drop-drop, at_end)
      (two_items (drop (length body - 2) body) size ∙ ap₂ (λ x y. x ∷ y ∷ []) first second)
  where
    at_end : 8 + (length body - 10) ≡ length body - 2
    at_end = omega (arith, t.large)

    size : length (drop (length body - 2) body) ≡ 2
    size = omega (arith, length-drop (length body - 2) body, t.large)

    first : get_or (drop (length body - 2) body) 0 0 ≡ 0
    first = get_or-drop _ 0 body 0 ∙ subst (λ i. get_or body i 0 ≡ 0) (omega arith) t.before_last

    second : get_or (drop (length body - 2) body) 1 0 ≡ 0
    second =
        get_or-drop _ 1 body 0 ∙ subst (λ i. get_or body i 0 ≡ 0) (omega (arith, t.large)) t.last

body_of-eq : (body : Bytes) (p : Packet) → IsBytes body → Tested body p → body_of p ≡ body
body_of-eq body p v t =
    rw
      (
        t.request_id,
        t.type,
        t.payload,
        int32_bytes-bytes_int32 body v (omega (arith, t.large)),
        int32_bytes-bytes_int32 (drop 4 body) (All-drop _ 4 body v)
            (omega (arith, t.large, length-drop 4 body)),
        ← ends body p t,
        same,
      )
      (ap (λ zs. take 4 body ++ (take 4 (drop 4 body) ++ zs)) (take-append-drop _ (drop 8 body))
        ∙ ap (λ zs. take 4 body ++ (take 4 (drop 4 body) ++ zs)) (sym (drop-drop 4 4 body))
        ∙ ap (λ zs. take 4 body ++ zs) (take-append-drop 4 (drop 4 body))
        ∙ take-append-drop 4 body)
  where
    same : length body - 2 - 8 ≡ length body - 10
    same = omega arith

-- A body is accepted only if it is what the encoder writes for the packet that is returned, and
-- that packet is one that the wire format can carry.
pub encode_packet-decode_packet_body :
    (body : Bytes) (p : Packet)
    → IsBytes body
    → decode_packet_body body ≡ some p
    → IsSendable p × (drop 4 (encode_packet p.request_id p.type p.payload) ≡ body)
encode_packet-decode_packet_body body p v h = (
  record {
    id_fits = rw t.request_id (bytes_int32-lt body v);
    type_fits = rw t.type (bytes_int32-lt (drop 4 body) (All-drop _ 4 body v));
    no_nul = find-All p.payload t.no_nul;
  },
  rw (encode_packet-frame p.request_id p.type p.payload, drop-frame p) (body_of-eq body p v t),
)
  where
    t : Tested body p
    t = tested body p h
