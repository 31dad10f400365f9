-- ===== src/Server/Packets.antt =====
-- Packets off the stream.
use open_scum_rcon.Base.{
  ℕ, ◌+◌, ◌%◌, ◌^◌, ◌≤◌, ◌≡◌, refl, sym, ap, ◌∙◌, inl, inr, false, Option, none, some, [], ◌++◌,
  append-nil, arith, Bytes, ltb, if◌then◌else◌, Bool-cases, length, take, drop, length-append,
  length-drop, take-append_eq, drop-append_eq, take-append_left, drop-append_left,
}
use open_scum_rcon.Protocol.{Packet, int32_bytes, bytes_int32, encode_packet, decode_packet_body}
use open_scum_rcon.Protocol.Frame.{encode_packet_size}
use open_scum_rcon.Protocol.Decode.{
  IsSendable, bytes_int32-int32_bytes, decode_packet_body-encode_packet,
}
use open_scum_rcon.Server.{recv_exact, size_refused, recv_body, recv_packet}
use open_scum_rcon.Server.Transport.{Tcp, IsTcp}
use open_scum_rcon.Server.Stream.{recv_exact-IsReceived}

-- What stands at the head of a stream, and what is left of it behind a packet or a refusal.
unfoldable pub read_body : ℕ → Bytes → Option Packet × Bytes
read_body size stream = if size_refused size then (none, stream) else (
  if ltb (length stream) size then none else decode_packet_body (take size stream),
  drop size stream,
)

unfoldable pub read_packet : Bytes → Option Packet × Bytes
read_packet stream =
    if ltb (length stream) 4
    then (none, drop 4 stream)
    else read_body (bytes_int32 (take 4 stream)) (drop 4 stream)

module _ (tcp : Tcp) (law : IsTcp tcp) where
  open law use {incoming, sent}

  abbrev pub Reads : tcp.Socket → Option Packet × tcp.Socket → Option Packet × Bytes → Type 0
  Reads s r spec = (r.0 ≡ spec.0) × (incoming r.1 ≡ spec.1) × (sent r.1 ≡ sent s)

  recv_body-Reads :
      (buf : Bytes) (s : tcp.Socket)
      → Reads s (recv_body tcp buf s) (read_body (bytes_int32 buf) (incoming s))
  unfolding recv_body read_body
  recv_body-Reads buf s = elim (Bool-cases (size_refused (bytes_int32 buf))) [
    | inl refused ↦ rw refused (refl, refl, refl)
    | inr fine ↦ rw fine (
        let r = recv_exact-IsReceived tcp law (bytes_int32 buf) s in
        (
          rw r.got (elim (Bool-cases (ltb (length (incoming s)) (bytes_int32 buf))) [
            | inl short ↦ rw short
            | inr enough ↦ rw enough
          ]),
          r.left,
          r.quiet,
        ))
  ]

  -- `recv_packet` finds the packet at the head of the stream, or fails, as the stream alone decides;
  -- it takes the same bytes off the stream and sends nothing.
  pub recv_packet-Reads : (s : tcp.Socket) → Reads s (recv_packet tcp s) (read_packet (incoming s))
  unfolding recv_packet read_packet
  recv_packet-Reads s =
      let r = recv_exact-IsReceived tcp law 4 s in
      elim (Bool-cases (ltb (length (incoming s)) 4)) [
        | inl short ↦
            let failed : (recv_exact tcp 4 s).0 ≡ none = rw short at r.got in
            rw (short, failed, recv_packet) (refl, r.left, r.quiet)
        | inr enough ↦
            let got : (recv_exact tcp 4 s).0 ≡ some (take 4 (incoming s)) = rw enough at r.got in
            let body = recv_body-Reads (take 4 (incoming s)) (recv_exact tcp 4 s).1 in
            rw (enough, got, recv_packet) (rw (← r.left) (body.0, body.1, body.2 ∙ r.quiet))
      ]

-- A packet that was encoded is read back from the head of a stream, which is left behind it, where
-- its request id and type have 32 bits and its payload holds no NUL byte and at most 8182 bytes.
pub read_packet-encode_packet :
    (p : Packet) (rest : Bytes)
    → IsSendable p
    → length p.payload ≤ 8182
    → read_packet (encode_packet p.request_id p.type p.payload ++ rest) ≡ (some p, rest)
unfolding read_packet read_body size_refused
read_packet-encode_packet p rest v h =
    rw (whole, head, tail, size_is, small, enough, body)
      (rw (
        decode_packet_body-encode_packet p v,
        drop-append_eq size (drop 4 packet) rest length_body,
      ))
  where
    packet : Bytes
    packet = encode_packet p.request_id p.type p.payload

    shape :
        (take 4 packet ≡ int32_bytes ((length p.payload + 10) % 2 ^ 32))
        × (length packet ≡ length p.payload + 14)
    shape = encode_packet_size p.request_id p.type p.payload

    size : ℕ
    size = length p.payload + 10

    whole : ltb (length (packet ++ rest)) 4 ≡ false
    whole = ground (arith, length-append packet rest, shape.1)

    head : take 4 (packet ++ rest) ≡ int32_bytes (size % 2 ^ 32)
    head = take-append_left 4 packet rest (omega (arith, shape.1)) ∙ shape.0

    tail : drop 4 (packet ++ rest) ≡ drop 4 packet ++ rest
    tail = drop-append_left 4 packet rest (omega (arith, shape.1))

    size_is : bytes_int32 (int32_bytes (size % 2 ^ 32)) ≡ size
    size_is =
        ap bytes_int32 (sym (append-nil (int32_bytes (size % 2 ^ 32))))
        ∙ bytes_int32-int32_bytes (size % 2 ^ 32) [] (omega arith)
        ∙ omega (arith, h)

    length_body : length (drop 4 packet) ≡ size
    length_body = omega (arith, length-drop 4 packet, shape.1)

    small : size_refused size ≡ false
    small = ground (arith, h)

    enough : ltb (length (drop 4 packet ++ rest)) size ≡ false
    enough = ground (arith, length-append (drop 4 packet) rest, length_body)

    body : take size (drop 4 packet ++ rest) ≡ drop 4 packet
    body = take-append_eq size (drop 4 packet) rest length_body
