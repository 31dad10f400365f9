-- ===== src/Server.antt =====
-- native_module/src/rcon_server.cpp: the loops over a socket and the conversation with one client.
-- Left out are the debug log and the set-up of the listening socket (WSAStartup, socket, bind).
pub mod Transport
pub mod Stream
pub mod Packets
pub mod Ending
pub mod Session
use open_scum_rcon.Base.{
  ℕ, zero, suc, ◌+◌, ◌-◌, ◌*◌, ◌/◌, ◌%◌, ◌^◌, ◌≤◌, ◌<◌, min, ◌≡◌, refl, sym, ap, ◌∙◌, subst, ◌≢◌,
  ◌↔◌, ◌⊎◌, inl, inr, Bool, true, false, not, ◌&&◌, ◌||◌, Option, none, some, List, [], ◌∷◌, ◌++◌,
  map, append-nil, append_assoc, arith, Bytes, IsBytes, text, same_text, same_text_iff, any_byte,
  all_bytes, ltb, leb, ◌==◌, if◌then◌else◌, ltb→lt, ltb→ge, leb→le, ==_iff, Bool-cases,
  Option-cases, length, get_or, take, drop, replicate, length-append, take-append-drop, length-take,
  length-drop, length-replicate, take_all, drop_all, take-append_eq, drop-append_eq,
  take-append_right, drop-drop, get_or-drop, get_or-take, get_or_inside, drop-append_right,
  get_or-append_left, get_or-append_right, All, All-append, All-append_left, All-append_right,
  All-take, All-drop, All-get_or, All-get_or_lt,
}
use open_scum_rcon.Authority.{CommandAuthority}
use open_scum_rcon.Protocol.{
  Packet, bytes_int32, encode_packet, encode_response, decode_packet_body, auth, auth_response,
  exec_command,
}
use open_scum_rcon.Queue.{CommandQueue, enqueue, answer}
use Transport.{Tcp}

-- `size <= 0 || size > 8192`, of an int32_t.
unfoldable pub size_refused : ℕ → Bool
size_refused size = leb (2 ^ 31) size || size == 0 || ltb 8192 size

module _ (tcp : Tcp) where
  open tcp use {Socket, recv, send}

  -- The loop of `recv_exact`, with what it has received; `none` is `return false`. A round
  -- receives at least one byte, so `size` rounds are enough.
  unfoldable pub recv_loop : ℕ → ℕ → Bytes → Socket → Option Bytes × Socket
  recv_loop zero size received s = (if ltb (length received) size then none else some received, s)
  recv_loop (suc fuel) size received s = elim (ltb (length received) size) [
    | false ↦ (some received, s)
    | true ↦
        let (n, s') = recv (size - length received) s in
        elim n [ none ↦ (none, s') | some got ↦ recv_loop fuel size (received ++ got) s' ]
  ]

  unfoldable pub recv_exact : ℕ → Socket → Option Bytes × Socket
  recv_exact size = recv_loop size size []

  -- The loop of `send_all`, on the bytes that are left to send.
  unfoldable pub send_loop : ℕ → Bytes → Socket → Bool × Socket
  send_loop zero left s = (length left == 0, s)
  send_loop (suc fuel) left s = elim (ltb 0 (length left)) [
    | false ↦ (true, s)
    | true ↦
        let (n, s') = send left s in
        elim n [ none ↦ (false, s') | some k ↦ send_loop fuel (drop k left) s' ]
  ]

  unfoldable pub send_all : Bytes → Socket → Bool × Socket
  send_all content = send_loop (length content) content

  unfoldable pub recv_body : Bytes → Socket → Option Packet × Socket
  recv_body size_buf s =
      let size = bytes_int32 size_buf in
      if size_refused size
      then (none, s)
      else (let (body, s') = recv_exact size s in
          (elim body [ none ↦ none | some b ↦ decode_packet_body b ], s'))

  unfoldable pub recv_packet : Socket → Option Packet × Socket
  recv_packet s =
      let (size_buf, s') = recv_exact 4 s in
      elim size_buf [ none ↦ (none, s') | some buf ↦ recv_body buf s' ]

  -- The loop over the packets of a response; it ends at the first that cannot be sent.
  unfoldable pub send_packets : List Bytes → Socket → Bool × Socket
  send_packets [] s = (true, s)
  send_packets (packet ∷ packets) s =
      let (done, s') = send_all packet s in
      elim done [ false ↦ (false, s') | true ↦ send_packets packets s' ]

  -- The game thread and the clock: what happens to the queue while the connection waits for its
  -- future, for at most RESPONSE_WAIT_TIMEOUT_SECONDS.
  module _ (wait_for : ℕ → CommandQueue → CommandQueue) where
    -- Where the future is not ready after that time, the command is reported as timed out.
    unfoldable pub await : ℕ → CommandQueue → Bytes
    await future q = elim (answer future q.futures) [
      | some response_text ↦ response_text
      | none ↦ text "error: command timed out"
    ]

    unfoldable pub ask : Bytes → CommandQueue → Bytes × CommandQueue
    unfolding await
    ask command_text q =
        let (future, queued) = enqueue command_text CommandAuthority.authenticated_rcon q in
        let waited = wait_for future queued in (await future waited, waited)

    -- The `while (true)` loop; `none` means that the fuel ran out.
    unfoldable pub command_loop : ℕ → Socket → CommandQueue → Option (Socket × CommandQueue)
    command_loop zero s q = none
    command_loop (suc fuel) s q =
        let (packet, s₁) = recv_packet s in
        elim packet [
          | none ↦ some (s₁, q)
          | some p ↦ elim (p.type == exec_command) [
            | false ↦ command_loop fuel s₁ q
            | true ↦
                let (response_text, q') = ask p.payload q in
                let (ok_send, s₂) = send_packets (encode_response p.request_id response_text) s₁ in
                elim ok_send [ false ↦ some (s₂, q') | true ↦ command_loop fuel s₂ q' ]
          ]
        ]

    -- Behind a first packet.
    unfoldable pub authenticate :
        ℕ → Bytes → Packet → Socket → CommandQueue → Option (Socket × CommandQueue)
    authenticate fuel password p s q =
        if not (p.type == auth)
        then some (s, q)
        else if not (same_text p.payload password)
        then some ((send_all (encode_packet (2 ^ 32 - 1) auth_response []) s).1, q)
        else (let (done, s') = send_all (encode_packet p.request_id auth_response []) s in
            let rest = command_loop fuel s' q in if not done then some (s', q) else rest)

    -- The conversation with one client, up to the closing of the socket.
    unfoldable pub handle_connection :
        ℕ → Bytes → Socket → CommandQueue → Option (Socket × CommandQueue)
    handle_connection fuel password s q =
        let (packet, s') = recv_packet s in
        elim packet [ none ↦ some (s', q) | some p ↦ authenticate fuel password p s' q ]
