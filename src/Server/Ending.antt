-- ===== src/Server/Ending.antt =====
-- Who is refused, and that every conversation ends.
use open_scum_rcon.Base.{
  ℕ, zero, suc, ◌-◌, ◌^◌, ◌<◌, ◌≡◌, refl, sym, ap, ◌∙◌, ◌≢◌, inl, inr, Bool, false, ◌&&◌, Option,
  none, some, List, [], ◌∷◌, ◌++◌, append-nil, arith, Bytes, same_text, ◌==◌, Bool-cases,
  Option-cases, length, take, drop, length-drop,
}
use open_scum_rcon.Protocol.{
  Packet, encode_packet, encode_response, auth, auth_response, exec_command, bytes_int32,
}
use open_scum_rcon.Queue.{CommandQueue}
use open_scum_rcon.Server.{
  send_all, recv_packet, send_packets, ask, command_loop, authenticate, handle_connection,
}
use open_scum_rcon.Server.Transport.{Tcp, IsTcp}
use open_scum_rcon.Server.Stream.{send_all-IsSent}
use open_scum_rcon.Server.Packets.{read_body, read_packet, recv_packet-Reads}

-- The first packet of the stream is a login with the password.
unfoldable pub is_login : Bytes → Option Packet → Bool
is_login password none = false
is_login password (some p) = p.type == auth && same_text p.payload password

-- A packet takes its size off the stream.
pub read_packet-shrinks :
    (stream : Bytes) (p : Packet)
    → (read_packet stream).0 ≡ some p
    → length (read_packet stream).1 < length stream
unfolding read_packet read_body
read_packet-shrinks stream p h =
    ground (arith, length-drop 4 stream, length-drop (bytes_int32 (take 4 stream)) (drop 4 stream))

module _ (tcp : Tcp) (law : IsTcp tcp) (wait_for : ℕ → CommandQueue → CommandQueue) where
  open law use {incoming, sent}

  send_packets-unread :
      (ps : List Bytes) (s : tcp.Socket) → incoming (send_packets tcp ps s).1 ≡ incoming s
  unfolding send_packets
  send_packets-unread [] s = refl
  send_packets-unread (p ∷ ps) s =
      let one = send_all-IsSent tcp law p s in
      elim (Bool-cases (send_all tcp p s).0) [
        | inr failed ↦ rw (failed, send_packets) one.unread
        | inl done ↦
            rw (done, send_packets) (send_packets-unread ps (send_all tcp p s).1 ∙ one.unread)
      ]

  command_loop_total :
      (fuel : ℕ) (s : tcp.Socket) (q : CommandQueue)
      → length (incoming s) < fuel
      → command_loop tcp wait_for fuel s q ≢ none
  unfolding command_loop
  command_loop_total zero s q h = absurd (omega arith)
  command_loop_total (suc fuel) s q h =
      let r = recv_packet-Reads tcp law s in
      elim (Option-cases (recv_packet tcp s).0) [
        | inl closed ↦ rw (closed, command_loop) (λ e. cc)
        | inr (p, found) ↦
            let less : length (incoming (recv_packet tcp s).1) < length (incoming s) =
              rw r.1 (read_packet-shrinks (incoming s) p (sym r.0 ∙ found)) in
            let s₁ = (recv_packet tcp s).1 in
            let (response_text, q') = ask tcp wait_for p.payload q in
            let response = encode_response p.request_id response_text in
            let unread = send_packets-unread response s₁ in
            rw (found, command_loop)
              (elim (Bool-cases (p.type == exec_command)) [
                | inr other ↦ rw other (command_loop_total fuel s₁ q (omega arith))
                | inl exec ↦ rw exec (elim (Bool-cases (send_packets tcp response s₁).0) [
                  | inr failed ↦ rw (failed, command_loop) (λ e. cc)
                  | inl done ↦
                      rw (done, command_loop)
                        (command_loop_total fuel (send_packets tcp response s₁).1 q'
                          (omega (arith, ap length unread)))
                ])
              ])
      ]

  -- A connection whose first packet is no login with the password never reaches the queue: it is
  -- answered at most with an authentication response of id -1, and nothing behind that packet is read.
  pub handle_connection_refused :
      (fuel : ℕ) (password : Bytes) (s : tcp.Socket) (q : CommandQueue)
      → is_login password (read_packet (incoming s)).0 ≡ false
      → (s' : tcp.Socket) × (k : ℕ) × (handle_connection tcp wait_for fuel password s q
          ≡ some (s', q))
        × (sent s' ≡ sent s ++ take k (encode_packet (2 ^ 32 - 1) auth_response []))
        × (incoming s' ≡ (read_packet (incoming s)).1)
  unfolding handle_connection authenticate is_login
  handle_connection_refused fuel password s q h =
      let r = recv_packet-Reads tcp law s in
      let s₁ = (recv_packet tcp s).1 in
      let quiet : sent s₁ ≡ sent s ++ [] = r.2 ∙ sym (append-nil (sent s)) in
      elim (Option-cases (recv_packet tcp s).0) [
        | inl closed ↦ (s₁, 0, rw (closed, handle_connection), quiet, r.1)
        | inr (p, found) ↦
            let here : (p.type == auth && same_text p.payload password) ≡ false =
              rw (← r.0, found) at h in
            elim (Bool-cases (p.type == auth)) [
              | inr other ↦ (s₁, 0, rw (found, handle_connection) (rw other), quiet, r.1)
              | inl typed ↦
                  let wrong : same_text p.payload password ≡ false = rw typed at here in
                  let refusal = encode_packet (2 ^ 32 - 1) auth_response [] in
                  let reply = send_all-IsSent tcp law refusal s₁ in
                  (
                    (send_all tcp refusal s₁).1,
                    reply.count,
                    rw (found, handle_connection) (rw (typed, wrong)),
                    reply.written ∙ ap (λ zs. zs ++ take reply.count refusal) r.2,
                    reply.unread ∙ r.1,
                  )
            ]
      ]

  -- Every conversation ends: one round more than the stream has bytes is enough.
  pub handle_connection_total :
      (fuel : ℕ) (password : Bytes) (s : tcp.Socket) (q : CommandQueue)
      → length (incoming s) < fuel
      → handle_connection tcp wait_for fuel password s q ≢ none
  unfolding handle_connection authenticate
  handle_connection_total fuel password s q h =
      let r = recv_packet-Reads tcp law s in
      let s₁ = (recv_packet tcp s).1 in
      elim (Option-cases (recv_packet tcp s).0) [
        | inl closed ↦ rw (closed, handle_connection) (λ e. cc)
        | inr (p, found) ↦
            rw (found, handle_connection)
              (let ok_packet = encode_packet p.request_id auth_response [] in
                let reply = send_all-IsSent tcp law ok_packet s₁ in
                let less : length (incoming s₁) < length (incoming s) =
                  rw r.1 (read_packet-shrinks (incoming s) p (sym r.0 ∙ found)) in
                let rest =
                  command_loop_total fuel (send_all tcp ok_packet s₁).1 q
                    (omega (arith, ap length reply.unread)) in
                elim (Bool-cases (p.type == auth)) [
                  | inr other ↦ rw other (λ e. cc)
                  | inl typed ↦ rw typed (elim (Bool-cases (same_text p.payload password)) [
                    | inr wrong ↦ rw wrong (λ e. cc)
                    | inl right ↦ rw right (elim (Bool-cases (send_all tcp ok_packet s₁).0) [
                      | inr failed ↦ rw failed (λ e. cc)
                      | inl done ↦ rw done rest
                    ])
                  ])
                ])
      ]
