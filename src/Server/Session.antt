-- ===== src/Server/Session.antt =====
-- The conversation with a client, as the bytes of its stream decide it.
use open_scum_rcon.Base.{
  ℕ, zero, suc, ◌<◌, ◌≡◌, refl, sym, ap, ◌∙◌, subst, ◌≢◌, inl, inr, true, false, Option, none, some,
  List, [], ◌∷◌, ◌++◌, append-nil, append_assoc, arith, Bytes, same_text, ◌==◌, Bool-cases,
  Option-cases, length,
}
use mathlib.Core.List.{flatten}
use open_scum_rcon.Protocol.{
  Packet, encode_packet, encode_response, auth, auth_response, exec_command,
}
use open_scum_rcon.Queue.{CommandQueue}
use open_scum_rcon.Server.{
  send_all, recv_packet, send_packets, ask, command_loop, authenticate, handle_connection,
}
use open_scum_rcon.Server.Transport.{Tcp, IsTcp}
use open_scum_rcon.Server.Stream.{send_all_works}
use open_scum_rcon.Server.Packets.{read_packet, recv_packet-Reads}
use open_scum_rcon.Server.Ending.{is_login, read_packet-shrinks}

-- The packets of a stream up to its end, or to the first that is refused.
unfoldable pub packets : ℕ → Bytes → List Packet
packets zero stream = []
packets (suc fuel) stream =
    let (packet, rest) = read_packet stream in
    elim packet [ none ↦ [] | some p ↦ p ∷ packets fuel rest ]

module _ (tcp : Tcp) (law : IsTcp tcp) (wait_for : ℕ → CommandQueue → CommandQueue) where
  open law use {incoming, sent}

  -- What a session does with its packets: the bytes that it answers, and the queue it leaves.
  pub serve : List Packet → CommandQueue → Bytes × CommandQueue
  serve [] q = ([], q)
  serve (p ∷ ps) q = elim (p.type == exec_command) [
    | false ↦ serve ps q
    | true ↦
        let (response_text, q') = ask tcp wait_for p.payload q in
        let (rest, q'') = serve ps q' in
        (flatten (encode_response p.request_id response_text) ++ rest, q'')
  ]

  send_packets_works :
      (ps : List Bytes) (s : tcp.Socket)
      → ((offer : Bytes) (t : tcp.Socket) → (tcp.send offer t).0 ≢ none)
      → ((send_packets tcp ps s).0 ≡ true)
        × (sent (send_packets tcp ps s).1 ≡ sent s ++ flatten ps)
        × (incoming (send_packets tcp ps s).1 ≡ incoming s)
  unfolding send_packets flatten
  send_packets_works [] s accepts = (refl, sym (append-nil (sent s)), refl)
  send_packets_works (p ∷ ps) s accepts =
      let (done, written, unread) = send_all_works tcp law p s accepts in
      let (done', written', unread') = send_packets_works ps (send_all tcp p s).1 accepts in
      rw (done, send_packets)
        (
          done',
          written' ∙ ap (λ zs. zs ++ flatten ps) written ∙ append_assoc (sent s) p (flatten ps),
          unread' ∙ unread,
        )

  packets-none :
      (fuel : ℕ) (s : tcp.Socket)
      → (recv_packet tcp s).0 ≡ none
      → packets (suc fuel) (incoming s) ≡ []
  unfolding packets
  packets-none fuel s closed = rw (← (recv_packet-Reads tcp law s).0, closed, packets)

  packets-some :
      (fuel : ℕ) (s : tcp.Socket) (p : Packet)
      → (recv_packet tcp s).0 ≡ some p
      → packets (suc fuel) (incoming s) ≡ p ∷ packets fuel (incoming (recv_packet tcp s).1)
  unfolding packets
  packets-some fuel s p found =
      let r = recv_packet-Reads tcp law s in
      rw (sym r.0 ∙ found, packets) (ap (λ rest. p ∷ packets fuel rest) (sym r.1))

  -- A conversation that leaves this queue, having sent these bytes.
  abbrev pub Ends : tcp.Socket → Bytes × CommandQueue → Option (tcp.Socket × CommandQueue) → Type 0
  Ends s spec r =
      (after : tcp.Socket) × (r ≡ some (after, spec.1)) × (sent after ≡ sent s ++ spec.0)

  command_loop-Ends :
      (fuel : ℕ) (s : tcp.Socket) (q : CommandQueue)
      → ((offer : Bytes) (t : tcp.Socket) → (tcp.send offer t).0 ≢ none)
      → length (incoming s) < fuel
      → Ends s (serve (packets fuel (incoming s)) q) (command_loop tcp wait_for fuel s q)
  unfolding command_loop serve
  command_loop-Ends zero s q accepts h = absurd (omega arith)
  command_loop-Ends (suc fuel) s q accepts h =
      let r = recv_packet-Reads tcp law s in
      let s₁ = (recv_packet tcp s).1 in
      elim (Option-cases (recv_packet tcp s).0) [
        | inl closed ↦
            rw (packets-none fuel s closed)
              (rw (closed, command_loop) (s₁, refl, r.2 ∙ sym (append-nil (sent s))))
        | inr (p, found) ↦
            let less : length (incoming s₁) < length (incoming s) =
              rw r.1 (read_packet-shrinks (incoming s) p (sym r.0 ∙ found)) in
            let (response_text, q') = ask tcp wait_for p.payload q in
            let response = encode_response p.request_id response_text in
            let (done, written, unread) = send_packets_works response s₁ accepts in
            let s₂ = (send_packets tcp response s₁).1 in
            rw (packets-some fuel s p found) (
              rw (found, command_loop)
                (elim (Bool-cases (p.type == exec_command)) [
                  | inr other ↦
                      let (after, ends, answered) =
                        command_loop-Ends fuel s₁ q accepts (omega arith) in
                      rw (other, serve)
                        (
                          after,
                          ends,
                          answered ∙ ap (λ zs. zs ++ (serve (packets fuel (incoming s₁)) q).0) r.2,
                        )
                  | inl exec ↦
                      let spec = serve (packets fuel (incoming s₁)) q' in
                      let rest : Ends s₂ spec (command_loop tcp wait_for fuel s₂ q') =
                        subst
                          (λ st.
                            Ends s₂ (serve (packets fuel st) q')
                              (command_loop tcp wait_for fuel s₂ q'))
                          unread
                          (command_loop-Ends fuel s₂ q' accepts
                            (omega (arith, ap length unread))) in
                      let now = written ∙ ap (λ zs. zs ++ flatten response) r.2 in
                      rw (exec, serve, done)
                        (
                          rest.0,
                          rest.1,
                          rest.2
                              ∙ ap (λ zs. zs ++ spec.0) now
                              ∙ append_assoc (sent s) (flatten response) spec.0,
                        )
                ]))
      ]

  -- After a login the conversation answers, in the order of the stream, each packet that carries a
  -- command with the packets of its response, and passes over all others, until the stream ends or
  -- a packet is refused: the bytes sent and the queue left are those of `serve`, if the system
  -- accepts something of every offer to send and there are more rounds than bytes to come.
  pub handle_connection_serves :
      (fuel : ℕ) (password : Bytes) (s : tcp.Socket) (q : CommandQueue) (p : Packet)
      → ((offer : Bytes) (t : tcp.Socket) → (tcp.send offer t).0 ≢ none)
      → length (incoming s) < fuel
      → (read_packet (incoming s)).0 ≡ some p
      → is_login password (some p) ≡ true
      → Ends s
          (
            encode_packet p.request_id auth_response []
                ++ (serve (packets fuel (read_packet (incoming s)).1) q).0,
            (serve (packets fuel (read_packet (incoming s)).1) q).1,
          )
          (handle_connection tcp wait_for fuel password s q)
  unfolding handle_connection authenticate is_login
  handle_connection_serves fuel password s q p accepts h head login =
      let r = recv_packet-Reads tcp law s in
      let s₁ = (recv_packet tcp s).1 in
      let found : (recv_packet tcp s).0 ≡ some p = r.0 ∙ head in
      let reply = encode_packet p.request_id auth_response [] in
      let less = read_packet-shrinks (incoming s) p head in
      let (done, written, unread) = send_all_works tcp law reply s₁ accepts in
      let s₂ = (send_all tcp reply s₁).1 in
      let spec = serve (packets fuel (read_packet (incoming s)).1) q in
      let rest : Ends s₂ spec (command_loop tcp wait_for fuel s₂ q) =
        subst (λ st. Ends s₂ (serve (packets fuel st) q) (command_loop tcp wait_for fuel s₂ q))
          (unread ∙ r.1)
          (command_loop-Ends fuel s₂ q accepts (omega (arith, ap length (unread ∙ r.1)))) in
      let now = written ∙ ap (λ zs. zs ++ reply) r.2 in
      let typed : (p.type == auth) ≡ true = ground arith in
      let right : same_text p.payload password ≡ true = ground arith in
      rw (found, handle_connection)
        (rw (typed, right, done)
          (
            rest.0,
            rest.1,
            rest.2 ∙ ap (λ zs. zs ++ spec.0) now ∙ append_assoc (sent s) reply spec.0,
          ))
