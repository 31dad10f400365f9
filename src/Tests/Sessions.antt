-- ===== src/Tests/Sessions.antt =====
-- The server at a concrete connection: a login, and a command that comes in one chunk with it.
use open_scum_rcon.Base.{
  ℕ, ◌-◌, ◌^◌, ◌<◌, ◌≡◌, refl, ◌≢◌, true, false, none, some, [], ◌∷◌, ◌++◌, arith, same_text,
  length, take,
}
use open_scum_rcon.Protocol.{
  Packet, bytes_int32, int32_bytes, encode_packet, decode_packet_body, auth, auth_response,
  exec_command, terminate, copy_at, write_header,
}
use open_scum_rcon.Protocol.Decode.{IsSendable}
use open_scum_rcon.Queue.{CommandQueue}
use open_scum_rcon.Server.{recv_exact, send_all, size_refused, handle_connection}
use open_scum_rcon.Server.Stream.{IsReceived, recv_exact-IsReceived, IsSent, send_all-IsSent}
use open_scum_rcon.Server.Packets.{read_body, read_packet}
use open_scum_rcon.Server.Session.{packets, serve, Ends, handle_connection_serves}
use open_scum_rcon.Server.Ending.{is_login, handle_connection_refused, handle_connection_total}
use open_scum_rcon.Tests.Pipe.{Pipe, pipe, pipe_law, pipe_accepts}

abbrev login : Packet
login = record { request_id = 7; type = auth; payload = 0x70 ∷ 0x77 ∷ [] }

abbrev asked : Packet
asked = record { request_id = 8; type = exec_command; payload = 0x68 ∷ 0x69 ∷ [] }

abbrev client : Pipe
client = record {
  chunks =
      (encode_packet login.request_id login.type login.payload
        ++ encode_packet asked.request_id asked.type asked.payload)
      ∷ [];
  written = [];
}

abbrev idle : CommandQueue
idle = record { pending = []; futures = [] }

abbrev nobody : ℕ → CommandQueue → CommandQueue
nobody future q = q

login-IsSendable : IsSendable login
login-IsSendable = record {
  id_fits = omega arith;
  type_fits = omega arith;
  no_nul = (λ e. cc, (λ e. cc, _));
}

first_packet : (read_packet (pipe_law.incoming client)).0 ≡ some login
unfolding pipe_law read_packet read_body encode_packet int32_bytes bytes_int32 size_refused
    decode_packet_body terminate copy_at write_header
first_packet = refl

recv_exact-IsReceived_example : IsReceived pipe pipe_law 6 client (recv_exact pipe 6 client)
recv_exact-IsReceived_example = recv_exact-IsReceived pipe pipe_law 6 client

send_all-IsSent_example :
    IsSent pipe pipe_law
      (0x31 ∷ 0x32 ∷ 0x33 ∷ 0x34 ∷ 0x35 ∷ 0x36 ∷ [])
      client
      (send_all pipe (0x31 ∷ 0x32 ∷ 0x33 ∷ 0x34 ∷ 0x35 ∷ 0x36 ∷ []) client)
send_all-IsSent_example =
    send_all-IsSent pipe pipe_law (0x31 ∷ 0x32 ∷ 0x33 ∷ 0x34 ∷ 0x35 ∷ 0x36 ∷ []) client

short : length (pipe_law.incoming client) < 99
unfolding pipe_law encode_packet int32_bytes terminate copy_at write_header
short = omega arith

is_known : is_login login.payload (some login) ≡ true
unfolding is_login same_text
is_known = refl

is_unknown : is_login [] (read_packet (pipe_law.incoming client)).0 ≡ false
unfolding is_login same_text
is_unknown = rw first_packet

handle_connection_serves_example :
    Ends pipe pipe_law nobody client
      (
        encode_packet login.request_id auth_response []
            ++ (serve pipe pipe_law nobody
                (packets 99 (read_packet (pipe_law.incoming client)).1)
                idle).0,
        (serve pipe pipe_law nobody (packets 99 (read_packet (pipe_law.incoming client)).1) idle).1,
      )
      (handle_connection pipe nobody 99 login.payload client idle)
handle_connection_serves_example =
    handle_connection_serves pipe pipe_law nobody 99 login.payload client idle login pipe_accepts
      short first_packet is_known

handle_connection_refused_example :
    (s' : Pipe) × (k : ℕ) × (handle_connection pipe nobody 99 [] client idle ≡ some (s', idle))
    × (pipe_law.sent s'
        ≡ pipe_law.sent client ++ take k (encode_packet (2 ^ 32 - 1) auth_response []))
    × (pipe_law.incoming s' ≡ (read_packet (pipe_law.incoming client)).1)
handle_connection_refused_example =
    handle_connection_refused pipe pipe_law nobody 99 [] client idle is_unknown

handle_connection_total_example : handle_connection pipe nobody 99 [] client idle ≢ none
handle_connection_total_example =
    handle_connection_total pipe pipe_law nobody 99 [] client idle short
