-- ===== src/Server/Transport.antt =====
-- Sockets, which the program takes from Winsock: a parameter, with what the code relies on.
use open_scum_rcon.Base.{ℕ, ◌≤◌, ◌<◌, ◌≡◌, Option, none, some, [], ◌++◌, Bytes, length, take}

-- `recv` asks for at most so many bytes, `send` offers bytes; `none` is a result of 0 or less.
pub record Tcp : Type 1 where
  pub Socket : Type 0
  pub recv : ℕ → Socket → Option Bytes × Socket
  pub send : Bytes → Socket → Option ℕ × Socket

-- A TCP stream. `incoming` are the bytes that are still to arrive before the connection ends,
-- `sent` those that were accepted for sending.
pub record IsTcp (tcp : Tcp) : Type 0 where
  pub incoming : tcp.Socket → Bytes
  pub sent : tcp.Socket → Bytes
  pub recv_some :
      (n : ℕ) (s : tcp.Socket) (got : Bytes)
      → 0 < n
      → (tcp.recv n s).0 ≡ some got
      → (0 < length got) × (length got ≤ n) × (incoming s ≡ got ++ incoming (tcp.recv n s).1)
  pub recv_none : (n : ℕ) (s : tcp.Socket) → 0 < n → (tcp.recv n s).0 ≡ none → incoming s ≡ []
  pub recv_sent : (n : ℕ) (s : tcp.Socket) → sent (tcp.recv n s).1 ≡ sent s
  pub recv_closed : (n : ℕ) (s : tcp.Socket) → incoming s ≡ [] → incoming (tcp.recv n s).1 ≡ []
  pub send_some :
      (offer : Bytes) (s : tcp.Socket) (n : ℕ)
      → 0 < length offer
      → (tcp.send offer s).0 ≡ some n
      → (0 < n) × (n ≤ length offer) × (sent (tcp.send offer s).1 ≡ sent s ++ take n offer)
  pub send_none :
      (offer : Bytes) (s : tcp.Socket)
      → (tcp.send offer s).0 ≡ none
      → sent (tcp.send offer s).1 ≡ sent s
  pub send_incoming : (offer : Bytes) (s : tcp.Socket) → incoming (tcp.send offer s).1 ≡ incoming s
