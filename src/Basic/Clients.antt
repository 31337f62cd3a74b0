-- ===== src/Basic/Clients.antt =====
-- The clients of C++/Lecture 1, Sync TCP & UDP: TCP/SyncTcpClient.cpp and UDP/SyncUdpClient.cpp, each
-- a main that sends one message and waits for the answer.
pub mod Leaves
pub mod Exchange
use network_all_in_one.Prelude.{
  ℕ, Bool, true, false, List, [], ◌∷◌, Option, none, some, length, if◌then◌else◌,
}
use network_all_in_one.Text.{Bytes, ℤ, pos, negsuc}
use network_all_in_one.Kernel.{
  Io, pure, lift, open_descriptor, try_call, close, recv, send, ◌>>=◌, ◌>>◌,
}
use network_all_in_one.Storage.Request.{buffer_size}
use network_all_in_one.Tcp.Echo.{NoData}
use network_all_in_one.Basic.{buffer_text}

-- How a client ends: the number that main returns, and the answers of the server that it has printed.
pub record Exit : Type 0 where
  pub code : ℤ
  pub printed : List Bytes

-- An end without an answer.
abbrev pub silent : ℤ → Exit
silent code = record { code = code; printed = [] }

-- "Hello World!"
abbrev pub hello_world : Bytes
hello_world = b'H' ∷ b'e' ∷ b'l' ∷ b'l' ∷ b'o' ∷ b' ' ∷ b'W' ∷ b'o' ∷ b'r' ∷ b'l' ∷ b'd' ∷ b'!' ∷ []

-- What the TCP client does behind connect. Neither the result of send nor that of recv is tested.
unfoldable pub talk : ℕ → Io NoData Exit
unfolding buffer_text
talk sock = do
  sent ← send sock hello_world (length hello_world)
  got ← recv sock buffer_size
  text ← lift (buffer_text got)
  close sock
  pure (record { code = pos 0; printed = text ∷ [] })

-- A failed connect returns with the socket open.
unfoldable pub connect_tcp : ℕ → Io NoData Exit
unfolding talk
connect_tcp sock = do
  connected ← try_call
  if connected then talk sock else pure (silent (negsuc 0))

-- main of SyncTcpClient.cpp
unfoldable pub tcp_client : Io NoData Exit
unfolding connect_tcp
tcp_client = do
  socket ← open_descriptor
  elim socket [ none ↦ pure (silent (negsuc 0)) | some sock ↦ connect_tcp sock ]

-- "Hello, UDP Server!"
abbrev pub hello_udp : Bytes
hello_udp =
    b'H' ∷ b'e' ∷ b'l' ∷ b'l' ∷ b'o' ∷ b',' ∷ b' ' ∷ b'U' ∷ b'D' ∷ b'P' ∷ b' ' ∷ b'S' ∷ b'e' ∷ b'r'
    ∷ b'v' ∷ b'e' ∷ b'r' ∷ b'!' ∷ []

unfoldable pub close_with : ℤ → ℕ → Io NoData Exit
close_with code sockfd = do close sockfd; pure (silent code)

-- The UDP client behind recvfrom: it does not print the answer.
unfoldable pub after_recvfrom : ℕ → Option Bytes → Io NoData Exit
unfolding close_with
after_recvfrom sockfd none = close_with (pos 1) sockfd
after_recvfrom sockfd (some bs) = close_with (pos 0) sockfd

-- The UDP client behind sendto, which failed where there is no number.
unfoldable pub after_sendto : ℕ → Option ℕ → Io NoData Exit
unfolding close_with after_recvfrom
after_sendto sockfd none = close_with (pos 1) sockfd
after_sendto sockfd (some n) = do got ← recv sockfd buffer_size; after_recvfrom sockfd got

-- The UDP client behind inet_pton.
unfoldable pub send_datagram : ℕ → Bool → Io NoData Exit
unfolding close_with after_sendto
send_datagram sockfd false = close_with (pos 1) sockfd
send_datagram sockfd true = do
  sent ← send sockfd hello_udp (length hello_udp)
  after_sendto sockfd sent

-- main of SyncUdpClient.cpp
unfoldable pub udp_client : Io NoData Exit
unfolding send_datagram
udp_client = do
  socket ← open_descriptor
  elim socket [ none ↦ pure (silent (pos 1)) | some sockfd ↦ try_call >>= send_datagram sockfd ]
