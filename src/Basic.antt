-- ===== src/Basic.antt =====
-- The servers of C++/Lecture 1, Sync TCP & UDP: TCP/SyncTcpServer.cpp and UDP/SyncUdpServer.cpp, each
-- a main that echoes one message.
pub mod Echoed
pub mod Closed
pub mod Clients
use network_all_in_one.Prelude.{
  ℕ, Bool, true, false, [], ◌∷◌, ◌++◌, Option, none, some, length, ◌==◌, if◌then◌else◌,
}
use network_all_in_one.Text.{Bytes, ℤ, pos, negsuc, Result, ok, throws, bad_buffer}
use network_all_in_one.Kernel.{
  Io, pure, lift, open_descriptor, try_call, close, recv, send, ◌>>=◌, ◌>>◌,
}
use network_all_in_one.Storage.Request.{buffer_size}
use network_all_in_one.Tcp.Echo.{NoData}
use network_all_in_one.Async.Select.{c_string}

-- "Echo: "
abbrev pub echo_prefix : Bytes
echo_prefix = b'E' ∷ b'c' ∷ b'h' ∷ b'o' ∷ b':' ∷ b' ' ∷ []

-- std::string(buffer), of a buffer of zeros behind a recv: a failed recv leaves it empty. Where the
-- bytes fill the buffer and none is zero, the string is read past its end, which is undefined.
unfoldable pub buffer_text : Option Bytes → Result Bytes
unfolding c_string
buffer_text none = ok []
buffer_text (some bs) =
    if length (c_string bs) == buffer_size then throws bad_buffer else ok (c_string bs)

-- What the TCP server does for the client it has accepted.
unfoldable pub answer_client : ℕ → ℕ → Io NoData ℤ
unfolding buffer_text
answer_client server_fd client_fd = do
  got ← recv client_fd buffer_size
  text ← lift (buffer_text got)
  sent ← send client_fd (echo_prefix ++ text) (length (echo_prefix ++ text))
  close client_fd
  close server_fd
  pure (pos 0)

unfoldable pub accept_client : ℕ → Io NoData ℤ
unfolding answer_client
accept_client server_fd = do
  client ← open_descriptor
  elim client [ none ↦ pure (negsuc 0) | some client_fd ↦ answer_client server_fd client_fd ]

unfoldable pub serve_bound : ℕ → Io NoData ℤ
unfolding accept_client
serve_bound server_fd = do
  bound ← try_call
  listening ← if bound then try_call else pure false
  if listening then accept_client server_fd else pure (negsuc 0)

-- main of SyncTcpServer.cpp
unfoldable pub tcp_main : Io NoData ℤ
unfolding serve_bound
tcp_main = do
  socket ← open_descriptor
  elim socket [ none ↦ pure (negsuc 0) | some server_fd ↦ serve_bound server_fd ]

-- The end of the UDP server behind sendto, which failed where there is no number.
unfoldable pub answered : ℕ → Option ℕ → Io NoData ℤ
answered server_fd none = do close server_fd; pure (negsuc 0)
answered server_fd (some n) = do close server_fd; pure (pos 0)

-- The UDP server behind recvfrom. A buffer that the datagram fills without a zero byte is printed
-- past its end, which is undefined.
unfoldable pub echo_datagram : ℕ → Option Bytes → Io NoData ℤ
unfolding buffer_text answered
echo_datagram server_fd none = do close server_fd; pure (negsuc 0)
echo_datagram server_fd (some bs) = do
  printed ← lift (buffer_text (some bs))
  n ← send server_fd bs (length bs)
  answered server_fd n

unfoldable pub serve_datagram : ℕ → Bool → Io NoData ℤ
unfolding echo_datagram
serve_datagram server_fd false = do close server_fd; pure (negsuc 0)
serve_datagram server_fd true = do got ← recv server_fd buffer_size; echo_datagram server_fd got

-- main of SyncUdpServer.cpp
unfoldable pub udp_main : Io NoData ℤ
unfolding serve_datagram
udp_main = do
  socket ← open_descriptor
  elim socket [ none ↦ pure (negsuc 0) | some server_fd ↦ try_call >>= serve_datagram server_fd ]
