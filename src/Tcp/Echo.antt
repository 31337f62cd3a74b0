-- ===== src/Tcp/Echo.antt =====
-- The object TCPServer: its fields, constructor, destructor, bind, listen, accept and send, and the
-- program of main.cpp.
pub mod Leak
use network_all_in_one.Prelude.{ℕ, List, [], ◌∷◌, ◌++◌, Option, none, some, Bool}
use network_all_in_one.Text.{Bytes, ℤ, pos, negsuc}
use network_all_in_one.Kernel.{Io, pure, open_descriptor, try_call, send, ◌>>=◌, ◌>>◌}
use network_all_in_one.Storage.Server.{ServerType, sync, status, close_listener}

-- An entry of pollFds_: its field `events` is POLLIN throughout, and the loop tests POLLIN alone.
pub record Entry : Type 0 where
  pub fd : ℕ
  pub pollin : Bool

-- `none` is the descriptor -1. The buffer holds what was read last and is passed on as a value;
-- selectFdsSet_ is built anew in each round, and maxFd_ is not used.
pub record TcpServer : Type 0 where
  pub server_socket : Option ℕ
  pub client_sockets : List ℕ
  pub server_type : ServerType
  pub poll_fds : List Entry

-- Where a loop stands: it would wait once more, has returned a number, or has called exit.
pub data Outcome : Type 0 where
  waiting : TcpServer → Outcome
  gave : ℤ → TcpServer → Outcome
  exited : Outcome

abbrev pub NoData : Type 0
NoData = Unit {0}

abbrev created : ServerType → Option ℕ → TcpServer
created server_type fd = record {
  server_socket = fd;
  client_sockets = [];
  server_type = server_type;
  poll_fds = [];
}

-- TCPServer(domain, serverType): a failed socket() is reported, and leaves the descriptor -1.
unfoldable pub create : ServerType → Io NoData TcpServer
create server_type = do fd ← open_descriptor; pure (created server_type fd)

-- ~TCPServer
unfoldable pub destroy : TcpServer → Io NoData (Unit {0})
unfolding close_listener
destroy s = close_listener s.server_socket

unfoldable pub bind_address : TcpServer → Io NoData ℤ
bind_address s = do fine ← try_call; pure (status fine)

unfoldable pub start_listening : TcpServer → Io NoData ℤ
start_listening s = do fine ← try_call; pure (status fine)

unfoldable pub accepted : TcpServer → Option ℕ → Io NoData (ℤ × TcpServer)
accepted s none = pure (negsuc 0, s)
accepted s (some fd) = pure (pos fd, record s { client_sockets = s.client_sockets ++ fd ∷ [] })

unfoldable pub server_accept : TcpServer → Io NoData (ℤ × TcpServer)
unfolding accepted
server_accept s = do client ← open_descriptor; accepted s client

unfoldable pub sent_count : Option ℕ → ℤ
sent_count none = negsuc 0
sent_count (some n) = pos n

unfoldable pub server_send : ℕ → Bytes → ℕ → Io NoData ℤ
unfolding sent_count
server_send fd buffer length = do n ← send fd buffer length; pure (sent_count n)

-- main of main.cpp: no result is tested.
unfoldable pub run_main : Io NoData ℤ
unfolding create bind_address start_listening server_accept destroy
run_main = do
  server ← create sync
  bound ← bind_address server
  listening ← start_listening server
  taken ← server_accept server
  destroy taken.1
  pure (pos 0)
