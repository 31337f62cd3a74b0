-- ===== src/Tcp/Epoll.antt =====
-- server_epoll of TCPServer.cpp, on Linux.
pub mod Answers
pub mod Echoes
use network_all_in_one.Prelude.{
  ℕ, Bool, true, false, List, [], ◌∷◌, Option, none, some, length, if◌then◌else◌,
}
use network_all_in_one.Text.{Bytes}
use network_all_in_one.Kernel.{Io, pure, open_descriptor, close, recv, watch, ◌>>=◌, ◌>>◌}
use network_all_in_one.Storage.Request.{buffer_size}
use network_all_in_one.Storage.Server.{set_server_blocking, is_server}
use network_all_in_one.Storage.Loops.{Wait, interrupted, failed, ready}
use network_all_in_one.Tcp.Echo.{TcpServer, Outcome, waiting, exited, NoData, server_send}

-- Whether the loop goes on behind accept and epoll_ctl; else it exits.
unfoldable pub watch_accepted : Option ℕ → Io NoData Bool
watch_accepted none = pure false
watch_accepted (some new_socket) = watch new_socket

-- Whether the loop goes on behind a read; else it exits.
unfoldable pub echo_back : ℕ → Option Bytes → Io NoData Bool
echo_back fd none = pure false
echo_back fd (some []) = do close fd; pure true
echo_back fd (some (b ∷ bs)) = do n ← server_send fd (b ∷ bs) (length (b ∷ bs)); pure true

-- One event.
unfoldable pub echo_event : TcpServer → ℕ → Io NoData Bool
unfolding watch_accepted echo_back
echo_event s fd =
    if is_server s.server_socket fd
    then (do client ← open_descriptor; watch_accepted client)
    else (do got ← recv fd buffer_size; echo_back fd got)

-- The events of one epoll_wait, in order, up to the one that exits.
unfoldable pub echo_events : TcpServer → List ℕ → Io NoData Bool
unfolding echo_event
echo_events s [] = pure true
echo_events s (fd ∷ fds) =
    let rest = echo_events s fds in echo_event s fd >>= λ on. if on then rest else pure false

unfoldable pub epoll_echo_loop : List (Wait (List ℕ)) → TcpServer → Io NoData Outcome
unfolding echo_events
epoll_echo_loop [] s = pure (waiting s)
epoll_echo_loop (interrupted ∷ waits) s = pure exited
epoll_echo_loop (failed ∷ waits) s = pure exited
epoll_echo_loop (ready report ∷ waits) s =
    let rest = epoll_echo_loop waits s in
    echo_events s report >>= λ on. if on then rest else pure exited

unfoldable pub watch_server : Option ℕ → Io NoData Bool
watch_server none = pure false
watch_server (some listener) = watch listener

unfoldable pub run_watched : List (Wait (List ℕ)) → TcpServer → Option ℕ → Io NoData Outcome
unfolding watch_server
run_watched waits s none = pure exited
run_watched waits s (some epoll_fd) = do
  added ← watch_server s.server_socket
  if added then epoll_echo_loop waits s else pure exited

unfoldable pub server_epoll : List (Wait (List ℕ)) → TcpServer → Io NoData Outcome
unfolding run_watched
server_epoll waits s = do
  set_server_blocking s.server_socket false
  epoll_fd ← open_descriptor
  run_watched waits s epoll_fd
