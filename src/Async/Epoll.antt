-- ===== src/Async/Epoll.antt =====
-- The program epoll/TCPServer_epoll.cpp. Its loop is that of server_epoll (Tcp/Epoll), with write in
-- place of send; main opens the socket before it, and every failure exits.
use network_all_in_one.Prelude.{ℕ, false, List, [], none, some, ◌==◌, if◌then◌else◌}
use network_all_in_one.Kernel.{Io, pure, open_descriptor, try_call, ◌>>=◌}
use network_all_in_one.Storage.Loops.{Wait}
use network_all_in_one.Tcp.Echo.{Outcome, exited, NoData}
use network_all_in_one.Tcp.Epoll.{run_watched}
use network_all_in_one.Async.Poll.{poll_state}

unfoldable pub listen_epoll : List (Wait (List ℕ)) → ℕ → Io NoData Outcome
unfolding run_watched
listen_epoll waits server_fd = do
  bound ← try_call
  listening ← if bound then try_call else pure false
  if listening
      then (do
        epoll_fd ← open_descriptor
        run_watched waits (poll_state (some server_fd) []) epoll_fd)
      else pure exited

-- main: the failure of socket() is tested as 0; for -1 the bind fails.
unfoldable pub epoll_main : List (Wait (List ℕ)) → Io NoData Outcome
unfolding listen_epoll
epoll_main waits = do
  socket ← open_descriptor
  elim socket [
    | none ↦ pure exited
    | some server_fd ↦ if server_fd == 0 then pure exited else listen_epoll waits server_fd
  ]
