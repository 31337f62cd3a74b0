-- ===== src/Async/Poll.antt =====
-- The program poll/TCPServer_poll.cpp. Its loop is that of server_poll (Tcp/Poll), statement by
-- statement; main opens the socket before it.
use network_all_in_one.Prelude.{
  ℕ, Bool, false, List, [], ◌∷◌, Option, none, some, ◌==◌, if◌then◌else◌,
}
use network_all_in_one.Text.{negsuc}
use network_all_in_one.Kernel.{Io, pure, open_descriptor, try_call, ◌>>=◌}
use network_all_in_one.Storage.Server.{sync}
use network_all_in_one.Storage.Loops.{Wait}
use network_all_in_one.Tcp.Echo.{TcpServer, Entry, Outcome, gave, NoData}
use network_all_in_one.Tcp.Poll.{poll_echo_loop}

-- The state of main: the listening socket and the vector fds.
abbrev pub poll_state : Option ℕ → List Entry → TcpServer
poll_state listener fds = record {
  server_socket = listener;
  client_sockets = [];
  server_type = sync;
  poll_fds = fds;
}

unfoldable pub listen_poll : List (Wait (ℕ → Bool)) → ℕ → Io NoData Outcome
unfolding poll_echo_loop
listen_poll waits listener = do
  bound ← try_call
  listening ← if bound then try_call else pure false
  if listening
      then poll_echo_loop waits
          (poll_state (some listener) ((record { fd = listener; pollin = false }) ∷ []))
      else pure (gave (negsuc 0) (poll_state (some listener) []))

-- main: the failure of socket() is tested as 0; for -1 the bind fails.
unfoldable pub poll_main : List (Wait (ℕ → Bool)) → Io NoData Outcome
unfolding listen_poll
poll_main waits = do
  socket ← open_descriptor
  elim socket [
    | none ↦ pure (gave (negsuc 0) (poll_state none []))
    | some listener ↦
        if listener == 0
        then pure (gave (negsuc 0) (poll_state (some listener) []))
        else listen_poll waits listener
  ]
