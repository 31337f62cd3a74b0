-- ===== src/Async/Clients/Epoll.antt =====
-- The program epoll/TCPClient_epoll.cpp of Lecture 2.
pub mod Leaves
use network_all_in_one.Prelude.{
  ℕ, Bool, true, false, List, [], ◌∷◌, ◌++◌, Option, none, some, length, if◌then◌else◌,
}
use network_all_in_one.Text.{Bytes, ℤ, pos}
use network_all_in_one.Kernel.{
  Io, pure, lift, open_descriptor, try_call, watch, close, recv, send, get_flags, set_flags, ◌>>=◌,
  ◌>>◌,
}
use network_all_in_one.Storage.Request.{buffer_size}
use network_all_in_one.Storage.Server.{with_nonblock}
use network_all_in_one.Tcp.Echo.{NoData}
use network_all_in_one.Basic.Clients.{Exit, silent}
use network_all_in_one.Async.Clients.{Connection, connected, in_progress, refused, show_reply}

-- "Hello, Server!"
abbrev pub hello_server : Bytes
hello_server =
    b'H' ∷ b'e' ∷ b'l' ∷ b'l' ∷ b'o' ∷ b',' ∷ b' ' ∷ b'S' ∷ b'e' ∷ b'r' ∷ b'v' ∷ b'e' ∷ b'r' ∷ b'!'
    ∷ []

-- An event, which is of the one socket: whether EPOLLOUT and EPOLLIN are set; and what the memory of
-- the buffer holds when it is handled.
pub record Ready : Type 0 where
  pub writable : Bool
  pub readable : Bool
  pub stack : Bytes

-- set_non_blocking: whether it returns; else it exits.
unfoldable pub set_flags_of : ℕ → Option ℕ → Io NoData Bool
unfolding with_nonblock
set_flags_of sockfd none = pure false
set_flags_of sockfd (some flags) = set_flags sockfd (with_nonblock flags)

unfoldable pub set_non_blocking : ℕ → Io NoData Bool
unfolding set_flags_of
set_non_blocking sockfd = do flags ← get_flags sockfd; set_flags_of sockfd flags

-- The message, and EPOLL_CTL_MOD; no result is tested.
unfoldable pub greet : ℕ → Io NoData (Unit {0})
greet sockfd = do
  sent ← send sockfd hello_server (length hello_server)
  modified ← try_call
  pure tt

unfoldable pub read_event : ℕ → Bytes → Io NoData (List Bytes)
unfolding show_reply
read_event sockfd stack = do got ← recv sockfd buffer_size; lift (show_reply stack got)

-- One event, and what is printed.
unfoldable pub handle_ready : ℕ → Ready → Io NoData (List Bytes)
unfolding greet read_event
handle_ready sockfd e = do
  greeted ← if e.writable then greet sockfd else pure tt
  if e.readable then read_event sockfd e.stack else pure []

unfoldable pub handle_events : ℕ → List Ready → Io NoData (List Bytes)
unfolding handle_ready
handle_events sockfd [] = pure []
handle_events sockfd (e ∷ es) = do
  printed ← handle_ready sockfd e
  others ← handle_events sockfd es
  pure (printed ++ others)

-- exit(EXIT_FAILURE) behind close(sockfd). What was printed before is kept.
unfoldable pub fail : ℕ → List Bytes → Io NoData Exit
fail sockfd printed = do close sockfd; pure (record { code = pos 1; printed = printed })

-- The second epoll_wait, which failed where there is no list, and the end of main.
unfoldable pub check_reply : ℕ → List Bytes → Option (List Ready) → Io NoData Exit
unfolding fail handle_events
check_reply sockfd printed none = fail sockfd printed
check_reply sockfd printed (some events) = do
  others ← handle_events sockfd events
  close sockfd
  pure (record { code = pos 0; printed = printed ++ others })

module _ (first second : Option (List Ready)) where
  -- Both calls of epoll_wait.
  unfoldable pub wait_twice : ℕ → Io NoData Exit
  unfolding fail handle_events check_reply
  wait_twice sockfd = elim first [
    | none ↦ fail sockfd []
    | some events ↦ (do printed ← handle_events sockfd events; check_reply sockfd printed second)
  ]

  -- Behind epoll_create1.
  unfoldable pub watch_socket : ℕ → Option ℕ → Io NoData Exit
  unfolding fail wait_twice
  watch_socket sockfd none = fail sockfd []
  watch_socket sockfd (some epoll_fd) = do
    added ← watch sockfd
    if added then wait_twice sockfd else fail sockfd []

  unfoldable pub create_epoll : ℕ → Connection → Io NoData Exit
  unfolding fail watch_socket
  create_epoll sockfd connected = open_descriptor >>= watch_socket sockfd
  create_epoll sockfd in_progress = open_descriptor >>= watch_socket sockfd
  create_epoll sockfd refused = fail sockfd []

  -- Behind inet_pton. set_non_blocking exits with the socket open.
  unfoldable pub connect_epoll : Connection → ℕ → Bool → Io NoData Exit
  unfolding fail set_non_blocking create_epoll
  connect_epoll connection sockfd false = fail sockfd []
  connect_epoll connection sockfd true = do
    fine ← set_non_blocking sockfd
    if fine then create_epoll sockfd connection else pure (silent (pos 1))

  -- main, for what connect and the two calls of epoll_wait answer.
  unfoldable pub epoll_client : Connection → Io NoData Exit
  unfolding connect_epoll
  epoll_client connection = do
    socket ← open_descriptor
    elim socket [
      | none ↦ pure (silent (pos 1))
      | some sockfd ↦ try_call >>= connect_epoll connection sockfd
    ]
