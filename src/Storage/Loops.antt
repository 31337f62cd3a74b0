-- ===== src/Storage/Loops.antt =====
-- runSync, runSelect, runPoll and runEpoll of FileStorageServer.cpp. The loops never end by
-- themselves: a run goes over what the kernel answers to the waiting calls, round by round, and ends
-- where these answers end.
pub mod Ledger
pub mod Sync
pub mod Poll
pub mod Epoll
pub mod Crash
use network_all_in_one.Prelude.{
  ℕ, zero, suc, ◌+◌, ◌*◌, Bool, false, ◌||◌, ◌&&◌, not, List, [], ◌∷◌, ◌++◌, Option, none, some,
  contains, if◌then◌else◌, max, length, ltb,
}
use network_all_in_one.Text.{Bytes, ℤ, negsuc, Result, ok, throws, bad_fd_set}
use network_all_in_one.Kernel.{Io, pure, lift, open_descriptor, close, watch, unwatch, ◌>>=◌, ◌>>◌}
use network_all_in_one.Storage.Disk.{FileSystem}
use network_all_in_one.Storage.Server.{
  Server, PollFd, Revents, no_events, is_server, set_server_blocking, close_client, remember, serve,
}

-- What select, poll and epoll_wait answer: a failure with errno EINTR, another failure, or a report.
pub data Wait (A : Type 0) : Type 0 where
  interrupted : Wait A
  failed : Wait A
  ready : A → Wait A

-- Where a loop stands: it would wait once more, or has returned a number.
pub data Progress : Type 0 where
  looping : Server → Progress
  returned : ℤ → Server → Progress

-- FD_SETSIZE
abbrev pub fd_setsize : ℕ
fd_setsize = 1024

-- FD_SET: beyond FD_SETSIZE it writes outside the set, which is undefined.
unfoldable pub set_fds : List ℕ → Result (List ℕ)
set_fds [] = ok []
set_fds (fd ∷ fds) =
    let rest : Result (List ℕ) = elim (set_fds fds) [
      | ok set ↦ ok (fd ∷ set)
      | throws e ↦ throws e
    ] in
    if ltb fd fd_setsize then rest else throws bad_fd_set

-- The set that runSelect builds: the listening socket and the clients.
unfoldable pub select_set : Server → Result (List ℕ)
unfolding set_fds
select_set s = elim s.server_socket [
  | none ↦ throws bad_fd_set
  | some listener ↦ set_fds (listener ∷ s.client_sockets)
]

unfoldable pub max_fd : ℕ → List ℕ → ℕ
max_fd m [] = m
max_fd m (fd ∷ fds) = max_fd (max m fd) fds

-- select(maxFd + 1, &readFds, …): of the set, the descriptors below the bound that are reported.
unfoldable pub selected : ℕ → List ℕ → List ℕ → List ℕ
selected bound report [] = []
selected bound report (fd ∷ fds) =
    let rest = selected bound report fds in
    if ltb fd bound && contains fd report then fd ∷ rest else rest

unfoldable pub has_event : Revents → Bool
has_event e = e.pollin || e.pollhup || e.pollerr

-- The listening socket where there is one; the set of runSelect could not be built without it.
abbrev pub listener_of : Server → ℕ
listener_of s = elim s.server_socket [ none ↦ 0 | some fd ↦ fd ]

-- The entry that runPoll pushes for a descriptor, and what poll writes into the entries.
unfoldable pub push_poll : ℕ → PollFd
push_poll fd = record { fd = fd; revents = no_events }

unfoldable pub polled : (ℕ → Revents) → List PollFd → List PollFd
polled report [] = []
polled report (p ∷ ps) = record p { revents = report p.fd } ∷ polled report ps

-- The first entry of runPoll. An entry for the descriptor -1 is ignored by poll, so none is kept.
unfoldable pub listener_entry : Option ℕ → List PollFd
unfolding push_poll
listener_entry none = []
listener_entry (some listener) = push_poll listener ∷ []

module _ (fs : FileSystem) where
  open fs use {Disk}

  unfoldable pub serve_accepted : Server → Option ℕ → Io Disk Server
  serve_accepted s none = pure s
  serve_accepted s (some fd) = do serve fs s.storage_path fd; close_client fd (remember s fd)

  -- One round of runSync.
  unfoldable pub sync_round : Server → Io Disk Server
  unfolding serve_accepted
  sync_round s = do client ← open_descriptor; serve_accepted s client

  -- runSync, for a number of rounds.
  unfoldable pub run_sync : ℕ → Server → Io Disk Server
  run_sync zero s = pure s
  run_sync (suc rounds) s = do s' ← sync_round s; run_sync rounds s'

  unfoldable pub remember_accepted : Server → Option ℕ → Io Disk Server
  remember_accepted s none = pure s
  remember_accepted s (some fd) = pure (remember s fd)

  -- The part of runSelect for the listening socket.
  unfoldable pub accept_selected : Server → List ℕ → Io Disk Server
  unfolding remember_accepted
  accept_selected s fds =
      if contains (listener_of s) fds
      then (do client ← open_descriptor; remember_accepted s client)
      else pure s

  -- The part of runSelect for the clients: those in the set are served, closed and erased. A client that
  -- was accepted in this round is not in the set; from the number 1024 on FD_ISSET reads outside the
  -- set for it, which is undefined, and is taken as not set here.
  unfoldable pub serve_selected : Bytes → List ℕ → List ℕ → Io Disk (List ℕ)
  serve_selected storage_path fds [] = pure []
  serve_selected storage_path fds (fd ∷ clients) =
      let rest = serve_selected storage_path fds clients in
      if contains fd fds
      then (do serve fs storage_path fd; close fd; rest)
      else (do left ← rest; pure (fd ∷ left))

  -- A round of runSelect behind a select that reported descriptors.
  unfoldable pub select_round : Server → List ℕ → Io Disk Server
  unfolding accept_selected serve_selected
  select_round s fds = do
    s' ← accept_selected s fds
    left ← serve_selected s'.storage_path fds s'.client_sockets
    pure (record s' { client_sockets = left })

  -- The loop of runSelect.
  unfoldable pub select_loop : List (Wait (List ℕ)) → Server → Io Disk Progress
  select_loop [] s = pure (looping s)
  select_loop (interrupted ∷ waits) s = do set ← lift (select_set s); select_loop waits s
  select_loop (failed ∷ waits) s = do set ← lift (select_set s); pure (returned (negsuc 0) s)
  select_loop (ready report ∷ waits) s = do
    set ← lift (select_set s)
    s' ← select_round s (selected (max_fd (listener_of s) s.client_sockets + 1) report set)
    select_loop waits s'

  unfoldable pub run_select : List (Wait (List ℕ)) → Server → Io Disk Progress
  run_select waits s = do set_server_blocking s.server_socket false; select_loop waits s

  -- The listening socket in the pass of runPoll: the new client goes to the end of both vectors.
  unfoldable pub accept_polled : Server → List PollFd → Option ℕ → Io Disk (Server × List PollFd)
  accept_polled s rest none = pure (s, rest)
  accept_polled s rest (some fd) = pure (remember s fd, rest ++ push_poll fd ∷ [])

  -- The pass of runPoll over pollFds_, which is `seen ++ rest`, with i the length of `seen`. An entry
  -- for a client that is served is erased. The first number bounds the steps.
  unfoldable pub poll_pass : ℕ → Server → List PollFd → List PollFd → Io Disk (Server × List PollFd)
  poll_pass zero s seen rest = pure (s, seen ++ rest)
  poll_pass (suc steps) s seen [] = pure (s, seen)
  poll_pass (suc steps) s seen (p ∷ rest) =
      let onward = poll_pass steps in
      if not (has_event p.revents)
      then onward s (seen ++ p ∷ []) rest
      else if is_server s.server_socket p.fd
      then (do
        client ← open_descriptor
        state ← accept_polled s rest client
        onward state.0 (seen ++ p ∷ []) state.1)
      else (do serve fs s.storage_path p.fd; s' ← close_client p.fd s; onward s' seen rest)

  -- A pass pushes at most one entry for each that it starts from, and a pushed entry has no events.
  unfoldable pub poll_round : Server → (ℕ → Revents) → Io Disk Server
  unfolding poll_pass accept_polled push_poll polled has_event
  poll_round s report = do
    state ← poll_pass (2 * length s.poll_fds + 1) s [] (polled report s.poll_fds)
    pure (record state.0 { poll_fds = state.1 })

  unfoldable pub poll_loop : List (Wait (ℕ → Revents)) → Server → Io Disk Progress
  poll_loop [] s = pure (looping s)
  poll_loop (interrupted ∷ waits) s = poll_loop waits s
  poll_loop (failed ∷ waits) s = pure (returned (negsuc 0) s)
  poll_loop (ready report ∷ waits) s = do s' ← poll_round s report; poll_loop waits s'

  unfoldable pub run_poll : List (Wait (ℕ → Revents)) → Server → Io Disk Progress
  unfolding listener_entry
  run_poll waits s = do
    set_server_blocking s.server_socket false
    poll_loop waits (record s { poll_fds = listener_entry s.server_socket })

  unfoldable pub accept_watched : Server → Option ℕ → Io Disk Server
  accept_watched s none = pure s
  accept_watched s (some fd) = do added ← watch fd; pure (remember s fd)

  -- One event of runEpoll.
  unfoldable pub epoll_event : Server → ℕ → Io Disk Server
  unfolding accept_watched
  epoll_event s fd =
      if is_server s.server_socket fd
      then (do client ← open_descriptor; accept_watched s client)
      else (do serve fs s.storage_path fd; removed ← unwatch fd; close_client fd s)

  -- The events of one epoll_wait, in order.
  unfoldable pub epoll_round : Server → List ℕ → Io Disk Server
  epoll_round s [] = pure s
  epoll_round s (fd ∷ fds) = do s' ← epoll_event s fd; epoll_round s' fds

  unfoldable pub epoll_loop : ℕ → List (Wait (List ℕ)) → Server → Io Disk Progress
  epoll_loop epoll_fd [] s = pure (looping s)
  epoll_loop epoll_fd (interrupted ∷ waits) s = epoll_loop epoll_fd waits s
  epoll_loop epoll_fd (failed ∷ waits) s = do close epoll_fd; pure (returned (negsuc 0) s)
  epoll_loop epoll_fd (ready report ∷ waits) s = do
    s' ← epoll_round s report
    epoll_loop epoll_fd waits s'

  -- epoll_ctl fails on the descriptor -1.
  unfoldable pub watch_listener : Option ℕ → Io Disk Bool
  watch_listener none = pure false
  watch_listener (some listener) = watch listener

  unfoldable pub start_epoll : List (Wait (List ℕ)) → Server → Option ℕ → Io Disk Progress
  start_epoll waits s none = pure (returned (negsuc 0) s)
  start_epoll waits s (some epoll_fd) = do
    added ← watch_listener s.server_socket
    if added then epoll_loop epoll_fd waits s else (do close epoll_fd; pure (returned (negsuc 0) s))

  -- runEpoll, on Linux.
  unfoldable pub run_epoll : List (Wait (List ℕ)) → Server → Io Disk Progress
  unfolding start_epoll watch_listener
  run_epoll waits s = do
    set_server_blocking s.server_socket false
    epoll_fd ← open_descriptor
    start_epoll waits s epoll_fd
