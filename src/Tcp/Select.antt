-- ===== src/Tcp/Select.antt =====
-- sever_select of TCPServer.cpp.
pub mod Unheard
pub mod Answers
use network_all_in_one.Prelude.{
  ℕ, ◌+◌, false, List, [], ◌∷◌, Option, none, some, contains, length, ltb, ◌==◌, if◌then◌else◌,
}
use network_all_in_one.Text.{Bytes, Result, throws, bad_fd_set, bad_buffer}
use network_all_in_one.Kernel.{Io, pure, lift, throw, open_descriptor, close, recv, ◌>>=◌, ◌>>◌}
use network_all_in_one.Storage.Request.{buffer_size}
use network_all_in_one.Storage.Server.{set_server_blocking}
use network_all_in_one.Storage.Loops.{Wait, interrupted, failed, ready, set_fds, max_fd, selected}
use network_all_in_one.Tcp.Echo.{TcpServer, Outcome, waiting, exited, NoData, server_send}

-- The set that a round builds: the listening socket and every slot, those that hold 0 too.
unfoldable pub echo_set : TcpServer → Result (List ℕ)
unfolding set_fds
echo_set s = elim s.server_socket [
  | none ↦ throws bad_fd_set
  | some listener ↦ set_fds (listener ∷ s.client_sockets)
]

abbrev pub listener_number : TcpServer → ℕ
listener_number s = elim s.server_socket [ none ↦ 0 | some fd ↦ fd ]

-- std::find(clientSockets_.begin(), clientSockets_.end(), new_socket), and the assignment to what
-- it finds.
unfoldable pub store_found : ℕ → List ℕ → List ℕ
store_found new [] = []
store_found new (fd ∷ fds) =
    let rest = store_found new fds in if fd == new then new ∷ fds else fd ∷ rest

-- A failed accept exits: `none`.
unfoldable pub store_accepted : TcpServer → Option ℕ → Option TcpServer
unfolding store_found
store_accepted s none = none
store_accepted s (some fd) = some (record s { client_sockets = store_found fd s.client_sockets })

unfoldable pub accept_ready : TcpServer → List ℕ → Io NoData (Option TcpServer)
unfolding store_accepted
accept_ready s set =
    if contains (listener_number s) set
    then (do client ← open_descriptor; pure (store_accepted s client))
    else pure (some s)

-- What a slot holds behind a read of its socket. `buffer_[valread] = '\0'` writes outside the buffer
-- where the read failed (-1) or filled it, which is undefined.
unfoldable pub echo : ℕ → Option Bytes → Io NoData ℕ
echo sd none = throw bad_buffer
echo sd (some []) = do close sd; pure 0
echo sd (some (b ∷ bs)) =
    if ltb (length (b ∷ bs)) buffer_size
    then (do n ← server_send sd (b ∷ bs) (length (b ∷ bs)); pure sd)
    else throw bad_buffer

-- The pass over clientSockets_, in place.
unfoldable pub echo_ready : List ℕ → List ℕ → Io NoData (List ℕ)
unfolding echo
echo_ready set [] = pure []
echo_ready set (sd ∷ sockets) =
    let rest = echo_ready set sockets in
    if contains sd set
    then (do got ← recv sd buffer_size; slot ← echo sd got; slots ← rest; pure (slot ∷ slots))
    else (do slots ← rest; pure (sd ∷ slots))

unfoldable pub echo_clients : List ℕ → Option TcpServer → Io NoData (Option TcpServer)
unfolding echo_ready
echo_clients set none = pure none
echo_clients set (some s) = do
  slots ← echo_ready set s.client_sockets
  pure (some (record s { client_sockets = slots }))

-- A round behind select, with what it left in the set.
unfoldable pub echo_round : TcpServer → List ℕ → Io NoData (Option TcpServer)
unfolding accept_ready echo_clients
echo_round s set = do s' ← accept_ready s set; echo_clients set s'

-- A select that fails leaves the set as it was, and the round goes on with all of it.
unfoldable pub select_answer : TcpServer → List ℕ → Wait (List ℕ) → List ℕ
select_answer s set interrupted = set
select_answer s set failed = set
select_answer s set (ready report) =
    selected (max_fd (listener_number s) s.client_sockets + 1) report set

-- The loop of sever_select.
unfoldable pub echo_loop : List (Wait (List ℕ)) → TcpServer → Io NoData Outcome
unfolding echo_set echo_round select_answer
echo_loop [] s = pure (waiting s)
echo_loop (wait ∷ waits) s = do
  set ← lift (echo_set s)
  s' ← echo_round s (select_answer s set wait)
  elim s' [ none ↦ pure exited | some next ↦ echo_loop waits next ]

unfoldable pub sever_select : List (Wait (List ℕ)) → TcpServer → Io NoData Outcome
unfolding echo_loop
sever_select waits s = do set_server_blocking s.server_socket false; echo_loop waits s
