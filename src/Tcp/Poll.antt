-- ===== src/Tcp/Poll.antt =====
-- server_poll of TCPServer.cpp.
pub mod Steps
pub mod Skips
pub mod Answers
use network_all_in_one.Prelude.{
  ℕ, zero, suc, ◌+◌, Bool, false, List, [], ◌∷◌, ◌++◌, Option, none, some, length, not,
  if◌then◌else◌,
}
use network_all_in_one.Text.{Bytes, negsuc, bad_buffer}
use network_all_in_one.Kernel.{
  Io, pure, throw, open_descriptor, close, recv, send, try_call, ◌>>=◌, ◌>>◌,
}
use network_all_in_one.Storage.Request.{buffer_size}
use network_all_in_one.Storage.Server.{set_server_blocking, is_server}
use network_all_in_one.Storage.Loops.{Wait, interrupted, failed, ready}
use network_all_in_one.Tcp.Echo.{TcpServer, Entry, Outcome, waiting, gave, NoData}

-- What poll writes into the entries: which of them have POLLIN.
unfoldable pub reported : (ℕ → Bool) → List Entry → List Entry
reported report [] = []
reported report (p ∷ ps) = record p { pollin = report p.fd } ∷ reported report ps

-- pollFds_[i].revents & POLLIN
unfoldable pub is_ready : Entry → Bool
is_ready p = p.pollin

-- The revents of a pushed entry is not written before it is tested in the same pass: its value is
-- the next of the script, whatever that is.
abbrev pub indeterminate : Io NoData Bool
indeterminate = try_call

-- Where a pass stands: it is through, or server_poll returns -1 from within it.
pub data Passed : Type 0 where
  through : TcpServer → Passed
  gave_up : TcpServer → Passed

-- The entry to push; `none`: accept failed.
unfoldable pub accepted_entry : Option ℕ → Io NoData (Option Entry)
accepted_entry none = pure none
accepted_entry (some new_socket) = do
  stale ← indeterminate
  pure (some (record { fd = new_socket; pollin = stale }))

abbrev pub go_on : TcpServer → (Entry → Io NoData Passed) → Option Entry → Io NoData Passed
go_on s next none = pure (gave_up s)
go_on s next (some new) = next new

-- What becomes of a client's entry: the rest of the entries to visit, and those that stay before
-- it. A closed client's entry is erased, and i++ then steps over the one that took its place. With a
-- failed read (-1), send reads outside the buffer, which is undefined.
unfoldable pub echo_entry :
    Entry → List Entry → List Entry → Option Bytes → Io NoData (List Entry × List Entry)
echo_entry p seen rest none = throw bad_buffer
echo_entry p seen rest (some []) =
    close p.fd >> elim rest [ [] ↦ pure (seen, []) | q ∷ qs ↦ pure (seen ++ q ∷ [], qs) ]
echo_entry p seen rest (some (b ∷ bs)) = do
  n ← send p.fd (b ∷ bs) (length (b ∷ bs))
  pure (seen ++ p ∷ [], rest)

-- The pass over pollFds_, which is `seen ++ rest`, with i the length of `seen`. The first number
-- bounds the steps.
unfoldable pub echo_pass : ℕ → TcpServer → List Entry → List Entry → Io NoData Passed
unfolding accepted_entry echo_entry
echo_pass zero s seen rest = pure (through (record s { poll_fds = seen ++ rest }))
echo_pass (suc steps) s seen [] = pure (through (record s { poll_fds = seen }))
echo_pass (suc steps) s seen (p ∷ rest) =
    let onward = echo_pass steps s in
    if not (is_ready p)
    then onward (seen ++ p ∷ []) rest
    else if is_server s.server_socket p.fd
    then (do
      client ← open_descriptor
      entry ← accepted_entry client
      go_on (record s { poll_fds = seen ++ p ∷ rest })
          (λ new. onward (seen ++ p ∷ []) (rest ++ new ∷ [])) entry)
    else (do
      got ← recv p.fd buffer_size
      state ← echo_entry p seen rest got
      onward state.0 state.1)

-- A round: each step takes an entry, and each entry that is added takes an answer of accept.
unfoldable pub echo_polled : TcpServer → (ℕ → Bool) → Io NoData Passed
unfolding echo_pass reported
echo_polled s report w =
    echo_pass (length s.poll_fds + length w.opens) s [] (reported report s.poll_fds) w

unfoldable pub poll_echo_loop : List (Wait (ℕ → Bool)) → TcpServer → Io NoData Outcome
unfolding echo_polled
poll_echo_loop [] s = pure (waiting s)
poll_echo_loop (interrupted ∷ waits) s = pure (gave (negsuc 0) s)
poll_echo_loop (failed ∷ waits) s = pure (gave (negsuc 0) s)
poll_echo_loop (ready report ∷ waits) s = do
  s' ← echo_polled s report
  elim s' [ gave_up last ↦ pure (gave (negsuc 0) last) | through next ↦ poll_echo_loop waits next ]

-- The first entry; poll ignores one for the descriptor -1, so none is kept.
unfoldable pub listening_entry : Option ℕ → List Entry
listening_entry none = []
listening_entry (some listener) = record { fd = listener; pollin = false } ∷ []

unfoldable pub server_poll : List (Wait (ℕ → Bool)) → TcpServer → Io NoData Outcome
unfolding poll_echo_loop listening_entry
server_poll waits s = do
  set_server_blocking s.server_socket false
  poll_echo_loop waits (record s { poll_fds = s.poll_fds ++ listening_entry s.server_socket })
