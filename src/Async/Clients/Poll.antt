-- ===== src/Async/Clients/Poll.antt =====
-- The program poll/TCPClient_poll.cpp of Lecture 2.
pub mod Leaves
pub mod Prints
use network_all_in_one.Prelude.{
  ℕ, Bool, true, false, List, [], ◌∷◌, Option, none, some, length, if◌then◌else◌,
}
use network_all_in_one.Text.{Bytes, ℤ, pos, negsuc}
use network_all_in_one.Kernel.{
  Io, pure, lift, open_descriptor, try_call, close, recv, send, get_flags, ◌>>=◌, ◌>>◌,
}
use network_all_in_one.Storage.Request.{buffer_size}
use network_all_in_one.Storage.Server.{change_flags}
use network_all_in_one.Tcp.Echo.{NoData}
use network_all_in_one.Basic.Clients.{Exit, silent}
use network_all_in_one.Async.Clients.{
  hello_client, Connection, connected, in_progress, refused, show_reply,
}

-- What poll answers for the one socket: a failure, a timeout, or whether POLLOUT and POLLIN are set.
pub data PollAnswer : Type 0 where
  poll_failed timed_out : PollAnswer
  reported : Bool → Bool → PollAnswer

-- make_socket_non_blocking
unfoldable pub make_socket_non_blocking : ℕ → Io NoData ℤ
unfolding change_flags
make_socket_non_blocking fd = do flags ← get_flags fd; change_flags fd false flags

unfoldable pub read_reply : Bytes → ℕ → Io NoData (List Bytes)
unfolding show_reply
read_reply stack sock = do got ← recv sock buffer_size; lift (show_reply stack got)

module _ (stack : Bytes) (second : PollAnswer) where
  -- The wait for the response, and what is printed of it.
  unfoldable pub await_reply : ℕ → Io NoData (List Bytes)
  unfolding read_reply
  await_reply sock = elim second [
    | poll_failed ↦ pure []
    | timed_out ↦ pure []
    | reported writable readable ↦ if readable then read_reply stack sock else pure []
  ]

  -- Behind getsockopt, which succeeded; the error that it wrote is not looked at.
  unfoldable pub ask : ℕ → Io NoData Exit
  unfolding await_reply
  ask sock = do
    sent ← send sock hello_client (length hello_client)
    printed ← await_reply sock
    close sock
    pure (record { code = pos 0; printed = printed })

  unfoldable pub check_socket : ℕ → Io NoData Exit
  unfolding ask
  check_socket sock = do fine ← try_call; if fine then ask sock else pure (silent (negsuc 0))

  -- Behind the first poll.
  unfoldable pub after_poll : ℕ → PollAnswer → Io NoData Exit
  unfolding check_socket
  after_poll sock poll_failed = pure (silent (negsuc 0))
  after_poll sock timed_out = pure (silent (negsuc 0))
  after_poll sock (reported writable readable) =
      if writable then check_socket sock else pure (silent (negsuc 0))

  unfoldable pub after_connect : ℕ → PollAnswer → Connection → Io NoData Exit
  unfolding after_poll
  after_connect sock first connected = after_poll sock first
  after_connect sock first in_progress = after_poll sock first
  after_connect sock first refused = pure (silent (negsuc 0))

  -- main, for what connect answers and the two calls of poll.
  unfoldable pub poll_client : Connection → PollAnswer → Io NoData Exit
  unfolding make_socket_non_blocking after_connect
  poll_client connection first = do
    socket ← open_descriptor
    elim socket [
      | none ↦ pure (silent (negsuc 0))
      | some sock ↦ (do status ← make_socket_non_blocking sock; after_connect sock first connection)
    ]
