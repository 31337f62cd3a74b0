-- ===== src/Async/Clients/Poll/Leaves.antt =====
-- What the poll client of Lecture 2 leaves open (poll/TCPClient_poll.cpp).
use network_all_in_one.Prelude.{
  ℕ, Bool, true, false, List, [], ◌∷◌, Option, none, some, length, ◌≡◌, refl, if◌then◌else◌,
}
use network_all_in_one.Text.{Bytes, negsuc, ok}
use network_all_in_one.Kernel.{World, pure, next_count, ◌>>=◌}
use network_all_in_one.Kernel.Actions.{Keeps, Ledger, action_rules, send-Ledger, try_call-Ledger}
use network_all_in_one.Kernel.Balance.{
  Even, EvenWith, Ensures, Ensures-pure, Ensures-returns, IsQuiet, quiet_then, close_then,
  open_known,
}
use network_all_in_one.Storage.Server.{set_socket_blocking, set_server_blocking}
use network_all_in_one.Storage.Server.Quiet.{set_server_blocking-IsQuiet}
use network_all_in_one.Tcp.Echo.{NoData}
use network_all_in_one.Basic.Clients.{Exit, silent}
use network_all_in_one.Basic.Clients.Leaves.{OpenOnFailure}
use network_all_in_one.Async.Clients.{hello_client, Connection, connected, in_progress, refused}
use network_all_in_one.Async.Clients.Poll.{
  PollAnswer, poll_failed, timed_out, reported, make_socket_non_blocking, read_reply, await_reply,
  ask, check_socket, after_poll, after_connect, poll_client,
}

make_socket_non_blocking-IsQuiet : (fd : ℕ) → IsQuiet (make_socket_non_blocking fd)
unfolding make_socket_non_blocking set_server_blocking set_socket_blocking
make_socket_non_blocking-IsQuiet fd = set_server_blocking-IsQuiet (some fd) false

module _ (stack : Bytes) {o c : List ℕ} where
  read_reply-Ledger : (sock : ℕ) → Keeps (Ledger o c) (read_reply stack sock)
  unfolding read_reply
  read_reply-Ledger sock = search action_rules

  await_reply-Ledger :
      (second : PollAnswer) (sock : ℕ) → Keeps (Ledger o c) (await_reply stack second sock)
  unfolding await_reply
  await_reply-Ledger poll_failed sock = search action_rules
  await_reply-Ledger timed_out sock = search action_rules
  await_reply-Ledger (reported writable readable) sock = search (action_rules, read_reply-Ledger)

module _ (stack : Bytes) (second : PollAnswer) (kept : List ℕ) where
  abbrev Left : Option ℕ → Exit → World NoData → Type 0
  Left opened e w = OpenOnFailure kept opened e.code w

  given_up :
      (sock : ℕ) → Ensures (Even (sock ∷ []) kept) (Left (some sock)) (pure (silent (negsuc 0)))
  given_up sock = Ensures-pure _ (λ w h. h)

  ask-Left : (sock : ℕ) → Ensures (Even (sock ∷ []) kept) (Left (some sock)) (ask stack second sock)
  unfolding ask
  ask-Left sock =
      quiet_then (sock ∷ []) kept _ _ (λ o c. send-Ledger sock hello_client (length hello_client))
        (λ n.
          quiet_then (sock ∷ []) kept _ _ (λ o c. await_reply-Ledger stack second sock)
            (λ printed. close_then [] kept sock _ (λ u. Ensures-pure _ (λ w h. h))))

  checked-Left :
      (sock : ℕ) (fine : Bool)
      → Ensures
          (Even (sock ∷ []) kept)
          (Left (some sock))
          (if fine then ask stack second sock else pure (silent (negsuc 0)))
  checked-Left sock true = ask-Left sock
  checked-Left sock false = given_up sock

  after_poll-Left :
      (sock : ℕ) (first : PollAnswer)
      → Ensures (Even (sock ∷ []) kept) (Left (some sock)) (after_poll stack second sock first)
  unfolding after_poll check_socket
  after_poll-Left sock poll_failed = given_up sock
  after_poll-Left sock timed_out = given_up sock
  after_poll-Left sock (reported true readable) =
      quiet_then (sock ∷ []) kept _ _ (λ o c. try_call-Ledger) (checked-Left sock)
  after_poll-Left sock (reported false readable) = given_up sock

  module _ (connection : Connection) (first : PollAnswer) where
    after_connect-Left :
        (sock : ℕ)
        → Ensures
            (Even (sock ∷ []) kept)
            (Left (some sock))
            (after_connect stack second sock first connection)
    unfolding after_connect
    after_connect-Left sock =
        elim connection
          as (λ k.
            Ensures (Even (sock ∷ []) kept) (Left (some sock))
              (after_connect stack second sock first k)) [
                | connected ↦ after_poll-Left sock first
                | in_progress ↦ after_poll-Left sock first
                | refused ↦ given_up sock
              ]

    socket-Left :
        (r : Option ℕ)
        → Ensures (EvenWith [] kept r) (Left r) (elim r [
          | none ↦ pure (silent (negsuc 0))
          | some sock ↦ (do
            status ← make_socket_non_blocking sock
            after_connect stack second sock first connection)
        ])
    socket-Left none = Ensures-pure _ (λ w h. h)
    socket-Left (some sock) =
        quiet_then (sock ∷ []) kept _ _ (make_socket_non_blocking-IsQuiet sock)
          (λ status. after_connect-Left sock)

    -- The poll client, for every answer of connect and of poll: where main returns 0, each descriptor
    -- that was opened is closed or in `kept` (those of a caller), and where it returns -1 (a failure or
    -- a timeout), the socket is open too, if there is one; if all was closed or kept before.
    pub poll_client-OpenOnFailure :
        (e : Exit) (w w' : World NoData)
        → Even [] kept w
        → poll_client stack second connection first w ≡ (ok e, w')
        → OpenOnFailure kept (next_count w.opens) e.code w'
    unfolding poll_client
    poll_client-OpenOnFailure e w w' h r =
        Ensures-returns {Q = Left (next_count w.opens)} (poll_client stack second connection first)
          w w' e (open_known [] kept (next_count w.opens) _ (socket-Left (next_count w.opens)))
          (h, refl) r
