-- ===== src/Async/Clients/Epoll/Leaves.antt =====
-- What the epoll client of Lecture 2 leaves open (epoll/TCPClient_epoll.cpp).
use network_all_in_one.Prelude.{
  ℕ, zero, suc, Bool, true, false, List, [], ◌∷◌, Option, none, some, ◌≡◌, refl, ap, if◌then◌else◌,
}
use network_all_in_one.Text.{Bytes, ℤ, pos, negsuc, ok, throws, Result}
use network_all_in_one.Kernel.{World, Io, pure, close, try_call, open_descriptor, next_count, ◌>>=◌}
use network_all_in_one.Kernel.Actions.{Keeps, Ledger, action_rules, try_call-Ledger, watch-Ledger}
use network_all_in_one.Kernel.Balance.{After, Ensures, Ensures-bind, Ensures-pure, Ensures-returns}
use network_all_in_one.Tcp.Echo.{NoData}
use network_all_in_one.Basic.Clients.{Exit, silent}
use network_all_in_one.Async.Clients.{Connection, connected, in_progress, refused}
use network_all_in_one.Async.Clients.Epoll.{
  Ready, set_flags_of, set_non_blocking, greet, read_event, handle_ready, handle_events, fail,
  check_reply, wait_twice, watch_socket, create_epoll, connect_epoll, epoll_client,
}

module _ {o c : List ℕ} (sockfd : ℕ) where
  greet-Ledger : Keeps (Ledger o c) (greet sockfd)
  unfolding greet
  greet-Ledger = search action_rules

  read_event-Ledger : (stack : Bytes) → Keeps (Ledger o c) (read_event sockfd stack)
  unfolding read_event
  read_event-Ledger stack = search action_rules

  handle_ready-Ledger : (e : Ready) → Keeps (Ledger o c) (handle_ready sockfd e)
  unfolding handle_ready
  handle_ready-Ledger e = search (action_rules, greet-Ledger, read_event-Ledger)

  handle_events-Ledger : (es : List Ready) → Keeps (Ledger o c) (handle_events sockfd es)
  unfolding handle_events
  handle_events-Ledger [] = search action_rules
  handle_events-Ledger (e ∷ es) =
      search (action_rules, handle_ready-Ledger e, handle_events-Ledger es)

  set_flags_of-Ledger : (r : Option ℕ) → Keeps (Ledger o c) (set_flags_of sockfd r)
  unfolding set_flags_of
  set_flags_of-Ledger none = search action_rules
  set_flags_of-Ledger (some flags) = search action_rules

  set_non_blocking-Ledger : Keeps (Ledger o c) (set_non_blocking sockfd)
  unfolding set_non_blocking
  set_non_blocking-Ledger = search (action_rules, set_flags_of-Ledger)

-- Behind a main that returns 0 two descriptors have been opened, the socket and then the epoll
-- instance, and the socket alone has been closed. Behind exit the kernel closes all.
abbrev pub OneOpen : List ℕ → List ℕ → ℤ → World NoData → Type 0
OneOpen o c (pos zero) w =
    (sockfd : ℕ) × (epoll_fd : ℕ) × Ledger (epoll_fd ∷ sockfd ∷ o) (sockfd ∷ c) w
OneOpen o c (pos (suc n)) w = Unit
OneOpen o c (negsuc n) w = Unit

kept_After :
    {A : Type 0} (o c : List ℕ) (r : Result A) (w : World NoData)
    → Ledger o c w
    → After (λ (a : A). Ledger o c) (r, w)
kept_After o c (ok a) w h = h
kept_After o c (throws e) w h = tt

module _ (o c : List ℕ) where
  -- The ledger behind a call that may open a descriptor.
  abbrev Opened : Option ℕ → World NoData → Type 0
  Opened none w = Ledger o c w
  Opened (some fd) w = Ledger (fd ∷ o) c w

  opening_step :
      (r : Option ℕ) (w : World NoData)
      → next_count w.opens ≡ r
      → Ledger o c w
      → After Opened (open_descriptor w)
  unfolding open_descriptor
  opening_step none w e h = rw (e, open_descriptor) h
  opening_step (some fd) w e h = rw (e, open_descriptor) (ap (◌∷◌ fd) h.0, h.1)

module _ {A : Type 0} {Q : A → World NoData → Type 0} (o c : List ℕ) where
  counted_then :
      {B : Type 0} (m : Io NoData B) (f : B → Io NoData A)
      → Keeps (Ledger o c) m
      → ((b : B) → Ensures (Ledger o c) Q (f b))
      → Ensures (Ledger o c) Q (m >>= f)
  counted_then m f q k =
      Ensures-bind (λ b. Ledger o c) m f
        (record { at = λ w h. kept_After o c (m w).0 (m w).1 (q.at w h) }) k

  opening_then :
      (f : Option ℕ → Io NoData A)
      → ((r : Option ℕ) → Ensures (Opened o c r) Q (f r))
      → Ensures (Ledger o c) Q (open_descriptor >>= f)
  opening_then f k =
      Ensures-bind (Opened o c) open_descriptor f
        (record { at = λ w h. opening_step o c (next_count w.opens) w refl h }) k

module _ (o c : List ℕ) where
  abbrev Left : Exit → World NoData → Type 0
  Left e w = OneOpen o c e.code w

  fail-Left :
      {P : World NoData → Type 0} (sockfd : ℕ) (printed : List Bytes)
      → Ensures P Left (fail sockfd printed)
  unfolding fail close pure ◌>>=◌
  fail-Left sockfd printed = record { at = λ w h. tt }

  -- The epoll instance stays open.
  close_socket-Left :
      (sockfd epoll_fd : ℕ) (printed : List Bytes)
      → Ensures
          (Ledger (epoll_fd ∷ sockfd ∷ o) c)
          Left
          (close sockfd >>= λ u. pure (record { code = pos 0; printed = printed }))
  unfolding close pure ◌>>=◌
  close_socket-Left sockfd epoll_fd printed = record {
    at = λ w h. (sockfd, epoll_fd, (h.0, ap (◌∷◌ sockfd) h.1));
  }

  check_reply-Left :
      (sockfd epoll_fd : ℕ) (printed : List Bytes) (second : Option (List Ready))
      → Ensures (Ledger (epoll_fd ∷ sockfd ∷ o) c) Left (check_reply sockfd printed second)
  unfolding check_reply
  check_reply-Left sockfd epoll_fd printed none = fail-Left sockfd printed
  check_reply-Left sockfd epoll_fd printed (some events) =
      counted_then (epoll_fd ∷ sockfd ∷ o) c _ _ (handle_events-Ledger sockfd events)
        (λ others. close_socket-Left sockfd epoll_fd _)

  module _ (first second : Option (List Ready)) where
    wait_twice-Left :
        (sockfd epoll_fd : ℕ)
        → Ensures (Ledger (epoll_fd ∷ sockfd ∷ o) c) Left (wait_twice first second sockfd)
    unfolding wait_twice
    wait_twice-Left sockfd epoll_fd =
        elim first
          as (λ k. Ensures (Ledger (epoll_fd ∷ sockfd ∷ o) c) Left (wait_twice k second sockfd)) [
            | none ↦ fail-Left sockfd []
            | some events ↦
                counted_then (epoll_fd ∷ sockfd ∷ o) c _ _ (handle_events-Ledger sockfd events)
                  (λ printed. check_reply-Left sockfd epoll_fd printed second)
          ]

    added-Left :
        (sockfd epoll_fd : ℕ) (added : Bool)
        → Ensures
            (Ledger (epoll_fd ∷ sockfd ∷ o) c)
            Left
            (if added then wait_twice first second sockfd else fail sockfd [])
    added-Left sockfd epoll_fd true = wait_twice-Left sockfd epoll_fd
    added-Left sockfd epoll_fd false = fail-Left sockfd []

    watch_socket-Left :
        (sockfd : ℕ) (r : Option ℕ)
        → Ensures (Opened (sockfd ∷ o) c r) Left (watch_socket first second sockfd r)
    unfolding watch_socket
    watch_socket-Left sockfd none = fail-Left sockfd []
    watch_socket-Left sockfd (some epoll_fd) =
        counted_then (epoll_fd ∷ sockfd ∷ o) c _ _ (watch-Ledger sockfd)
          (added-Left sockfd epoll_fd)

    create_epoll-Left :
        (sockfd : ℕ) (connection : Connection)
        → Ensures (Ledger (sockfd ∷ o) c) Left (create_epoll first second sockfd connection)
    unfolding create_epoll
    create_epoll-Left sockfd connected = opening_then (sockfd ∷ o) c _ (watch_socket-Left sockfd)
    create_epoll-Left sockfd in_progress = opening_then (sockfd ∷ o) c _ (watch_socket-Left sockfd)
    create_epoll-Left sockfd refused = fail-Left sockfd []

    module _ (connection : Connection) where
      switched-Left :
          (sockfd : ℕ) (fine : Bool)
          → Ensures
              (Ledger (sockfd ∷ o) c)
              Left
              (if fine then create_epoll first second sockfd connection else pure (silent (pos 1)))
      switched-Left sockfd true = create_epoll-Left sockfd connection
      switched-Left sockfd false = Ensures-pure _ (λ w h. tt)

      connect_epoll-Left :
          (sockfd : ℕ) (fine : Bool)
          → Ensures (Ledger (sockfd ∷ o) c) Left (connect_epoll first second connection sockfd fine)
      unfolding connect_epoll
      connect_epoll-Left sockfd false = fail-Left sockfd []
      connect_epoll-Left sockfd true =
          counted_then (sockfd ∷ o) c _ _ (set_non_blocking-Ledger sockfd) (switched-Left sockfd)

      socket-Left :
          (r : Option ℕ)
          → Ensures (Opened o c r) Left (elim r [
            | none ↦ pure (silent (pos 1))
            | some sockfd ↦ try_call >>= connect_epoll first second connection sockfd
          ])
      socket-Left none = Ensures-pure _ (λ w h. tt)
      socket-Left (some sockfd) =
          counted_then (sockfd ∷ o) c _ _ try_call-Ledger (connect_epoll-Left sockfd)

      -- The epoll client never closes its epoll instance: where main returns 0, it has opened two
      -- descriptors, first the socket and then the epoll instance, and has closed the socket and
      -- nothing else; for every answer of connect and of epoll_wait.
      pub epoll_client-OneOpen :
          (e : Exit) (w w' : World NoData)
          → Ledger o c w
          → epoll_client first second connection w ≡ (ok e, w')
          → OneOpen o c e.code w'
      unfolding epoll_client
      epoll_client-OneOpen e w w' h r =
          Ensures-returns {Q = Left} (epoll_client first second connection) w w' e
            (opening_then o c _ socket-Left) h r
