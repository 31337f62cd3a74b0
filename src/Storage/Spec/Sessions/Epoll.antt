-- ===== src/Storage/Spec/Sessions/Epoll.antt =====
-- The events of runEpoll (FileStorageServer.cpp) against the specification: clients that connect, and
-- clients that are ready.
use network_all_in_one.Prelude.{
  ℕ, true, false, ◌≡◌, refl, ◌∙◌, List, [], ◌∷◌, ◌++◌, Option, none, some, append_assoc, erase,
  ◌==◌, ==_refl, if◌then◌else◌,
}
use network_all_in_one.Text.{Bytes, ok}
use network_all_in_one.Kernel.{
  World, pure, close, open_descriptor, watch, unwatch, next_count, next_status, rest_of, ◌>>=◌,
}
use network_all_in_one.Storage.Disk.{FileSystem, FileSystemLaws}
use network_all_in_one.Storage.Disk.Names.{FileNames}
use network_all_in_one.Storage.Server.{Server, ServerType, PollFd, remember, close_client}
use network_all_in_one.Storage.Loops.{accept_watched, epoll_event, epoll_round}
use network_all_in_one.Storage.Spec.Sessions.{
  Client, streams, AllDeliver, Session, over, next, answer_stands, starts_from, serve_client,
}

-- An event: a connection, with what accept returns for it, or a client that is ready with a command.
pub data Event : Type 0 where
  connects : Option ℕ → Event
  asks : Client → Event

-- The descriptors of the events, what accept returns, and the clients that are ready, in order.
abbrev pub numbers : ℕ → List Event → List ℕ
numbers listener [] = []
numbers listener (connects got ∷ es) = listener ∷ numbers listener es
numbers listener (asks c ∷ es) = c.fd ∷ numbers listener es

abbrev pub arrivals : List Event → List (Option ℕ)
arrivals [] = []
arrivals (connects got ∷ es) = got ∷ arrivals es
arrivals (asks c ∷ es) = arrivals es

abbrev pub asking : List Event → List Client
asking [] = []
asking (connects got ∷ es) = asking es
asking (asks c ∷ es) = c ∷ asking es

-- The list of clients behind the events.
abbrev pub clients_after : List Event → List ℕ → List ℕ
clients_after [] clients = clients
clients_after (connects none ∷ es) clients = clients_after es clients
clients_after (connects (some fd) ∷ es) clients = clients_after es (clients ++ fd ∷ [])
clients_after (asks c ∷ es) clients = clients_after es (erase c.fd clients)

-- No client has the number of the listening socket.
abbrev pub NotListener : ℕ → List Event → Type 0
NotListener listener [] = Unit
NotListener listener (connects got ∷ es) = NotListener listener es
NotListener listener (asks c ∷ es) = ((c.fd == listener) ≡ false) × NotListener listener es

module _ (fs : FileSystem) (laws : FileSystemLaws fs) (names : FileNames fs)
    (flushed : (d : fs.Disk) (p : Bytes) → (fs.flush d p).1 ≡ true) (listener : ℕ)
    (type : ServerType) (path : Bytes) (entries : List PollFd) where
  -- A server that listens and holds these clients.
  abbrev pub holding : List ℕ → Server
  holding clients = record {
    server_socket = some listener;
    server_type = type;
    storage_path = path;
    client_sockets = clients;
    poll_fds = entries;
  }

  -- What the events make of the clients.
  abbrev pub Outcome :
      List Event → List ℕ → List (Option Bytes) → List (Option ℕ) → World fs.Disk → Type 0
  Outcome events clients more os w =
      (v : World fs.Disk) × (epoll_round fs (holding clients) (numbers listener events) w
        ≡ (ok (holding (clients_after events clients)), v))
      × Session fs laws names flushed path (asking events) w v
      × (v.recvs ≡ more)
      × (v.opens ≡ os)

  -- The events of one report of runEpoll, in their order: where each client that is reported is ready
  -- with a whole command of the protocol and no flush of a file fails, the round returns, with each of
  -- them answered by a reply that the specification allows over the files that the one before it left;
  -- the server then holds the clients that it held and those that have connected, without those that
  -- were answered.
  pub epoll_round-Session :
      (events : List Event) (clients : List ℕ) (more : List (Option Bytes)) (os : List (Option ℕ))
      (w : World fs.Disk)
      → NotListener listener events
      → AllDeliver (asking events)
      → w.recvs ≡ streams (asking events) ++ more
      → w.opens ≡ arrivals events ++ os
      → Outcome events clients more os w
  unfolding epoll_round epoll_event accept_watched close_client remember open_descriptor watch
      unwatch close pure next_count ◌>>=◌
  epoll_round-Session [] clients more os w n d e o = (w, refl, over refl refl, e, o)
  epoll_round-Session (connects none ∷ es) clients more os w n d e o =
      let u : World fs.Disk = record w { opens = arrivals es ++ os } in
      let (v, x, a, e1, o1) = epoll_round-Session es clients more os u n d e refl in
      (
        v,
        rw (==_refl listener, o) x,
        starts_from fs laws names flushed path w u v refl refl a,
        e1,
        o1,
      )
  epoll_round-Session (connects (some fd) ∷ es) clients more os w n d e o =
      let fine = next_status w.statuses in
      let u : World fs.Disk = record w {
        opens = arrivals es ++ os;
        opened = fd ∷ w.opened;
        statuses = rest_of w.statuses;
        watched = (if fine then fd ∷ w.watched else w.watched);
      } in
      let (v, x, a, e1, o1) = epoll_round-Session es (clients ++ fd ∷ []) more os u n d e refl in
      (
        v,
        rw (==_refl listener, o) x,
        starts_from fs laws names flushed path w u v refl refl a,
        e1,
        o1,
      )
  epoll_round-Session (asks c ∷ es) clients more os w n d e o =
      let (v, x, a, e1, o1) =
        serve_client fs laws names flushed path c (streams (asking es) ++ more) w d.0
          (e ∙ append_assoc c.stream (streams (asking es)) more) in
      let fine = next_status v.statuses in
      let u : World fs.Disk = record v {
        statuses = rest_of v.statuses;
        watched = erase c.fd (if fine then erase c.fd v.watched else v.watched);
        closed = c.fd ∷ v.closed;
      } in
      let (t, y, b, e2, o2) =
        epoll_round-Session es (erase c.fd clients) more os u n.1 d.1 e1 (o1 ∙ o) in
      (
        t,
        rw (n.0, x) y,
        next (answer_stands fs laws names flushed path c w v u refl refl a) b,
        e2,
        o2,
      )
