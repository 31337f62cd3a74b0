-- ===== src/Storage/Loops/Epoll.antt =====
-- The events of runEpoll (FileStorageServer.cpp) leak no descriptor.
pub mod Run
use network_all_in_one.Prelude.{
  ℕ, ◌≤◌, ◌≡◌, sym, subst, true, false, List, [], ◌∷◌, Option, none, some, arith, count,
  count-append, contains, erase, count-erase,
}
use network_all_in_one.Text.{ok}
use network_all_in_one.Kernel.{World}
use network_all_in_one.Kernel.Actions.{watch-Ledger, unwatch-Ledger}
use network_all_in_one.Kernel.Balance.{
  Ensures-returns, Ensures-given, Ensures-to, Even, EvenWith, Ensures, Ensures-bind, Ensures-pure,
  Ensures-if, quiet-Even, open-Even,
}
use network_all_in_one.Storage.Disk.{FileSystem}
use network_all_in_one.Storage.Server.{Server, close_client, remember, is_server}
use network_all_in_one.Storage.Server.Quiet.{serve-IsQuiet}
use network_all_in_one.Storage.Loops.Ledger.{aside, Balanced, pushed-Even}
use network_all_in_one.Storage.Loops.{accept_watched, epoll_event, epoll_round}
use network_all_in_one.Storage.Loops.Poll.{close_client-Even, contains-count}

-- What epoll_wait reports: the listening socket, and clients, each at most once.
abbrev pub Reported : Server → List ℕ → Type 0
Reported s fds =
    (fd : ℕ) → is_server s.server_socket fd ≡ false → count fd fds ≤ count fd s.client_sockets

module _ (s : Server) (fd : ℕ) (fds : List ℕ) (h : Reported s (fd ∷ fds)) where
  reported_held : is_server s.server_socket fd ≡ false → contains fd s.client_sockets ≡ true
  reported_held e = contains-count fd s.client_sockets (ground (arith, h fd e))

  Reported-erase :
      is_server s.server_socket fd ≡ false
      → Reported (record s { client_sockets = erase fd s.client_sockets }) fds
  Reported-erase e x n = ground (arith, h x n, count-erase x fd s.client_sockets (reported_held e))

  Reported-tail : Reported s fds
  Reported-tail x n = ground (arith, h x n)

  Reported-remember : (new : ℕ) → Reported (remember s new) fds
  unfolding remember
  Reported-remember new x n = ground (arith, h x n, count-append x s.client_sockets (new ∷ []))

module _ (fs : FileSystem) (kept : List ℕ) where
  abbrev Going : List ℕ → Server → World fs.Disk → Type 0
  Going fds s w = Balanced kept s w × Reported s fds

  accept_watched-Going :
      (s : Server) (fd : ℕ) (fds : List ℕ)
      → Reported s (fd ∷ fds)
      → (r : Option ℕ)
      → Ensures {D = fs.Disk}
          (EvenWith s.client_sockets (aside kept s) r)
          (Going fds)
          (accept_watched fs s r)
  unfolding accept_watched
  accept_watched-Going s fd fds h none = Ensures-pure s (λ w e. (e, Reported-tail s fd fds h))
  accept_watched-Going s fd fds h (some new) =
      Ensures-bind (λ _. Even (new ∷ s.client_sockets) (aside kept s)) _ _
        (quiet-Even (new ∷ s.client_sockets) (aside kept s) _ (λ o c. watch-Ledger new))
        (λ added. Ensures-pure _ (λ w e. (
          unfold remember in pushed-Even new s.client_sockets (aside kept s) w e,
          Reported-remember s fd fds h new,
        )))

  Reported-closes :
      (s : Server) (fd : ℕ) (fds : List ℕ)
      → Reported s (fd ∷ fds)
      → is_server s.server_socket fd ≡ false
      → Ensures {D = fs.Disk} (Balanced kept s) (Going fds) (close_client fd s)
  Reported-closes s fd fds h e =
      Ensures-to _ (close_client-Even fd s kept (reported_held s fd fds h e))
        (λ s' w k. (k.0, subst (λ t. Reported t fds) (sym k.1) (Reported-erase s fd fds h e)))

  epoll_event-Going :
      (s : Server) (fd : ℕ) (fds : List ℕ)
      → Reported s (fd ∷ fds)
      → Ensures {D = fs.Disk} (Balanced kept s) (Going fds) (epoll_event fs s fd)
  unfolding epoll_event
  epoll_event-Going s fd fds h =
      Ensures-if (is_server s.server_socket fd) _ _
        (λ listener.
          Ensures-bind (EvenWith s.client_sockets (aside kept s)) _ _
            (open-Even s.client_sockets (aside kept s)) (accept_watched-Going s fd fds h))
        (λ client.
          Ensures-bind (λ _. Balanced kept s) _ _
            (quiet-Even s.client_sockets (aside kept s) _ (serve-IsQuiet fs s.storage_path fd))
            (λ _.
              Ensures-bind (λ _. Balanced kept s) _ _
                (quiet-Even s.client_sockets (aside kept s) _ (λ o c. unwatch-Ledger fd))
                (λ _. Reported-closes s fd fds h client)))

  pub epoll_round-Ensures :
      (fds : List ℕ) (s : Server)
      → Reported s fds
      → Ensures {D = fs.Disk} (Balanced kept s) (Balanced kept) (epoll_round fs s fds)
  unfolding epoll_round
  epoll_round-Ensures [] s h = Ensures-pure s (λ w e. e)
  epoll_round-Ensures (fd ∷ fds) s h =
      Ensures-bind (Going fds) _ _ (epoll_event-Going s fd fds h)
        (λ s'. Ensures-given _ (λ k. epoll_round-Ensures fds s' k))

  -- The events of one report of runEpoll, where the report names clients of the server, each at most
  -- once, and the listening socket: behind them each descriptor that was opened is closed, in the
  -- client list or aside (the listening socket, and those of a caller), each as often as it was
  -- opened, if that was so before.
  pub epoll_round-Balanced :
      (fds : List ℕ) (s s' : Server) (w w' : World fs.Disk)
      → Reported s fds
      → Balanced kept s w
      → epoll_round fs s fds w ≡ (ok s', w')
      → Balanced kept s' w'
  epoll_round-Balanced fds s s' w w' r h e =
      Ensures-returns (epoll_round fs s fds) w w' s' (epoll_round-Ensures fds s r) h e
