-- ===== src/Storage/Spec/Sessions/SelectTurns.antt =====
-- The loop of runSelect (FileStorageServer.cpp) against the specification: clients that connect, and
-- clients that are ready, report by report.
use network_all_in_one.Prelude.{
  ℕ, ◌≡◌, refl, sym, ap, subst, ◌∙◌, Bool, true, false, List, [], ◌∷◌, ◌++◌, append-nil, Option,
  none, some, contains,
}
use network_all_in_one.Text.{Bytes, ok}
use network_all_in_one.Kernel.{World, pure, open_descriptor, next_count, ◌>>=◌}
use network_all_in_one.Storage.Disk.{FileSystem, FileSystemLaws}
use network_all_in_one.Storage.Disk.Names.{FileNames}
use network_all_in_one.Storage.Server.{Server, ServerType, PollFd, remember}
use network_all_in_one.Storage.Loops.{
  accept_selected, remember_accepted, select_round, serve_selected,
}
use network_all_in_one.Storage.Spec.Sessions.{streams, AllDeliver, Session, starts_from}
use network_all_in_one.Storage.Spec.Sessions.Select.{
  Held, waits, asks, sockets, asking, waiting, Reports, serve_selected-Session,
}

-- A report of select: the descriptors that are ready; whether the listening socket is, and then what
-- accept returns; and the clients that the server holds.
pub record Turn : Type 0 where
  pub report : List ℕ
  pub connection : Option (Option ℕ)
  pub held : List Held

abbrev pub connects : Option (Option ℕ) → Bool
connects none = false
connects (some got) = true

abbrev pub arrival : Option (Option ℕ) → List (Option ℕ)
arrival none = []
arrival (some got) = got ∷ []

-- The client that accept has given, which waits.
abbrev pub newcomer : Option (Option ℕ) → List Held
newcomer none = []
newcomer (some none) = []
newcomer (some (some fd)) = waits fd ∷ []

sockets-append : (hs ks : List Held) → sockets (hs ++ ks) ≡ sockets hs ++ sockets ks
sockets-append [] ks = refl
sockets-append (waits fd ∷ hs) ks = ap (◌∷◌ fd) (sockets-append hs ks)
sockets-append (asks c ∷ hs) ks = ap (◌∷◌ c.fd) (sockets-append hs ks)

asking-append : (hs ks : List Held) → asking (hs ++ ks) ≡ asking hs ++ asking ks
asking-append [] ks = refl
asking-append (waits fd ∷ hs) ks = asking-append hs ks
asking-append (asks c ∷ hs) ks = ap (◌∷◌ c) (asking-append hs ks)

pub asking-newcomer :
    (hs : List Held) (k : Option (Option ℕ)) → asking (hs ++ newcomer k) ≡ asking hs
asking-newcomer hs none = asking-append hs [] ∙ append-nil (asking hs)
asking-newcomer hs (some none) = asking-append hs [] ∙ append-nil (asking hs)
asking-newcomer hs (some (some fd)) = asking-append hs (waits fd ∷ []) ∙ append-nil (asking hs)

pub Reports-append :
    (fds : List ℕ) (hs ks : List Held) → Reports fds hs → Reports fds ks → Reports fds (hs ++ ks)
Reports-append fds [] ks h k = k
Reports-append fds (waits fd ∷ hs) ks h k = (h.0, Reports-append fds hs ks h.1 k)
Reports-append fds (asks c ∷ hs) ks h k = (h.0, Reports-append fds hs ks h.1 k)

module _ (fs : FileSystem) (laws : FileSystemLaws fs) (names : FileNames fs)
    (flushed : (d : fs.Disk) (p : Bytes) → (fs.flush d p).1 ≡ true) (listener : ℕ)
    (type : ServerType) (path : Bytes) (entries : List PollFd) where
  -- A server that listens and holds these clients.
  abbrev pub serving : List ℕ → Server
  serving clients = record {
    server_socket = some listener;
    server_type = type;
    storage_path = path;
    client_sockets = clients;
    poll_fds = entries;
  }

  module _ (fds : List ℕ) (held : List Held) (more : List (Option Bytes))
      (os : List (Option ℕ)) where
    abbrev pub Served : List Held → World fs.Disk → Type 0
    Served new w =
        (v : World fs.Disk) × (select_round fs (serving (sockets held)) fds w
          ≡ (ok (serving (waiting (held ++ new))), v))
        × Session fs laws names flushed path (asking held) w v
        × (v.recvs ≡ more)
        × (v.opens ≡ os)

    -- The clients, the new one included, from a world behind accept.
    serve_turn :
        (connection : Option (Option ℕ)) (clients : List ℕ) (u : World fs.Disk)
        → sockets (held ++ newcomer connection) ≡ clients
        → Reports fds (held ++ newcomer connection)
        → AllDeliver (asking held)
        → u.recvs ≡ streams (asking held) ++ more
        → (v : World fs.Disk) × (serve_selected fs path fds clients u
            ≡ (ok (waiting (held ++ newcomer connection)), v))
          × Session fs laws names flushed path (asking held) u v
          × (v.recvs ≡ more)
          × (v.opens ≡ u.opens)
    serve_turn connection clients u k r d e =
        let same = asking-newcomer held connection in
        let (v, x, a, e1, o1) =
          serve_selected-Session fs laws names flushed path fds (held ++ newcomer connection) more u
            r (subst AllDeliver (sym same) d) (e ∙ ap (λ cs. streams cs ++ more) (sym same)) in
        (
          v,
          ap (λ cs. serve_selected fs path fds cs u) (sym k) ∙ x,
          subst (λ cs. Session fs laws names flushed path cs u v) same a,
          e1,
          o1,
        )

    pub turn_round :
        (connection : Option (Option ℕ)) (w : World fs.Disk)
        → contains listener fds ≡ connects connection
        → Reports fds (held ++ newcomer connection)
        → AllDeliver (asking held)
        → w.recvs ≡ streams (asking held) ++ more
        → w.opens ≡ arrival connection ++ os
        → Served (newcomer connection) w
    unfolding select_round accept_selected remember_accepted remember open_descriptor next_count
        pure ◌>>=◌
    turn_round none w l r d e o =
        let (v, x, a, e1, o1) =
          serve_turn none (sockets held) w (sockets-append held [] ∙ append-nil (sockets held)) r d
            e in
        (v, rw (l, x) refl, a, e1, o1 ∙ o)
    turn_round (some none) w l r d e o =
        let u : World fs.Disk = record w { opens = os } in
        let (v, x, a, e1, o1) =
          serve_turn (some none) (sockets held) u
            (sockets-append held [] ∙ append-nil (sockets held)) r d e in
        (v, rw (l, o, x) refl, starts_from fs laws names flushed path w u v refl refl a, e1, o1)
    turn_round (some (some fd)) w l r d e o =
        let u : World fs.Disk = record w { opens = os; opened = fd ∷ w.opened } in
        let (v, x, a, e1, o1) =
          serve_turn (some (some fd)) (sockets held ++ fd ∷ []) u
            (sockets-append held (waits fd ∷ [])) r d e in
        (v, rw (l, o, x) refl, starts_from fs laws names flushed path w u v refl refl a, e1, o1)
