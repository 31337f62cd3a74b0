-- ===== src/Storage/Spec/Sessions/Select.antt =====
-- A round of runSelect (FileStorageServer.cpp) against the specification: the clients that are ready.
use network_all_in_one.Prelude.{
  ℕ, true, false, ◌≡◌, refl, ◌∙◌, List, [], ◌∷◌, ◌++◌, Option, contains, append_assoc, erase,
}
use network_all_in_one.Text.{Bytes, ok}
use network_all_in_one.Kernel.{World, pure, close, ◌>>=◌}
use network_all_in_one.Storage.Disk.{FileSystem, FileSystemLaws}
use network_all_in_one.Storage.Disk.Names.{FileNames}
use network_all_in_one.Storage.Server.{Server}
use network_all_in_one.Storage.Loops.{serve_selected, accept_selected, select_round, listener_of}
use network_all_in_one.Storage.Spec.Sessions.{
  Client, streams, AllDeliver, Session, over, next, answer_stands, serve_client,
}

-- A client that the server holds: it waits, or is ready with a command.
pub data Held : Type 0 where
  waits : ℕ → Held
  asks : Client → Held

abbrev pub socket_of : Held → ℕ
socket_of (waits fd) = fd
socket_of (asks c) = c.fd

abbrev pub sockets : List Held → List ℕ
sockets [] = []
sockets (h ∷ hs) = socket_of h ∷ sockets hs

abbrev pub asking : List Held → List Client
asking [] = []
asking (waits fd ∷ hs) = asking hs
asking (asks c ∷ hs) = c ∷ asking hs

abbrev pub waiting : List Held → List ℕ
waiting [] = []
waiting (waits fd ∷ hs) = fd ∷ waiting hs
waiting (asks c ∷ hs) = waiting hs

-- The report names the clients that are ready, and not those that wait.
abbrev pub Reports : List ℕ → List Held → Type 0
Reports fds [] = Unit
Reports fds (waits fd ∷ hs) = (contains fd fds ≡ false) × Reports fds hs
Reports fds (asks c ∷ hs) = (contains c.fd fds ≡ true) × Reports fds hs

module _ (fs : FileSystem) (laws : FileSystemLaws fs) (names : FileNames fs)
    (flushed : (d : fs.Disk) (p : Bytes) → (fs.flush d p).1 ≡ true) where
  pub serve_selected-Session :
      (storage_path : Bytes) (fds : List ℕ) (held : List Held) (more : List (Option Bytes))
      (w : World fs.Disk)
      → Reports fds held
      → AllDeliver (asking held)
      → w.recvs ≡ streams (asking held) ++ more
      → (v : World fs.Disk) × (serve_selected fs storage_path fds (sockets held) w
          ≡ (ok (waiting held), v))
        × Session fs laws names flushed storage_path (asking held) w v
        × (v.recvs ≡ more)
        × (v.opens ≡ w.opens)
  unfolding serve_selected pure close ◌>>=◌
  serve_selected-Session storage_path fds [] more w r d e = (w, refl, over refl refl, e, refl)
  serve_selected-Session storage_path fds (waits fd ∷ hs) more w r d e =
      let (v, x, a, e1, o1) = serve_selected-Session storage_path fds hs more w r.1 d e in
      (v, rw (r.0, x) refl, a, e1, o1)
  serve_selected-Session storage_path fds (asks c ∷ hs) more w r d e =
      let (v, x, a, e1, o1) =
        serve_client fs laws names flushed storage_path c (streams (asking hs) ++ more) w d.0
          (e ∙ append_assoc c.stream (streams (asking hs)) more) in
      let closed_world : World fs.Disk = record v {
        closed = c.fd ∷ v.closed;
        watched = erase c.fd v.watched;
      } in
      let (u, y, b, e2, o2) =
        serve_selected-Session storage_path fds hs more closed_world r.1 d.1 e1 in
      (
        u,
        rw (r.0, x) y,
        next (answer_stands fs laws names flushed storage_path c w v closed_world refl refl a) b,
        e2,
        o2 ∙ o1,
      )

  -- A round of runSelect in which no client connects: where the clients that are reported are each
  -- ready with a whole command of the protocol, in the order of clientSockets_, and no flush of a file
  -- fails, the round returns, with each of them answered by a reply that the specification allows over
  -- the files that the one before it left; the server then holds the clients that were not reported, in
  -- their order.
  pub select_round-Session :
      (s : Server) (fds : List ℕ) (held : List Held) (more : List (Option Bytes))
      (w : World fs.Disk)
      → contains (listener_of s) fds ≡ false
      → s.client_sockets ≡ sockets held
      → Reports fds held
      → AllDeliver (asking held)
      → w.recvs ≡ streams (asking held) ++ more
      → (v : World fs.Disk) × (select_round fs s fds w
          ≡ (ok (record s { client_sockets = waiting held }), v))
        × Session fs laws names flushed s.storage_path (asking held) w v
        × (v.recvs ≡ more)
  unfolding select_round accept_selected pure ◌>>=◌
  select_round-Session s fds held more w l h r d e =
      let (v, x, a, e1, o1) = serve_selected-Session s.storage_path fds held more w r d e in
      (v, rw (l, h, x) refl, a, e1)
