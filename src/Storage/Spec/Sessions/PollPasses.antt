-- ===== src/Storage/Spec/Sessions/PollPasses.antt =====
-- The pass of runPoll (FileStorageServer.cpp) against the specification: over the entries of clients.
use network_all_in_one.Prelude.{
  ℕ, zero, suc, ◌≤◌, ◌≡◌, refl, ap, ◌∙◌, true, false, List, [], ◌∷◌, ◌++◌, append-nil, append_assoc,
  Option, some, arith, length, erase, ◌==◌, if◌then◌else◌,
}
use network_all_in_one.Text.{Bytes, ok}
use network_all_in_one.Kernel.{World, pure, close, ◌>>=◌}
use network_all_in_one.Storage.Disk.{FileSystem, FileSystemLaws}
use network_all_in_one.Storage.Disk.Names.{FileNames}
use network_all_in_one.Storage.Server.{Server, ServerType, PollFd, close_client}
use network_all_in_one.Storage.Loops.{has_event, poll_pass}
use network_all_in_one.Storage.Loops.Poll.{descriptors}
use network_all_in_one.Storage.Spec.Sessions.{
  streams, AllDeliver, Session, over, next, answer_stands, serve_client,
}
use network_all_in_one.Storage.Spec.Sessions.Select.{Held, waits, asks, asking, waiting}

-- The entry is of a client that waits and has no events, or of one that asks and has some.
abbrev pub Mark : ℕ → PollFd → Held → Type 0
Mark listener p (waits fd) = (p.fd ≡ fd) × (has_event p.revents ≡ false)
Mark listener p (asks c) =
    (p.fd ≡ c.fd) × (has_event p.revents ≡ true) × ((c.fd == listener) ≡ false)

abbrev pub Marks : ℕ → List PollFd → List Held → Type 0
Marks listener [] [] = Unit
Marks listener [] (h ∷ hs) = true ≡ false
Marks listener (p ∷ ps) [] = true ≡ false
Marks listener (p ∷ ps) (h ∷ hs) = Mark listener p h × Marks listener ps hs

-- The entries without events, and the client list without those that ask.
abbrev pub unserved : List PollFd → List PollFd
unserved [] = []
unserved (p ∷ ps) = let rest = unserved ps in if has_event p.revents then rest else p ∷ rest

abbrev pub without_asking : List Held → List ℕ → List ℕ
without_asking [] clients = clients
without_asking (waits fd ∷ hs) clients = without_asking hs clients
without_asking (asks c ∷ hs) clients = without_asking hs (erase c.fd clients)

pub descriptors-unserved :
    (listener : ℕ) (ps : List PollFd) (hs : List Held)
    → Marks listener ps hs
    → descriptors (unserved ps) ≡ waiting hs
descriptors-unserved listener [] [] m = refl
descriptors-unserved listener [] (h ∷ hs) m = cc
descriptors-unserved listener (p ∷ ps) [] m = cc
descriptors-unserved listener (p ∷ ps) (waits fd ∷ hs) ((k, e), m) =
    rw (e, k) (ap (◌∷◌ fd) (descriptors-unserved listener ps hs m))
descriptors-unserved listener (p ∷ ps) (asks c ∷ hs) ((k, e, l), m) =
    rw e (descriptors-unserved listener ps hs m)

module _ (fs : FileSystem) (laws : FileSystemLaws fs) (names : FileNames fs)
    (flushed : (d : fs.Disk) (p : Bytes) → (fs.flush d p).1 ≡ true) (listener : ℕ)
    (type : ServerType) (path : Bytes) (entries : List PollFd) where
  -- A server in the pass, with this client list.
  abbrev pub passing : List ℕ → Server
  passing clients = record {
    server_socket = some listener;
    server_type = type;
    storage_path = path;
    client_sockets = clients;
    poll_fds = entries;
  }

  pub poll_pass-Session :
      (ps : List PollFd) (hs : List Held) (steps : ℕ) (seen : List PollFd) (clients : List ℕ)
      (more : List (Option Bytes)) (w : World fs.Disk)
      → Marks listener ps hs
      → length ps ≤ steps
      → AllDeliver (asking hs)
      → w.recvs ≡ streams (asking hs) ++ more
      → (v : World fs.Disk) × (poll_pass fs steps (passing clients) seen ps w
          ≡ (ok (passing (without_asking hs clients), seen ++ unserved ps), v))
        × Session fs laws names flushed path (asking hs) w v
        × (v.recvs ≡ more)
        × (v.opens ≡ w.opens)
  unfolding poll_pass close_client close pure ◌>>=◌
  poll_pass-Session [] [] zero seen clients more w m k d e = (w, refl, over refl refl, e, refl)
  poll_pass-Session [] [] (suc steps) seen clients more w m k d e =
      (w, rw (append-nil seen) refl, over refl refl, e, refl)
  poll_pass-Session [] (h ∷ hs) steps seen clients more w m k d e = cc
  poll_pass-Session (p ∷ ps) [] steps seen clients more w m k d e = cc
  poll_pass-Session (p ∷ ps) (h ∷ hs) zero seen clients more w m k d e = absurd (omega (arith, k))
  poll_pass-Session (p ∷ ps) (waits fd ∷ hs) (suc steps) seen clients more w ((i, j), m) k d e =
      let (v, x, a, e1, o1) =
        poll_pass-Session ps hs steps (seen ++ p ∷ []) clients more w m (omega (arith, k)) d e in
      (
        v,
        rw j (
            x
            ∙ ap (λ rest. (ok (passing (without_asking hs clients), rest), v))
                (append_assoc seen (p ∷ []) (unserved ps))),
        a,
        e1,
        o1,
      )
  poll_pass-Session (p ∷ ps) (asks c ∷ hs) (suc steps) seen clients more w ((i, j, l), m) k d e =
      let (v, x, a, e1, o1) =
        serve_client fs laws names flushed path c (streams (asking hs) ++ more) w d.0
          (e ∙ append_assoc c.stream (streams (asking hs)) more) in
      let u : World fs.Disk = record v {
        closed = c.fd ∷ v.closed;
        watched = erase c.fd v.watched;
      } in
      let (t, y, b, e2, o2) =
        poll_pass-Session ps hs steps seen (erase c.fd clients) more u m (omega (arith, k)) d.1
          e1 in
      (
        t,
        rw (j, i, l, x) y,
        next (answer_stands fs laws names flushed path c w v u refl refl a) b,
        e2,
        o2 ∙ o1,
      )
