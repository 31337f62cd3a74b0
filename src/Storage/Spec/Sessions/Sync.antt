-- ===== src/Storage/Spec/Sessions/Sync.antt =====
-- runSync (FileStorageServer.cpp) against the specification: whole clients, one after the other.
use network_all_in_one.Prelude.{
  ℕ, true, ◌≡◌, refl, ap, ◌∙◌, List, [], ◌∷◌, ◌++◌, Option, some, arith, length, append_assoc,
  erase,
}
use network_all_in_one.Text.{Bytes, ok}
use network_all_in_one.Kernel.{World, pure, close, open_descriptor, next_count, ◌>>=◌}
use network_all_in_one.Storage.Disk.{FileSystem, FileSystemLaws}
use network_all_in_one.Storage.Disk.Names.{FileNames}
use network_all_in_one.Storage.Server.{Server, serve, remember, close_client}
use network_all_in_one.Storage.Loops.{serve_accepted, sync_round, run_sync}
use network_all_in_one.Storage.Spec.Clients.{Delivers}
use network_all_in_one.Storage.Spec.Sessions.{
  Client, streams, accepts, AllDeliver, Answers, Session, over, next, answer_stands, serve_client,
}

-- A server without clients is as it was when it has closed the only one.
close_only :
    {D : Type 0} (s : Server) (fd : ℕ) (w : World D)
    → s.client_sockets ≡ []
    → close_client fd (remember s fd) w
      ≡ (ok s, record w { closed = fd ∷ w.closed; watched = erase fd w.watched })
unfolding close_client remember close pure ◌>>=◌
close_only s fd w e =
    let erased : erase fd (s.client_sockets ++ fd ∷ []) ≡ s.client_sockets = rw e (ground arith) in
    ap
      (λ clients. (
        ok (record s { client_sockets = clients }),
        record w { closed = fd ∷ w.closed; watched = erase fd w.watched },
      ))
      erased

module _ (fs : FileSystem) (laws : FileSystemLaws fs) (names : FileNames fs)
    (flushed : (d : fs.Disk) (p : Bytes) → (fs.flush d p).1 ≡ true) (s : Server)
    (idle : s.client_sockets ≡ []) where
  -- What one round makes of a client, if the server then goes on to `more` and `os`.
  abbrev Turn : Client → List (Option Bytes) → List (Option ℕ) → World fs.Disk → Type 0
  Turn c more os w =
      (v : World fs.Disk) × (sync_round fs s w ≡ (ok s, v))
      × Answers fs laws names flushed s.storage_path c w v
      × (v.recvs ≡ more)
      × (v.opens ≡ os)

  module _ (c : Client) (more : List (Option Bytes)) (os : List (Option ℕ))
      (w : World fs.Disk) where
    accepted : World fs.Disk
    accepted = record w { opens = os; opened = c.fd ∷ w.opened }

    closed_world : World fs.Disk → World fs.Disk
    closed_world v = record v { closed = c.fd ∷ v.closed; watched = erase c.fd v.watched }

    round_returns :
        (v : World fs.Disk)
        → w.opens ≡ some c.fd ∷ os
        → serve fs s.storage_path c.fd accepted ≡ (ok tt, v)
        → sync_round fs s w ≡ (ok s, closed_world v)
    unfolding accepted closed_world sync_round serve_accepted open_descriptor next_count ◌>>=◌
    round_returns v o e = rw (o, e) (close_only s c.fd v idle)

    sync_round-Turn :
        Delivers c.command c.stream
        → w.recvs ≡ c.stream ++ more
        → w.opens ≡ some c.fd ∷ os
        → Turn c more os w
    unfolding accepted closed_world
    sync_round-Turn d e o =
        let (v, r, a, x, y) =
          serve_client fs laws names flushed s.storage_path c more accepted d e in
        (
          closed_world v,
          round_returns v o r,
          answer_stands fs laws names flushed s.storage_path c w v (closed_world v) refl refl
              (record { reply = a.reply; step = a.step; delivery = a.delivery }),
          x,
          y,
        )

  -- The server in sync mode, holding no client: where the clients come one after the other, each
  -- with a whole command of the protocol, and no flush of a file fails, as many rounds as there are
  -- clients return, with every client answered in its turn by a reply that the specification allows
  -- over the files that the one before it left; their bytes are consumed, and no more, and the
  -- server is as it was. To be answered is to be sent the whole reply, or a proper part of it where
  -- the kernel then refused a send; nothing else is sent.
  pub run_sync-Session :
      (clients : List Client) (more : List (Option Bytes)) (os : List (Option ℕ))
      (w : World fs.Disk)
      → AllDeliver clients
      → w.recvs ≡ streams clients ++ more
      → w.opens ≡ accepts clients ++ os
      → (v : World fs.Disk) × (run_sync fs (length clients) s w ≡ (ok s, v))
        × Session fs laws names flushed s.storage_path clients w v
        × (v.recvs ≡ more)
        × (v.opens ≡ os)
  unfolding run_sync pure ◌>>=◌
  run_sync-Session [] more os w d e o = (w, refl, over refl refl, e, o)
  run_sync-Session (c ∷ cs) more os w d e o =
      let (v, r, a, e1, o1) =
        sync_round-Turn c (streams cs ++ more) (accepts cs ++ os) w d.0
          (e ∙ append_assoc c.stream (streams cs) more) o in
      let (u, r2, a2, e2, o2) = run_sync-Session cs more os v d.1 e1 o1 in
      (u, rw r r2, next a a2, e2, o2)
