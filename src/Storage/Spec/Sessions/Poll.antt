-- ===== src/Storage/Spec/Sessions/Poll.antt =====
-- A round of runPoll (FileStorageServer.cpp) against the specification, by its equality with a round of
-- runSelect.
use network_all_in_one.Prelude.{ℕ, true, false, ◌≡◌, refl, ◌∙◌, List, ◌∷◌, ◌++◌, Option, contains}
use network_all_in_one.Text.{Bytes, ok}
use network_all_in_one.Kernel.{World, pure, next_count, ◌>>=◌}
use network_all_in_one.Storage.Disk.{FileSystem, FileSystemLaws}
use network_all_in_one.Storage.Disk.Names.{FileNames}
use network_all_in_one.Storage.Server.{ServerType, PollFd, Revents}
use network_all_in_one.Storage.Loops.{poll_round, has_event}
use network_all_in_one.Storage.Loops.Poll.{descriptors}
use network_all_in_one.Storage.Loops.Poll.Passes.{IsDistinct}
use network_all_in_one.Storage.Loops.Poll.AsSelect.{polling, IsFresh, poll_round_as_select}
use network_all_in_one.Storage.Spec.Sessions.{streams, AllDeliver, Session}
use network_all_in_one.Storage.Spec.Sessions.Select.{
  Held, sockets, asking, waiting, Reports, select_round-Session,
}

module _ (fs : FileSystem) (laws : FileSystemLaws fs) (names : FileNames fs)
    (flushed : (d : fs.Disk) (p : Bytes) → (fs.flush d p).1 ≡ true) (listener : ℕ)
    (type : ServerType) (path : Bytes) (report : ℕ → Revents) (fds : List ℕ)
    (same : (fd : ℕ) → has_event (report fd) ≡ contains fd fds) where
  -- A round of runPoll in which no client connects: where the clients with events are each ready with a
  -- whole command of the protocol, in the order of pollFds_, and no flush of a file fails, the round
  -- returns, with each of them answered by a reply that the specification allows over the files that
  -- the one before it left; the server then holds the clients without events, in their order. The
  -- conditions on the entries are those of the equality with runSelect.
  pub poll_round-Session :
      (ps : List PollFd) (held : List Held) (more : List (Option Bytes)) (w : World fs.Disk)
      → IsDistinct (listener ∷ descriptors ps)
      → IsFresh fs listener type path report fds same
          (listener ∷ descriptors ps)
          (next_count w.opens)
      → contains listener fds ≡ false
      → descriptors ps ≡ sockets held
      → Reports fds held
      → AllDeliver (asking held)
      → w.recvs ≡ streams (asking held) ++ more
      → (v : World fs.Disk) × ((poll_round fs
                (polling fs listener type path (descriptors ps) ps)
                report
              >>= λ t. pure t.client_sockets)
            w
          ≡ (ok (waiting held), v))
        × Session fs laws names flushed path (asking held) w v
        × (v.recvs ≡ more)
  poll_round-Session ps held more w distinct fresh quiet h r d e =
      let (v, x, a, e1) =
        select_round-Session fs laws names flushed
          (polling fs listener type path (descriptors ps) ps) fds held more w quiet h r d e in
      (
        v,
        poll_round_as_select fs listener type path report fds same ps w distinct fresh
            ∙ unfold ◌>>=◌ pure in rw x refl,
        a,
        e1,
      )
