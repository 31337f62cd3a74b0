-- ===== src/Storage/Spec/Sessions/PollLoop.antt =====
-- A run of the loop of runPoll (FileStorageServer.cpp) against the specification.
use network_all_in_one.Prelude.{
  ℕ, true, ◌≡◌, refl, sym, ap, subst, ◌∙◌, List, [], ◌∷◌, Option, none, some,
}
use network_all_in_one.Text.{Bytes, ok}
use network_all_in_one.Kernel.{World, pure, ◌>>=◌}
use network_all_in_one.Storage.Disk.{FileSystem, FileSystemLaws}
use network_all_in_one.Storage.Disk.Names.{FileNames}
use network_all_in_one.Storage.Server.{Server, ServerType, PollFd}
use network_all_in_one.Storage.Loops.{looping, poll_loop}
use network_all_in_one.Storage.Loops.Poll.{descriptors}
use network_all_in_one.Storage.Spec.Sessions.{Session, over, followed_by}
use network_all_in_one.Storage.Spec.Sessions.Select.{asking}
use network_all_in_one.Storage.Spec.Sessions.SelectTurns.{arrival}
use network_all_in_one.Storage.Spec.Sessions.PollPasses.{passing}
use network_all_in_one.Storage.Spec.Sessions.PollTurns.{PollTurn, IsPollTurn, left_by}
use network_all_in_one.Storage.Spec.Sessions.PollRounds.{round_of}
use network_all_in_one.Storage.Spec.Sessions.Series.{
  answers, all_asking, all_streams, all_arrivals, clients_behind,
}

-- The reports of a series, in which `none` is an interruption.
abbrev pub AllPollTurns : ℕ → List ℕ → List (Option PollTurn) → Type 0
AllPollTurns listener clients [] = Unit
AllPollTurns listener clients (none ∷ ts) = AllPollTurns listener clients ts
AllPollTurns listener clients (some t ∷ ts) =
    IsPollTurn listener clients t × AllPollTurns listener (left_by t) ts

module _ (fs : FileSystem) (laws : FileSystemLaws fs) (names : FileNames fs)
    (flushed : (d : fs.Disk) (p : Bytes) → (fs.flush d p).1 ≡ true) (listener : ℕ)
    (type : ServerType) (path : Bytes) where
  -- What the loop makes of the reports.
  abbrev pub Outcome :
      List (Option PollTurn)
      → Server
      → List ℕ
      → List (Option Bytes)
      → List (Option ℕ)
      → World fs.Disk
      → Type 0
  Outcome ts s fds more os w =
      (v : World fs.Disk) × (s' : Server) × (poll_loop fs (answers (λ (t : PollTurn). t.report) ts)
          s w
        ≡ (ok (looping s'), v))
      × (descriptors s'.poll_fds
          ≡ listener ∷ clients_behind (λ (t : PollTurn) clients. left_by t) ts fds)
      × Session fs laws names flushed path (all_asking (λ (t : PollTurn). asking t.held) ts) w v
      × (v.recvs ≡ more)
      × (v.opens ≡ os)

  -- The loop of runPoll, over any number of reports and interruptions: where the first entry is
  -- that of the listening socket, each client with events is ready with a whole command of the
  -- protocol, and no flush of a file fails, the loop goes through all of them and would wait again,
  -- with every such client answered in its turn by a reply that the specification allows over the
  -- files that the one before it left; pollFds_ then has the listening socket, those that had no
  -- events, and those that have connected. To be answered is to be sent the whole reply, or a
  -- proper part of it where the kernel then refused a send; nothing else is sent.
  pub poll_loop-Session :
      (ts : List (Option PollTurn)) (self : PollFd) (ps : List PollFd) (clients : List ℕ)
      (more : List (Option Bytes)) (os : List (Option ℕ)) (w : World fs.Disk)
      → self.fd ≡ listener
      → AllPollTurns listener (descriptors ps) ts
      → w.recvs ≡ all_streams (λ (t : PollTurn). asking t.held) ts more
      → w.opens ≡ all_arrivals (λ (t : PollTurn). arrival t.connection) ts os
      → Outcome ts
          (passing fs laws names flushed listener type path (self ∷ ps) clients)
          (descriptors ps)
          more
          os
          w
  unfolding poll_loop pure ◌>>=◌
  poll_loop-Session [] self ps clients more os w own h e o = (
    w,
    passing fs laws names flushed listener type path (self ∷ ps) clients,
    refl,
    ap (λ fd. fd ∷ descriptors ps) own,
    over refl refl,
    e,
    o,
  )
  poll_loop-Session (none ∷ ts) self ps clients more os w own h e o =
      poll_loop-Session ts self ps clients more os w own h e o
  poll_loop-Session (some t ∷ ts) self ps clients more os w own h e o =
      let (v, clients', first, left, x, own', k, a, e1, o1) =
        round_of fs laws names flushed listener type path self ps t.report t.held
          (all_streams (λ (t : PollTurn). asking t.held) ts more)
          (all_arrivals (λ (t : PollTurn). arrival t.connection) ts os) own h.0.holds h.0.told
          h.0.deliver t.connection clients w h.0.listens e o in
      let (u, s', y, k', b, e2, o2) =
        poll_loop-Session ts first left clients' more os v own'
          (subst (λ fds. AllPollTurns listener fds ts) (sym k) h.1) e1 o1 in
      (
        u,
        s',
        rw x y,
        k' ∙ ap (λ fds. listener ∷ clients_behind (λ (t : PollTurn) clients. left_by t) ts fds) k,
        followed_by fs laws names flushed path w v u a b,
        e2,
        o2,
      )
