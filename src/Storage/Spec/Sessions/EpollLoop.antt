-- ===== src/Storage/Spec/Sessions/EpollLoop.antt =====
-- The loop of runEpoll (FileStorageServer.cpp) against the specification, report by report.
use network_all_in_one.Prelude.{ℕ, true, ◌≡◌, refl, List, [], ◌∷◌, Option, none, some}
use network_all_in_one.Text.{Bytes, ok}
use network_all_in_one.Kernel.{World, pure, ◌>>=◌}
use network_all_in_one.Storage.Disk.{FileSystem, FileSystemLaws}
use network_all_in_one.Storage.Disk.Names.{FileNames}
use network_all_in_one.Storage.Server.{ServerType, PollFd}
use network_all_in_one.Storage.Loops.{looping, epoll_loop}
use network_all_in_one.Storage.Spec.Sessions.{AllDeliver, Session, over, followed_by}
use network_all_in_one.Storage.Spec.Sessions.Epoll.{
  Event, numbers, arrivals, asking, clients_after, NotListener, holding, epoll_round-Session,
}
use network_all_in_one.Storage.Spec.Sessions.Series.{
  answers, all_asking, all_streams, all_arrivals, clients_behind,
}

-- What epoll_wait answers, again and again, is an interruption (`none`) or events. Each report is of clients that are ready with whole commands, and of the listening socket.
abbrev pub AllReady : ℕ → List (Option (List Event)) → Type 0
AllReady listener [] = Unit
AllReady listener (none ∷ rs) = AllReady listener rs
AllReady listener (some es ∷ rs) =
    NotListener listener es × AllDeliver (asking es) × AllReady listener rs

module _ (fs : FileSystem) (laws : FileSystemLaws fs) (names : FileNames fs)
    (flushed : (d : fs.Disk) (p : Bytes) → (fs.flush d p).1 ≡ true) (listener : ℕ)
    (type : ServerType) (path : Bytes) (entries : List PollFd) (epoll_fd : ℕ) where
  -- The loop of runEpoll, over any number of reports and interruptions: where each client that is
  -- reported is ready with a whole command of the protocol and no flush of a file fails, the loop
  -- goes through all of them and would wait again, with every such client answered in its turn by a
  -- reply that the specification allows over the files that the one before it left; the server then
  -- holds the clients that it held and those that have connected, without those that were answered.
  -- To be answered is to be sent the whole reply, or a proper part of it where the kernel then
  -- refused a send; nothing else is sent.
  pub epoll_loop-Session :
      (reports : List (Option (List Event))) (clients : List ℕ) (more : List (Option Bytes))
      (os : List (Option ℕ)) (w : World fs.Disk)
      → AllReady listener reports
      → w.recvs ≡ all_streams asking reports more
      → w.opens ≡ all_arrivals arrivals reports os
      → (v : World fs.Disk) × (epoll_loop fs epoll_fd
            (answers (numbers listener) reports)
            (holding fs laws names flushed listener type path entries clients)
            w
          ≡ (
            ok (
                looping (
                  holding fs laws names flushed listener type path entries
                    (clients_behind clients_after reports clients))),
            v,
          ))
        × Session fs laws names flushed path (all_asking asking reports) w v
        × (v.recvs ≡ more)
        × (v.opens ≡ os)
  unfolding epoll_loop pure ◌>>=◌
  epoll_loop-Session [] clients more os w a e o = (w, refl, over refl refl, e, o)
  epoll_loop-Session (none ∷ rs) clients more os w a e o =
      epoll_loop-Session rs clients more os w a e o
  epoll_loop-Session (some es ∷ rs) clients more os w a e o =
      let (v, x, s, e1, o1) =
        epoll_round-Session fs laws names flushed listener type path entries es clients
          (all_streams asking rs more) (all_arrivals arrivals rs os) w a.0 a.1 e o in
      let (u, y, t, e2, o2) =
        epoll_loop-Session rs (clients_after es clients) more os v a.2 e1 o1 in
      (u, rw x y, followed_by fs laws names flushed path w v u s t, e2, o2)
