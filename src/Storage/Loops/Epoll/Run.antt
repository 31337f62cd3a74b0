-- ===== src/Storage/Loops/Epoll/Run.antt =====
-- A whole run of the loop of runEpoll leaks no descriptor (FileStorageServer.cpp).
use network_all_in_one.Prelude.{ℕ, ◌≡◌, refl, subst, List, [], ◌∷◌, arith, count-append}
use network_all_in_one.Text.{negsuc, Result, ok, throws}
use network_all_in_one.Kernel.{World, pure, close, ◌>>=◌, proceed}
use network_all_in_one.Kernel.Balance.{
  Even, After, Ensures, Ensures-bind, Ensures-pure, Ensures-from, close-Even,
}
use network_all_in_one.Storage.Disk.{FileSystem}
use network_all_in_one.Storage.Server.{Server}
use network_all_in_one.Storage.Loops.{
  Wait, interrupted, failed, ready, Progress, looping, returned, epoll_round, epoll_loop,
}
use network_all_in_one.Storage.Loops.Ledger.{listener_list, aside, Balanced}
use network_all_in_one.Storage.Loops.Epoll.{Reported, epoll_round-Ensures}

module _ (fs : FileSystem) (kept : List ℕ) (epoll_fd : ℕ) where
  -- Each report of the run names the listening socket and clients of the server as it is then, each
  -- at most once.
  abbrev pub Truthful : List (Wait (List ℕ)) → Server → World fs.Disk → Type 0
  Truthful [] s w = Unit
  Truthful (interrupted ∷ waits) s w = Truthful waits s w
  Truthful (failed ∷ waits) s w = Unit
  Truthful (ready report ∷ waits) s w =
      Reported s report
      × ((s' : Server) (v : World fs.Disk)
          → epoll_round fs s report w ≡ (ok s', v)
          → Truthful waits s' v)

  -- While the loop runs the epoll instance is open; a loop that returns has closed it.
  abbrev pub Stands : Progress → World fs.Disk → Type 0
  Stands (looping s) w = Balanced (epoll_fd ∷ kept) s w
  Stands (returned code s) w = Balanced kept s w

  gives_up :
      (s : Server)
      → Ensures
          (Balanced (epoll_fd ∷ kept) s)
          Stands
          (close epoll_fd >>= λ _. pure {D = fs.Disk} (returned (negsuc 0) s))
  gives_up s =
      Ensures-bind (λ _. Balanced kept s) _ _
        (Ensures-from (Even (epoll_fd ∷ s.client_sockets) (aside kept s)) _
          (λ w h fd. ground (
            arith,
            h fd,
            count-append fd (listener_list s.server_socket) (epoll_fd ∷ kept),
            count-append fd (listener_list s.server_socket) kept,
          ))
          (close-Even s.client_sockets (aside kept s) epoll_fd))
        (λ _. Ensures-pure _ (λ w h. h))

  -- What follows a round.
  next_round :
      (report : List ℕ) (waits : List (Wait (List ℕ))) (s : Server) (w : World fs.Disk)
      (r : Result Server) (v : World fs.Disk)
      → epoll_round fs s report w ≡ (r, v)
      → Truthful (ready report ∷ waits) s w
      → After (Balanced (epoll_fd ∷ kept)) (r, v)
      → ((s' : Server) (u : World fs.Disk)
          → Truthful waits s' u
          → Balanced (epoll_fd ∷ kept) s' u
          → After Stands (epoll_loop fs epoll_fd waits s' u))
      → After Stands (proceed r (epoll_loop fs epoll_fd waits) v)
  next_round report waits s w (ok s') v e t h k = k s' v (t.1 s' v e) h
  next_round report waits s w (throws x) v e t h k = tt

  epoll_loop-Stands :
      (waits : List (Wait (List ℕ))) (s : Server) (w : World fs.Disk)
      → Truthful waits s w
      → Balanced (epoll_fd ∷ kept) s w
      → After Stands (epoll_loop fs epoll_fd waits s w)
  unfolding epoll_loop ◌>>=◌
  epoll_loop-Stands [] s w t h =
      (Ensures-pure {P = Balanced (epoll_fd ∷ kept) s} {Q = Stands} (looping s) (λ v k. k)).at w h
  epoll_loop-Stands (interrupted ∷ waits) s w t h = epoll_loop-Stands waits s w t h
  epoll_loop-Stands (failed ∷ waits) s w t h = (gives_up s).at w h
  epoll_loop-Stands (ready report ∷ waits) s w t h =
      next_round report waits s w (epoll_round fs s report w).0 (epoll_round fs s report w).1 refl t
        ((epoll_round-Ensures fs (epoll_fd ∷ kept) report s t.0).at w h)
        (λ s' v. epoll_loop-Stands waits s' v)

  -- The loop of runEpoll, where each report names the listening socket and clients of the server as
  -- it is then, each at most once: while it runs each descriptor that was opened is closed, in the
  -- client list or aside (the listening socket, the epoll instance, and those of a caller), each as
  -- often as it was opened, if that was so at its start; and when it has returned, the epoll instance
  -- is no longer aside but closed.
  pub epoll_loop-Balanced :
      (waits : List (Wait (List ℕ))) (s : Server) (p : Progress) (w w' : World fs.Disk)
      → Truthful waits s w
      → Balanced (epoll_fd ∷ kept) s w
      → epoll_loop fs epoll_fd waits s w ≡ (ok p, w')
      → Stands p w'
  epoll_loop-Balanced waits s p w w' t h e =
      subst (After Stands) e (epoll_loop-Stands waits s w t h)
