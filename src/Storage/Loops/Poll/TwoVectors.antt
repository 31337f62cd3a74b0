-- ===== src/Storage/Loops/Poll/TwoVectors.antt =====
-- runPoll of FileStorageServer.cpp keeps its two vectors in step, and leaks no descriptor.
use network_all_in_one.Prelude.{
  ℕ, zero, suc, ◌≡◌, refl, sym, ap, subst, ◌∙◌, append-nil, false, List, [], ◌∷◌, ◌++◌, Option,
  none, some, arith, count, not,
}
use network_all_in_one.Text.{ok}
use network_all_in_one.Kernel.{World}
use network_all_in_one.Kernel.Balance.{
  Ensures-returns, Ensures-given, Even, EvenWith, Ensures, Ensures-bind, Ensures-pure, Ensures-if,
  Ensures-from, quiet-Even, open-Even,
}
use network_all_in_one.Storage.Disk.{FileSystem}
use network_all_in_one.Storage.Server.{Server, remember, is_server, PollFd}
use network_all_in_one.Storage.Server.Quiet.{serve-IsQuiet, set_server_blocking-IsQuiet}
use network_all_in_one.Storage.Loops.{Wait, interrupted, failed, ready, Progress}
use network_all_in_one.Storage.Server.{Revents}
use network_all_in_one.Storage.Loops.{
  accept_polled, poll_pass, poll_round, poll_loop, run_poll, push_poll, polled, has_event,
  listener_entry,
}
use network_all_in_one.Storage.Loops.Ledger.{aside, Balanced, server_of, pushed-Even}
use network_all_in_one.Storage.Loops.Sync.{Idle}
use network_all_in_one.Storage.Loops.Poll.{
  descriptors-polled, descriptors, InStep, close_client-Even, is_held, InStep-erase, InStep-pass,
  InStep-push,
}

module _ (fs : FileSystem) (kept : List ℕ) where
  -- The ledger of the server and its two vectors in step.
  abbrev pub Polled : Server × List PollFd → World fs.Disk → Type 0
  Polled state w = Balanced kept state.0 w × InStep state.0 state.1

  abbrev Passing : List PollFd → Server × List PollFd → World fs.Disk → Type 0
  Passing seen state w = Balanced kept state.0 w × InStep state.0 (seen ++ state.1)

  accept_polled-Passing :
      (s : Server) (seen rest : List PollFd) (p : PollFd)
      → InStep s (seen ++ p ∷ rest)
      → (r : Option ℕ)
      → Ensures {D = fs.Disk}
          (EvenWith s.client_sockets (aside kept s) r)
          (Passing (seen ++ p ∷ []))
          (accept_polled fs s rest r)
  unfolding accept_polled
  accept_polled-Passing s seen rest p h none =
      Ensures-pure _ (λ w e. (e, InStep-pass s seen rest p h))
  accept_polled-Passing s seen rest p h (some fd) = Ensures-pure _ (λ w e. (
    unfold remember in pushed-Even fd s.client_sockets (aside kept s) w e,
    InStep-push s seen rest p h fd,
  ))

  poll_pass-Polled :
      (steps : ℕ) (s : Server) (seen rest : List PollFd)
      → InStep s (seen ++ rest)
      → Ensures {D = fs.Disk} (Balanced kept s) Polled (poll_pass fs steps s seen rest)
  unfolding poll_pass
  poll_pass-Polled zero s seen rest h = Ensures-pure _ (λ w e. (e, h))
  poll_pass-Polled (suc steps) s seen [] h = Ensures-pure _ (λ w e. (e, rw append-nil at h))
  poll_pass-Polled (suc steps) s seen (p ∷ rest) h =
      Ensures-if (not (has_event p.revents)) _ _
        (λ quiet. poll_pass-Polled steps s (seen ++ p ∷ []) rest (InStep-pass s seen rest p h))
        (λ event.
          Ensures-if (is_server s.server_socket p.fd) _ _
            (λ listener.
              Ensures-bind (EvenWith s.client_sockets (aside kept s)) _ _
                (open-Even s.client_sockets (aside kept s))
                (λ client.
                  Ensures-bind (Passing (seen ++ p ∷ [])) _ _
                    (accept_polled-Passing s seen rest p h client)
                    (λ state.
                      Ensures-given _
                        (λ k. poll_pass-Polled steps state.0 (seen ++ p ∷ []) state.1 k))))
            (λ client.
              Ensures-bind (λ _. Balanced kept s) _ _
                (quiet-Even s.client_sockets (aside kept s) _
                  (serve-IsQuiet fs s.storage_path p.fd))
                (λ _.
                  Ensures-bind _ _ _
                    (close_client-Even p.fd s kept (is_held s seen rest p h client))
                    (λ s'. Ensures-given _ (λ e. poll_pass-Polled steps s' seen rest (
                      subst (λ t. InStep t (seen ++ rest)) (sym e)
                        (InStep-erase s seen rest p h client)))))))

  abbrev pub Synced : Server → World fs.Disk → Type 0
  Synced s w = Balanced kept s w × InStep s s.poll_fds

  poll_round-Synced :
      (s : Server) (report : ℕ → Revents)
      → Ensures {D = fs.Disk} (Synced s) Synced (poll_round fs s report)
  unfolding poll_round
  poll_round-Synced s report = Ensures-given _ (λ h.
      Ensures-bind Polled _ _
        (poll_pass-Polled _ s [] (polled report s.poll_fds)
          (λ fd e. ap (count fd) (descriptors-polled report s.poll_fds) ∙ h fd e))
        (λ state. Ensures-pure _ (λ w k. k)))

  poll_loop-Synced :
      (waits : List (Wait (ℕ → Revents))) (s : Server)
      → Ensures {D = fs.Disk} (Synced s) (λ p. Synced (server_of p)) (poll_loop fs waits s)
  unfolding poll_loop
  poll_loop-Synced [] s = Ensures-pure _ (λ w h. h)
  poll_loop-Synced (interrupted ∷ waits) s = poll_loop-Synced waits s
  poll_loop-Synced (failed ∷ waits) s = Ensures-pure _ (λ w h. h)
  poll_loop-Synced (ready report ∷ waits) s =
      Ensures-bind Synced _ _ (poll_round-Synced s report) (λ s'. poll_loop-Synced waits s')

  first_entry-InStep :
      (listener : Option ℕ) (fd : ℕ)
      → is_server listener fd ≡ false
      → count fd (descriptors (listener_entry listener)) ≡ 0
  unfolding listener_entry push_poll
  first_entry-InStep none fd e = refl
  first_entry-InStep (some listener) fd e = ground (arith, e)

  pub run_poll-Ensures :
      (waits : List (Wait (ℕ → Revents))) (s : Server)
      → Ensures {D = fs.Disk} (Idle kept s) (λ p. Synced (server_of p)) (run_poll fs waits s)
  unfolding run_poll
  run_poll-Ensures waits s = Ensures-given _ (λ e.
      Ensures-bind (λ _. Even [] (aside kept s)) _ _
        (quiet-Even [] (aside kept s) _ (set_server_blocking-IsQuiet s.server_socket false))
        (λ _.
          Ensures-from (Synced (record s { poll_fds = listener_entry s.server_socket })) _
            (λ w h. (
              subst (λ live. Even live (aside kept s) w) (sym e) h,
              λ fd n. first_entry-InStep s.server_socket fd n ∙ sym (ap (count fd) e),
            ))
            (poll_loop-Synced waits (record s { poll_fds = listener_entry s.server_socket }))))

  -- runPoll, from a server without clients, whatever poll reports and the clients do: when it has
  -- returned, or stands before its next poll, each descriptor that was opened is closed, in
  -- clientSockets_ or aside (the listening socket, and those of a caller), each as often as it was
  -- opened, if that was so at its start; and pollFds_ has each client as often as clientSockets_.
  pub run_poll-Synced :
      (waits : List (Wait (ℕ → Revents))) (s : Server) (p : Progress) (w w' : World fs.Disk)
      → Idle kept s w
      → run_poll fs waits s w ≡ (ok p, w')
      → Synced (server_of p) w'
  run_poll-Synced waits s p w w' h e =
      Ensures-returns (run_poll fs waits s) w w' p (run_poll-Ensures waits s) h e
