-- ===== src/Storage/Loops/Ledger.antt =====
-- No loop of FileStorageServer.cpp leaks a descriptor or closes one twice.
use network_all_in_one.Prelude.{
  ℕ, ◌≡◌, false, List, [], ◌∷◌, ◌++◌, Option, none, some, arith, count-append, contains,
}
use network_all_in_one.Text.{Bytes, ok}
use network_all_in_one.Kernel.{World}
use network_all_in_one.Kernel.Balance.{
  Ensures-returns, Even, EvenWith, Ensures, Ensures-bind, Ensures-pure, Ensures-lift, Ensures-if,
  Ensures-from, quiet-Even, close-Even, open-Even,
}
use network_all_in_one.Storage.Disk.{FileSystem}
use network_all_in_one.Storage.Server.{Server, remember}
use network_all_in_one.Storage.Server.Quiet.{serve-IsQuiet, set_server_blocking-IsQuiet}
use network_all_in_one.Storage.Loops.{
  remember_accepted, accept_selected, serve_selected, select_round, select_loop, run_select, Wait,
  interrupted, failed, ready, Progress, looping, returned, listener_of, select_set,
}

-- The listening socket, as a list.
abbrev pub listener_list : Option ℕ → List ℕ
listener_list none = []
listener_list (some fd) = fd ∷ []

-- The descriptors of a server that are no clients': the listening socket, and those of a caller.
abbrev pub aside : List ℕ → Server → List ℕ
aside kept s = listener_list s.server_socket ++ kept

-- The ledger of a server.
abbrev pub Balanced : {D : Type 0} → List ℕ → Server → World D → Type 0
Balanced kept s = Even s.client_sockets (aside kept s)

abbrev pub server_of : Progress → Server
server_of (looping s) = s
server_of (returned n s) = s

swap-Even :
    {D : Type 0} (fd : ℕ) (live kept : List ℕ) (w : World D)
    → Even (fd ∷ live) kept w
    → Even live (fd ∷ kept) w
swap-Even fd live kept w h x = ground (arith, h x)

pub pushed-Even :
    {D : Type 0} (fd : ℕ) (live kept : List ℕ) (w : World D)
    → Even (fd ∷ live) kept w
    → Even (live ++ fd ∷ []) kept w
pushed-Even fd live kept w h x = ground (arith, h x, count-append x live (fd ∷ []))

module _ (fs : FileSystem) (kept : List ℕ) where
  serve_selected-Even :
      (storage_path : Bytes) (fds clients kept' : List ℕ)
      → Ensures {D = fs.Disk}
          (Even clients kept')
          (λ left. Even left kept')
          (serve_selected fs storage_path fds clients)
  unfolding serve_selected
  serve_selected-Even storage_path fds [] kept' = Ensures-pure [] (λ w h. h)
  serve_selected-Even storage_path fds (fd ∷ clients) kept' =
      Ensures-if (contains fd fds) _ _
        (λ hit.
          Ensures-bind (λ _. Even (fd ∷ clients) kept') _ _
            (quiet-Even (fd ∷ clients) kept' _ (serve-IsQuiet fs storage_path fd))
            (λ _.
              Ensures-bind (λ _. Even clients kept') _ _ (close-Even clients kept' fd)
                (λ _. serve_selected-Even storage_path fds clients kept')))
        (λ miss.
          Ensures-bind (λ left. Even left (fd ∷ kept')) _ _
            (Ensures-from (Even clients (fd ∷ kept')) _ (swap-Even fd clients kept')
              (serve_selected-Even storage_path fds clients (fd ∷ kept')))
            (λ left. Ensures-pure (fd ∷ left) (λ w h x. ground (arith, h x))))

  remember_accepted-Balanced :
      (s : Server) (r : Option ℕ)
      → Ensures {D = fs.Disk}
          (EvenWith s.client_sockets (aside kept s) r)
          (Balanced kept)
          (remember_accepted fs s r)
  unfolding remember_accepted remember
  remember_accepted-Balanced s none = Ensures-pure s (λ w h. h)
  remember_accepted-Balanced s (some fd) =
      Ensures-pure _ (pushed-Even fd s.client_sockets (aside kept s))

  accept_selected-Balanced :
      (s : Server) (fds : List ℕ)
      → Ensures {D = fs.Disk} (Balanced kept s) (Balanced kept) (accept_selected fs s fds)
  unfolding accept_selected
  accept_selected-Balanced s fds =
      Ensures-if (contains (listener_of s) fds) _ _
        (λ hit.
          Ensures-bind (EvenWith s.client_sockets (aside kept s)) _ _
            (open-Even s.client_sockets (aside kept s)) (remember_accepted-Balanced s))
        (λ miss. Ensures-pure s (λ w h. h))

  select_round-Balanced :
      (s : Server) (fds : List ℕ)
      → Ensures {D = fs.Disk} (Balanced kept s) (Balanced kept) (select_round fs s fds)
  unfolding select_round
  select_round-Balanced s fds =
      Ensures-bind (Balanced kept) _ _ (accept_selected-Balanced s fds) (λ s'.
        Ensures-bind (λ left. Even left (aside kept s')) _ _
          (serve_selected-Even s'.storage_path fds s'.client_sockets (aside kept s'))
          (λ left. Ensures-pure _ (λ w h. h)))

  select_loop-Balanced :
      (waits : List (Wait (List ℕ))) (s : Server)
      → Ensures {D = fs.Disk}
          (Balanced kept s)
          (λ p. Balanced kept (server_of p))
          (select_loop fs waits s)
  unfolding select_loop
  select_loop-Balanced [] s = Ensures-pure _ (λ w h. h)
  select_loop-Balanced (interrupted ∷ waits) s =
      Ensures-bind (λ _. Balanced kept s) _ _ (Ensures-lift (select_set s) (λ a e w h. h))
        (λ _. select_loop-Balanced waits s)
  select_loop-Balanced (failed ∷ waits) s =
      Ensures-bind (λ _. Balanced kept s) _ _ (Ensures-lift (select_set s) (λ a e w h. h))
        (λ _. Ensures-pure _ (λ w h. h))
  select_loop-Balanced (ready report ∷ waits) s =
      Ensures-bind (λ _. Balanced kept s) _ _ (Ensures-lift (select_set s) (λ a e w h. h))
        (λ set.
          Ensures-bind (Balanced kept) _ _ (select_round-Balanced s _)
            (λ s'. select_loop-Balanced waits s'))

  pub run_select-Ensures :
      (waits : List (Wait (List ℕ))) (s : Server)
      → Ensures {D = fs.Disk}
          (Balanced kept s)
          (λ p. Balanced kept (server_of p))
          (run_select fs waits s)
  unfolding run_select
  run_select-Ensures waits s =
      Ensures-bind (λ _. Balanced kept s) _ _
        (quiet-Even s.client_sockets (aside kept s) _
          (set_server_blocking-IsQuiet s.server_socket false))
        (λ _. select_loop-Balanced waits s)

  -- runSelect, whatever select reports and the clients do: when it has returned, or stands before its
  -- next select, each descriptor that was opened is closed, in the client list or aside (the listening
  -- socket, and those of a caller), each as often as it was opened, if that was so at its start.
  pub run_select-Balanced :
      (waits : List (Wait (List ℕ))) (s : Server) (p : Progress) (w w' : World fs.Disk)
      → Balanced kept s w
      → run_select fs waits s w ≡ (ok p, w')
      → Balanced kept (server_of p) w'
  run_select-Balanced waits s p w w' h e =
      Ensures-returns (run_select fs waits s) w w' p (run_select-Ensures waits s) h e
