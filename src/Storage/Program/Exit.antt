-- ===== src/Storage/Program/Exit.antt =====
-- When main of Lecture 4 returns, every descriptor has been closed.
use network_all_in_one.Prelude.{
  ℕ, ◌≡◌, ◌≢◌, refl, sym, subst, ◌∙◌, List, [], ◌∷◌, ◌++◌, Option, none, some, arith,
}
use network_all_in_one.Text.{Bytes, ℤ, pos, negsuc, ok}
use network_all_in_one.Kernel.{World, Io}
use network_all_in_one.Kernel.Actions.{try_call-Ledger, action_rules}
use network_all_in_one.Kernel.Balance.{
  Ensures-returns, Even, EvenWith, Ensures, Ensures-bind, Ensures-pure, Ensures-lift, Ensures-from,
  Ensures-to, quiet-Even, close-Even, open-Even, IsQuiet,
}
use network_all_in_one.Storage.Disk.{FileSystem}
use network_all_in_one.Storage.Server.{
  Server, ServerType, sync, async_select, async_poll, async_epoll, construct, set_up, make_storage,
  destruct, close_all, close_listener, server_bind, server_listen,
}
use network_all_in_one.Storage.Loops.{Progress, looping, returned}
use network_all_in_one.Storage.Loops.Ledger.{
  listener_list, aside, Balanced, server_of, run_select-Ensures,
}
use network_all_in_one.Storage.Loops.Sync.{Idle, run_sync-Ensures}
use network_all_in_one.Storage.Loops.Poll.TwoVectors.{run_poll-Ensures}
use network_all_in_one.Storage.Program.{
  Answers, parse_server_type, mode_argument, path_argument, port_argument, start_as, start,
  exit_with, finish, listening, bound, main,
}

close_all-Even :
    {D : Type 0} (fds kept : List ℕ)
    → Ensures {D = D} (Even fds kept) (λ _. Even [] kept) (close_all fds)
unfolding close_all
close_all-Even [] kept = Ensures-pure tt (λ w h. h)
close_all-Even (fd ∷ fds) kept =
    Ensures-bind (λ _. Even fds kept) _ _ (close-Even fds kept fd) (λ _. close_all-Even fds kept)

close_listener-Even :
    {D : Type 0} (listener : Option ℕ)
    → Ensures {D = D}
        (Even [] (listener_list listener ++ []))
        (λ _. Even [] [])
        (close_listener listener)
unfolding close_listener
close_listener-Even none = Ensures-pure tt (λ w h. h)
close_listener-Even (some fd) =
    Ensures-from (Even (fd ∷ []) []) _ (λ w h x. ground (arith, h x)) (close-Even [] [] fd)

-- The destructor closes the clients and the listening socket.
destruct-Even :
    {D : Type 0} (s : Server) → Ensures {D = D} (Balanced [] s) (λ _. Even [] []) (destruct s)
unfolding destruct
destruct-Even s =
    Ensures-bind (λ _. Even [] (aside [] s)) _ _ (close_all-Even s.client_sockets (aside [] s))
      (λ _. close_listener-Even s.server_socket)

module _ (fs : FileSystem) where
  -- A server as it is constructed: its only descriptor is the listening socket.
  abbrev Fresh : ServerType → Server → World fs.Disk → Type 0
  Fresh type s w = Even [] (aside [] s) w × (s.client_sockets ≡ []) × (s.server_type ≡ type)

  make_storage-IsQuiet : (path : Bytes) → IsQuiet (make_storage fs path)
  unfolding make_storage
  make_storage-IsQuiet path o c = record { at = λ w h. h }

  set_up-Fresh :
      (type : ServerType) (path : Bytes) (r : Option ℕ)
      → Ensures {D = fs.Disk} (EvenWith [] [] r) (Fresh type) (set_up fs type path r)
  unfolding set_up
  set_up-Fresh type path none = Ensures-pure _ (λ w h. (h, refl, refl))
  set_up-Fresh type path (some fd) =
      Ensures-bind (λ _. Even (fd ∷ []) []) _ _ (quiet-Even (fd ∷ []) [] _ (λ o c. try_call-Ledger))
        (λ _.
          Ensures-bind (λ _. Even (fd ∷ []) []) _ _
            (quiet-Even (fd ∷ []) [] _ (make_storage-IsQuiet path))
            (λ _. Ensures-pure _ (λ w h. ((λ x. ground (arith, h x)), refl, refl))))

  construct-Fresh :
      (type : ServerType) (path : Bytes)
      → Ensures {D = fs.Disk} (Even [] []) (Fresh type) (construct fs type path)
  unfolding construct
  construct-Fresh type path =
      Ensures-bind (EvenWith [] []) _ _ (open-Even [] []) (set_up-Fresh type path)

  -- An exit code comes when all that was opened is closed.
  abbrev pub Exited : Option ℤ → World fs.Disk → Type 0
  Exited none w = Unit
  Exited (some code) w = Even [] [] w

  exit_with-Exited :
      (code : ℤ) (s : Server) → Ensures {D = fs.Disk} (Balanced [] s) Exited (exit_with fs code s)
  unfolding exit_with
  exit_with-Exited code s =
      Ensures-bind (λ _. Even [] []) _ _ (destruct-Even s) (λ _. Ensures-pure _ (λ w h. h))

  finish-Exited :
      (p : Progress) → Ensures {D = fs.Disk} (Balanced [] (server_of p)) Exited (finish fs p)
  unfolding finish
  finish-Exited (looping s) = Ensures-pure none (λ w h. tt)
  finish-Exited (returned code s) = exit_with-Exited code s

  Fresh-balance :
      (type : ServerType) (s : Server) (w : World fs.Disk) → Fresh type s w → Balanced [] s w
  Fresh-balance type s w h = subst (λ live. Even live (aside [] s) w) (sym h.1) h.0

  start_as-Balanced :
      (type : ServerType) (answers : Answers) (s : Server)
      → type ≢ async_epoll
      → s.client_sockets ≡ []
      → Ensures {D = fs.Disk}
          (Even [] (aside [] s))
          (λ p. Balanced [] (server_of p))
          (start_as fs type answers s)
  unfolding start_as
  start_as-Balanced sync answers s n e =
      Ensures-bind (Idle []) _ _
        (Ensures-from (Idle [] s) _ (λ w h. (h, e)) (run_sync-Ensures fs [] answers.rounds s))
        (λ s'. Ensures-pure _ (λ w h. subst (λ live. Even live (aside [] s') w) (sym h.1) h.0))
  start_as-Balanced async_select answers s n e =
      Ensures-from (Balanced [] s) _ (λ w h. subst (λ live. Even live (aside [] s) w) (sym e) h)
        (run_select-Ensures fs [] answers.selects s)
  start_as-Balanced async_poll answers s n e =
      Ensures-to _
        (Ensures-from (Idle [] s) _ (λ w h. (h, e)) (run_poll-Ensures fs [] answers.polls s))
        (λ p w h. h.0)
  start_as-Balanced async_epoll answers s n e = absurd (n refl)

  listening-Exited :
      (type : ServerType) (answers : Answers) (s : Server) (status : ℤ)
      → type ≢ async_epoll
      → Ensures {D = fs.Disk} (Fresh type s) Exited (listening fs answers s status)
  unfolding listening start
  listening-Exited type answers s (pos k) n = record {
    at = λ w h.
        (Ensures-bind (λ p. Balanced [] (server_of p)) _ _
            (start_as-Balanced s.server_type answers s (λ e. n (sym h.2 ∙ e)) h.1) finish-Exited).at
          w h.0;
  }
  listening-Exited type answers s (negsuc k) n =
      Ensures-from (Balanced [] s) _ (Fresh-balance type s) (exit_with-Exited (pos 1) s)

  keep-Fresh :
      (type : ServerType) (s : Server) {A : Type 0} (m : Io fs.Disk A)
      → IsQuiet m
      → Ensures {D = fs.Disk} (Fresh type s) (λ _. Fresh type s) m
  keep-Fresh type s m q = record {
    at = λ w h. (Ensures-to m (quiet-Even [] (aside [] s) m q) (λ a v k. (k, h.1, h.2))).at w h.0;
  }

  bound-Exited :
      (type : ServerType) (answers : Answers) (s : Server) (status : ℤ)
      → type ≢ async_epoll
      → Ensures {D = fs.Disk} (Fresh type s) Exited (bound fs answers s status)
  unfolding bound server_listen
  bound-Exited type answers s (pos k) n =
      Ensures-bind (λ _. Fresh type s) _ _
        (keep-Fresh type s (server_listen s) (λ o c. search action_rules))
        (λ status. listening-Exited type answers s status n)
  bound-Exited type answers s (negsuc k) n =
      Ensures-from (Balanced [] s) _ (Fresh-balance type s) (exit_with-Exited (pos 1) s)

  pub main-Ensures :
      (arguments : List Bytes) (answers : Answers)
      → parse_server_type (mode_argument arguments) ≢ async_epoll
      → Ensures {D = fs.Disk} (Even [] []) Exited (main fs arguments answers)
  unfolding main server_bind
  main-Ensures arguments answers n =
      Ensures-bind (λ _. Even [] []) _ _ (Ensures-lift (port_argument arguments) (λ a e w h. h))
        (λ port.
          Ensures-bind (Fresh (parse_server_type (mode_argument arguments))) _ _
            (construct-Fresh _ (path_argument arguments))
            (λ s.
              Ensures-bind (λ _. Fresh (parse_server_type (mode_argument arguments)) s) _ _
                (keep-Fresh _ s (server_bind s) (λ o c. search action_rules))
                (λ status. bound-Exited _ answers s status n)))

  -- main, in every mode but "epoll" and whatever the kernel answers: where it returns an exit code,
  -- each descriptor has been closed as often as it was opened, if that was so at its start.
  pub main-Exited :
      (arguments : List Bytes) (answers : Answers) (code : ℤ) (w w' : World fs.Disk)
      → parse_server_type (mode_argument arguments) ≢ async_epoll
      → Even [] [] w
      → main fs arguments answers w ≡ (ok (some code), w')
      → Even [] [] w'
  main-Exited arguments answers code w w' n h e =
      Ensures-returns (main fs arguments answers) w w' (some code)
        (main-Ensures arguments answers n) h e
