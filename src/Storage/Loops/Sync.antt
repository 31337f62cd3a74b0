-- ===== src/Storage/Loops/Sync.antt =====
-- runSync of FileStorageServer.cpp closes every client before it accepts the next.
use network_all_in_one.Prelude.{
  ℕ, zero, suc, ◌≡◌, List, [], ◌∷◌, ◌++◌, Option, none, some, arith, erase,
}
use network_all_in_one.Text.{ok}
use network_all_in_one.Kernel.{World}
use network_all_in_one.Kernel.Balance.{
  Ensures-returns, Even, EvenWith, Ensures, Ensures-bind, Ensures-pure, quiet-Even, close-Even,
  open-Even,
}
use network_all_in_one.Storage.Disk.{FileSystem}
use network_all_in_one.Storage.Server.{Server, close_client, remember}
use network_all_in_one.Storage.Server.Quiet.{serve-IsQuiet}
use network_all_in_one.Storage.Loops.{serve_accepted, sync_round, run_sync}
use network_all_in_one.Kernel.Balance.{Ensures-given}
use network_all_in_one.Storage.Loops.Ledger.{aside}

-- No client is held, and all but `kept` is closed.
abbrev pub Idle : {D : Type 0} → List ℕ → Server → World D → Type 0
Idle kept s w = Even [] (aside kept s) w × (s.client_sockets ≡ [])

module _ (fs : FileSystem) (kept : List ℕ) where
  close_only_client :
      (s : Server) (fd : ℕ)
      → s.client_sockets ≡ []
      → Ensures {D = fs.Disk}
          (Even (fd ∷ []) (aside kept s))
          (Idle kept)
          (close_client fd (remember s fd))
  unfolding close_client remember
  close_only_client s fd e =
      Ensures-bind (λ _. Even [] (aside kept s)) _ _ (close-Even [] (aside kept s) fd)
        (λ _. Ensures-pure _ (λ w h. (h, erased)))
    where
      erased : erase fd (s.client_sockets ++ fd ∷ []) ≡ []
      erased = rw e (ground arith)

  serve_accepted-Idle :
      (s : Server)
      → s.client_sockets ≡ []
      → (r : Option ℕ)
      → Ensures {D = fs.Disk} (EvenWith [] (aside kept s) r) (Idle kept) (serve_accepted fs s r)
  unfolding serve_accepted
  serve_accepted-Idle s e none = Ensures-pure s (λ w h. (h, e))
  serve_accepted-Idle s e (some fd) =
      Ensures-bind (λ _. Even (fd ∷ []) (aside kept s)) _ _
        (quiet-Even (fd ∷ []) (aside kept s) _ (serve-IsQuiet fs s.storage_path fd))
        (λ _. close_only_client s fd e)

  sync_round-Idle : (s : Server) → Ensures {D = fs.Disk} (Idle kept s) (Idle kept) (sync_round fs s)
  unfolding sync_round
  sync_round-Idle s = Ensures-given _ (λ e.
      Ensures-bind (EvenWith [] (aside kept s)) _ _ (open-Even [] (aside kept s))
        (serve_accepted-Idle s e))

  pub run_sync-Ensures :
      (rounds : ℕ) (s : Server)
      → Ensures {D = fs.Disk} (Idle kept s) (Idle kept) (run_sync fs rounds s)
  unfolding run_sync
  run_sync-Ensures zero s = Ensures-pure s (λ w h. h)
  run_sync-Ensures (suc rounds) s =
      Ensures-bind (Idle kept) _ _ (sync_round-Idle s) (λ s'. run_sync-Ensures rounds s')

  -- runSync, from a server without clients: after any number of rounds it holds no client, and each
  -- descriptor that was opened is closed or aside (the listening socket, and those of a caller), each
  -- as often as it was opened, if that was so at its start.
  pub run_sync-Idle :
      (rounds : ℕ) (s s' : Server) (w w' : World fs.Disk)
      → Idle kept s w
      → run_sync fs rounds s w ≡ (ok s', w')
      → Idle kept s' w'
  run_sync-Idle rounds s s' w w' h e =
      Ensures-returns (run_sync fs rounds s) w w' s' (run_sync-Ensures rounds s) h e
