-- ===== src/Storage/Loops/Crash.antt =====
-- One malformed request ends the server (FileStorageServer.cpp).
use network_all_in_one.Prelude.{
  ℕ, suc, ◌≤◌, ◌+◌, ◌≡◌, refl, ◌∙◌, List, ◌∷◌, ◌++◌, Option, some, length, arith,
}
use network_all_in_one.Text.{Bytes, ok, throws, invalid_argument}
use network_all_in_one.Text.Search.{Without, starts_with-append, find_missing}
use network_all_in_one.Kernel.{World, pure, open_descriptor, next_count, ◌>>=◌}
use network_all_in_one.Storage.Disk.{FileSystem}
use network_all_in_one.Storage.Request.{put_prefix, buffer_size}
use network_all_in_one.Storage.Reader.{read_request, continue_request}
use network_all_in_one.Storage.Reader.Framing.{read_first}
use network_all_in_one.Storage.Handlers.Replies.{handle-put_no_length}
use network_all_in_one.Storage.Server.{Server, serve, respond}
use network_all_in_one.Storage.Loops.{serve_accepted, sync_round, run_sync}

module _ (path : Bytes) (plain : Without b' ' path) (fits : length path + 4 ≤ buffer_size) where
  read_no_length :
      {D : Type 0} (fd : ℕ) (rs : List (Option Bytes)) (w : World D)
      → read_request fd (record w { recvs = some (put_prefix ++ path) ∷ rs })
        ≡ (ok (put_prefix ++ path), record w { recvs = rs })
  unfolding continue_request pure
  read_no_length fd rs w =
      read_first fd b'P' _ rs w (omega arith)
      ∙ rw (starts_with-append put_prefix path, find_missing b' ' 4 put_prefix path refl plain)

  module _ (fs : FileSystem) where
    serve_no_length :
        (storage_path : Bytes) (fd : ℕ) (rs : List (Option Bytes)) (w : World fs.Disk)
        → serve fs storage_path fd (record w { recvs = some (put_prefix ++ path) ∷ rs })
          ≡ (throws invalid_argument, record w { recvs = rs })
    unfolding serve respond ◌>>=◌
    serve_no_length storage_path fd rs w = rw (read_no_length fd rs w) (
        rw
          (handle-put_no_length fs storage_path path (record w { recvs = rs }) plain (omega arith)))

    -- A client whose first recv brings "PUT " and a path without a space and with nothing behind it,
    -- within the buffer, ends the server: runSync throws std::invalid_argument, which nothing catches,
    -- in the round that accepts that client.
    pub run_sync_crash :
        (rounds fd : ℕ) (rs : List (Option Bytes)) (os : List (Option ℕ)) (s : Server)
        (w : World fs.Disk)
        → (run_sync fs
            (suc rounds)
            s
            (record w { recvs = some (put_prefix ++ path) ∷ rs; opens = some fd ∷ os })).0
          ≡ throws invalid_argument
    unfolding run_sync sync_round serve_accepted ◌>>=◌ open_descriptor next_count
    run_sync_crash rounds fd rs os s w =
        rw (serve_no_length s.storage_path fd rs (record w { opens = os; opened = fd ∷ w.opened }))
