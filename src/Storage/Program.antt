-- ===== src/Storage/Program.antt =====
-- start of FileStorageServer.cpp, and main.cpp of C++/Lecture 4, Simple File Storage.
pub mod Exit
use network_all_in_one.Prelude.{ℕ, List, [], ◌∷◌, Option, none, some, bytes_eq, if◌then◌else◌}
use network_all_in_one.Text.{Bytes, Result, ok, ℤ, pos, negsuc, stoi}
use network_all_in_one.Kernel.{Io, pure, lift, ◌>>=◌, ◌>>◌}
use network_all_in_one.Storage.Disk.{FileSystem}
use network_all_in_one.Storage.Server.{
  Server, ServerType, sync, async_select, async_poll, async_epoll, Revents, construct, destruct,
  server_bind, server_listen,
}
use network_all_in_one.Storage.Loops.{
  Wait, Progress, looping, returned, run_sync, run_select, run_poll, run_epoll,
}

-- What the kernel answers to the waiting calls of the loop that runs; the blocking loop has rounds.
pub record Answers : Type 0 where
  pub rounds : ℕ
  pub selects : List (Wait (List ℕ))
  pub polls : List (Wait (ℕ → Revents))
  pub epolls : List (Wait (List ℕ))

abbrev select_word : Bytes
select_word = b's' ∷ b'e' ∷ b'l' ∷ b'e' ∷ b'c' ∷ b't' ∷ []

abbrev poll_word : Bytes
poll_word = b'p' ∷ b'o' ∷ b'l' ∷ b'l' ∷ []

abbrev epoll_word : Bytes
epoll_word = b'e' ∷ b'p' ∷ b'o' ∷ b'l' ∷ b'l' ∷ []

abbrev sync_word : Bytes
sync_word = b's' ∷ b'y' ∷ b'n' ∷ b'c' ∷ []

-- "./storage"
abbrev default_path : Bytes
default_path = b'.' ∷ b'/' ∷ b's' ∷ b't' ∷ b'o' ∷ b'r' ∷ b'a' ∷ b'g' ∷ b'e' ∷ []

-- parseServerType
unfoldable pub parse_server_type : Bytes → ServerType
parse_server_type mode =
    if bytes_eq mode select_word
    then async_select
    else if bytes_eq mode poll_word
    then async_poll
    else if bytes_eq mode epoll_word
    then async_epoll
    else sync

-- The three arguments of the command line and their defaults.
unfoldable pub port_argument : List Bytes → Result ℤ
port_argument [] = ok (pos 8080)
port_argument (port ∷ rest) = stoi port

unfoldable pub mode_argument : List Bytes → Bytes
mode_argument [] = sync_word
mode_argument (port ∷ []) = sync_word
mode_argument (port ∷ mode ∷ rest) = mode

unfoldable pub path_argument : List Bytes → Bytes
path_argument [] = default_path
path_argument (port ∷ []) = default_path
path_argument (port ∷ mode ∷ []) = default_path
path_argument (port ∷ mode ∷ path ∷ rest) = path

module _ (fs : FileSystem) where
  open fs use {Disk}

  -- start, by the type of the server. runSync never returns.
  unfoldable pub start_as : ServerType → Answers → Server → Io Disk Progress
  start_as sync answers s = do s' ← run_sync fs answers.rounds s; pure (looping s')
  start_as async_select answers s = run_select fs answers.selects s
  start_as async_poll answers s = run_poll fs answers.polls s
  start_as async_epoll answers s = run_epoll fs answers.epolls s

  unfoldable pub start : Answers → Server → Io Disk Progress
  start answers s = start_as s.server_type answers s

  -- A return from main with this number, behind the destructor of the server.
  unfoldable pub exit_with : ℤ → Server → Io Disk (Option ℤ)
  exit_with code s = do destruct s; pure (some code)

  unfoldable pub finish : Progress → Io Disk (Option ℤ)
  finish (looping s) = pure none
  finish (returned code s) = exit_with code s

  -- The rest of main behind server_listen and behind server_bind.
  unfoldable pub listening : Answers → Server → ℤ → Io Disk (Option ℤ)
  listening answers s (pos n) = do progress ← start answers s; finish progress
  listening answers s (negsuc n) = exit_with (pos 1) s

  unfoldable pub bound : Answers → Server → ℤ → Io Disk (Option ℤ)
  bound answers s (pos n) = do status ← server_listen s; listening answers s status
  bound answers s (negsuc n) = exit_with (pos 1) s

  -- main: the exit code, or `none` where the server still runs when the answers end.
  unfoldable pub main : List Bytes → Answers → Io Disk (Option ℤ)
  main arguments answers = do
    port ← lift (port_argument arguments)
    s ← construct fs (parse_server_type (mode_argument arguments)) (path_argument arguments)
    status ← server_bind s
    bound answers s status
