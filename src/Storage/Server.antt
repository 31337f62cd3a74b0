-- ===== src/Storage/Server.antt =====
-- The object FileStorageServer: its fields, constructor, destructor, bind and listen, and what the
-- four loops have in common (FileStorageServer.h, FileStorageServer.cpp; the server types and
-- set_socket_blocking are those of C++/Lecture 3, OOP Refactor/TCPServer.h).
pub mod Quiet
pub mod Blocking
use network_all_in_one.Prelude.{
  ℕ, ◌+◌, ◌-◌, ◌/◌, ◌%◌, Bool, true, false, List, [], ◌∷◌, ◌++◌, Option, none, some, erase, ◌==◌,
  if◌then◌else◌,
}
use network_all_in_one.Text.{Bytes, ℤ, pos, negsuc, ok}
use network_all_in_one.Kernel.{
  Io, pure, open_descriptor, try_call, close, get_flags, set_flags, ◌>>=◌, ◌>>◌,
}
use network_all_in_one.Storage.Disk.{FileSystem}
use network_all_in_one.Storage.Reader.{read_request}
use network_all_in_one.Storage.Handlers.{handle_request}
use network_all_in_one.Storage.Sender.{send_all}

pub data ServerType : Type 0 where
  sync async_select async_poll async_epoll : ServerType

-- The bits of revents that the program tests; any other bit leaves all three false.
pub record Revents : Type 0 where
  pub pollin : Bool
  pub pollhup : Bool
  pub pollerr : Bool

abbrev pub no_events : Revents
no_events = record { pollin = false; pollhup = false; pollerr = false }

-- struct pollfd; its field `events` is POLLIN throughout.
pub record PollFd : Type 0 where
  pub fd : ℕ
  pub revents : Revents

-- `none` is the descriptor -1.
pub record Server : Type 0 where
  pub server_socket : Option ℕ
  pub server_type : ServerType
  pub storage_path : Bytes
  pub client_sockets : List ℕ
  pub poll_fds : List PollFd

-- fd == serverSocket_
abbrev pub is_server : Option ℕ → ℕ → Bool
is_server none fd = false
is_server (some listener) fd = fd == listener

-- clientSockets_.push_back(fd)
unfoldable pub remember : Server → ℕ → Server
remember s fd = record s { client_sockets = s.client_sockets ++ fd ∷ [] }

-- The bit O_NONBLOCK of the status flags.
abbrev pub nonblock_bit : ℕ
nonblock_bit = 2048

-- flags | O_NONBLOCK and flags & ~O_NONBLOCK
unfoldable pub with_nonblock : ℕ → ℕ
with_nonblock flags = if (flags / nonblock_bit) % 2 == 0 then flags + nonblock_bit else flags

unfoldable pub without_nonblock : ℕ → ℕ
without_nonblock flags = if (flags / nonblock_bit) % 2 == 0 then flags else flags - nonblock_bit

abbrev pub status : Bool → ℤ
status true = pos 0
status false = negsuc 0

module _ {D : Type 0} where
  unfoldable pub change_flags : ℕ → Bool → Option ℕ → Io D ℤ
  change_flags fd blocking none = pure (negsuc 0)
  change_flags fd blocking (some flags) = do
    fine ← set_flags fd (if blocking then without_nonblock flags else with_nonblock flags)
    pure (status fine)

  -- set_socket_blocking
  unfoldable pub set_socket_blocking : ℕ → Bool → Io D ℤ
  unfolding change_flags
  set_socket_blocking fd blocking = do flags ← get_flags fd; change_flags fd blocking flags

  -- On the descriptor -1 the first fcntl fails.
  unfoldable pub set_server_blocking : Option ℕ → Bool → Io D ℤ
  set_server_blocking none blocking = pure (negsuc 0)
  set_server_blocking (some fd) blocking = set_socket_blocking fd blocking

  -- server_bind and server_listen: one system call each, and its failure is -1.
  unfoldable pub server_bind : Server → Io D ℤ
  server_bind s = do fine ← try_call; pure (status fine)

  unfoldable pub server_listen : Server → Io D ℤ
  server_listen s = do fine ← try_call; pure (status fine)

  -- closeClient
  unfoldable pub close_client : ℕ → Server → Io D Server
  close_client fd s = do close fd; pure (record s { client_sockets = erase fd s.client_sockets })

  unfoldable pub close_all : List ℕ → Io D (Unit {0})
  close_all [] = pure tt
  close_all (fd ∷ fds) = let rest = close_all fds in close fd >> rest

  unfoldable pub close_listener : Option ℕ → Io D (Unit {0})
  close_listener none = pure tt
  close_listener (some fd) = close fd

  -- ~FileStorageServer
  unfoldable pub destruct : Server → Io D (Unit {0})
  unfolding close_all close_listener
  destruct s = do close_all s.client_sockets; close_listener s.server_socket

module _ (fs : FileSystem) where
  open fs use {Disk, create_directories}

  abbrev pub fresh : Option ℕ → ServerType → Bytes → Server
  fresh fd server_type storage_path = record {
    server_socket = fd;
    server_type = server_type;
    storage_path = storage_path;
    client_sockets = [];
    poll_fds = [];
  }

  unfoldable pub make_storage : Bytes → Io Disk (Unit {0})
  make_storage storage_path w = (ok tt, record w { disk = create_directories w.disk storage_path })

  unfoldable pub set_up : ServerType → Bytes → Option ℕ → Io Disk Server
  set_up server_type storage_path none = pure (fresh none server_type storage_path)
  set_up server_type storage_path (some fd) = do
    reuse ← try_call
    make_storage storage_path
    pure (fresh (some fd) server_type storage_path)

  -- FileStorageServer(domain, serverType, storagePath)
  unfoldable pub construct : ServerType → Bytes → Io Disk Server
  unfolding set_up make_storage
  construct server_type storage_path = do fd ← open_descriptor; set_up server_type storage_path fd

  unfoldable pub respond : Bytes → ℕ → Bytes → Io Disk (Unit {0})
  respond storage_path fd [] = pure tt
  respond storage_path fd (b ∷ bs) = do
    response ← handle_request fs storage_path (b ∷ bs)
    sent ← send_all fd response
    pure tt

  -- What each loop does for a client before it closes it: read the request, and answer it unless it
  -- is empty.
  unfoldable pub serve : Bytes → ℕ → Io Disk (Unit {0})
  unfolding respond
  serve storage_path fd = do request ← read_request fd; respond storage_path fd request
