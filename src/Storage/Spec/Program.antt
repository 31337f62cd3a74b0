-- ===== src/Storage/Spec/Program.antt =====
-- main of main.cpp against the specification of the service: from the command line to the clients.
use network_all_in_one.Prelude.{
  ℕ, Bool, true, ◌≡◌, refl, List, ◌∷◌, ◌++◌, Option, some, none, length,
}
use network_all_in_one.Text.{Bytes, ok, ℤ}
use network_all_in_one.Kernel.{
  World, pure, lift, open_descriptor, try_call, next_count, next_status, ◌>>=◌,
}
use network_all_in_one.Storage.Disk.{FileSystem, FileSystemLaws}
use network_all_in_one.Storage.Disk.Names.{FileNames}
use network_all_in_one.Storage.Server.{
  sync, fresh, set_up, make_storage, construct, server_bind, server_listen,
}
use network_all_in_one.Storage.Program.{
  Answers, main, bound, listening, start, start_as, finish, parse_server_type, port_argument,
  mode_argument, path_argument,
}
use network_all_in_one.Storage.Spec.Sessions.{Client, streams, accepts, AllDeliver, Session}
use network_all_in_one.Storage.Spec.Sessions.Sync.{run_sync-Session}

module _ (fs : FileSystem) (laws : FileSystemLaws fs) (names : FileNames fs)
    (flushed : (d : fs.Disk) (p : Bytes) → (fs.flush d p).1 ≡ true) (arguments : List Bytes)
    (listener : ℕ) (reuse : Bool) (ss : List Bool) where
  -- The storage directory of the command line.
  abbrev pub storage : Bytes
  storage = path_argument arguments

  -- The world behind the constructor, bind and listen.
  abbrev pub prepared : World fs.Disk → List (Option ℕ) → World fs.Disk
  prepared w os = record w {
    disk = fs.create_directories w.disk storage;
    opens = os;
    statuses = ss;
    opened = listener ∷ w.opened;
  }

  -- The program in sync mode, where socket, bind and listen succeed and the port on the command
  -- line is a number: the clients come one after the other, each with a whole command of the
  -- protocol, and no flush of a file fails. It makes the storage directory and then answers every
  -- client in its turn by a reply that the specification allows over the files that the one before
  -- it left; it throws nothing, and it still runs behind the last of them. To be answered is to be
  -- sent the whole reply, or a proper part of it where the kernel then refused a send; nothing else
  -- is sent.
  pub main-Session :
      (port : ℤ) (clients : List Client) (answers : Answers) (more : List (Option Bytes))
      (os : List (Option ℕ)) (w : World fs.Disk)
      → parse_server_type (mode_argument arguments) ≡ sync
      → port_argument arguments ≡ ok port
      → answers.rounds ≡ length clients
      → AllDeliver clients
      → w.recvs ≡ streams clients ++ more
      → (v : World fs.Disk) × (main fs arguments answers (record w {
        opens = some listener ∷ (accepts clients ++ os);
        statuses = reuse ∷ true ∷ true ∷ ss;
      })
          ≡ (ok none, v))
        × Session fs laws names flushed storage clients (prepared w (accepts clients ++ os)) v
        × (v.recvs ≡ more)
        × (v.opens ≡ os)
  unfolding main construct set_up make_storage server_bind server_listen bound listening start
      start_as finish open_descriptor try_call lift pure next_count next_status ◌>>=◌
  main-Session port clients answers more os w mode number rounds d e =
      let (v, x, s, e1, o1) =
        run_sync-Session fs laws names flushed (fresh fs (some listener) sync storage) refl clients
          more os (prepared w (accepts clients ++ os)) d e refl in
      (v, rw (number, mode, rounds, x) refl, s, e1, o1)
