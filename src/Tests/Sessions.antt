-- ===== src/Tests/Sessions.antt =====
-- The specification of the storage service (FileStorageServer.cpp): its theorems for two clients, the
-- first of which stores the file "a" that the second gets.
use network_all_in_one.Prelude.{◌≡◌, refl, [], ◌∷◌, none, some, arith, List}
use network_all_in_one.Text.{ok}
use network_all_in_one.Kernel.{World}
use network_all_in_one.Storage.Disk.{Files, memory, memory_laws}
use network_all_in_one.Storage.Disk.Names.{memory_names}
use network_all_in_one.Storage.Request.Wire.{put_wire}
use network_all_in_one.Storage.Handlers.{handle_request}
use network_all_in_one.Storage.Handlers.Replies.{get_wire}
use network_all_in_one.Storage.Server.{Server, sync, async_select, async_epoll}
use network_all_in_one.Storage.Loops.{run_sync, epoll_loop, looping}
use network_all_in_one.Storage.Spec.{get, put}
use network_all_in_one.Storage.Spec.Handler.{Refines, handle_request-Refines}
use network_all_in_one.Storage.Spec.Clients.{in_one_get, in_pieces}
use network_all_in_one.Storage.Spec.Sessions.{Client, Session, AllDeliver}
use network_all_in_one.Storage.Spec.Sessions.Sync.{run_sync-Session}
use network_all_in_one.Storage.Spec.Sessions.Select
use network_all_in_one.Storage.Spec.Sessions.Select.{Held}
use network_all_in_one.Storage.Spec.Sessions.SelectTurns.{Turn}
use network_all_in_one.Storage.Spec.Sessions.SelectLoop
use network_all_in_one.Storage.Spec.Sessions.SelectLoop.{IsTurn, select_loop-Session}
use network_all_in_one.Storage.Spec.Sessions.Epoll
use network_all_in_one.Storage.Spec.Sessions.Epoll.{Event, holding}
use network_all_in_one.Storage.Spec.Sessions.Series.{answers}
use network_all_in_one.Storage.Spec.Sessions.EpollLoop.{epoll_loop-Session}
use network_all_in_one.Tests.Requests.{
  a_path, two, hi, storage, calm, flushed, a-IsPut, a-IsDelivered,
}

handle_request-Refines_example :
    Refines memory memory_laws memory_names storage flushed
      (put a_path two hi)
      calm
      (handle_request memory storage (put_wire a_path two hi) calm)
handle_request-Refines_example =
    handle_request-Refines memory memory_laws memory_names storage flushed (put a_path two hi) calm
      a-IsPut

abbrev pub writer : Client
writer = record {
  fd = 4;
  command = put a_path two hi;
  stream = some (put_wire a_path two []) ∷ some (b'h' ∷ []) ∷ some (b'i' ∷ []) ∷ [];
}

abbrev pub reader : Client
reader = record { fd = 5; command = get a_path; stream = some (get_wire a_path) ∷ [] }

abbrev pub clients : List Client
clients = writer ∷ reader ∷ []

pub clients-AllDeliver : AllDeliver clients
clients-AllDeliver = (
  in_pieces a_path two [] ((b'h' ∷ []) ∷ (b'i' ∷ []) ∷ []) hi a-IsDelivered,
  (in_one_get a_path (omega arith), tt),
)

abbrev pub listening : Server
listening = record {
  server_socket = some 3;
  server_type = sync;
  storage_path = storage;
  client_sockets = [];
  poll_fds = [];
}

abbrev pub waiting : World Files
waiting = record calm {
  sends = some 1 ∷ some 9 ∷ some 9 ∷ [];
  recvs =
      some (put_wire a_path two [])
      ∷ some (b'h' ∷ [])
      ∷ some (b'i' ∷ [])
      ∷ some (get_wire a_path)
      ∷ none
      ∷ [];
  opens = some 4 ∷ some 5 ∷ none ∷ [];
}

run_sync-Session_example :
    (v : World Files) × (run_sync memory 2 listening waiting ≡ (ok listening, v))
    × Session memory memory_laws memory_names flushed storage clients waiting v
    × (v.recvs ≡ none ∷ [])
    × (v.opens ≡ none ∷ [])
run_sync-Session_example =
    run_sync-Session memory memory_laws memory_names flushed listening refl clients (none ∷ [])
      (none ∷ []) waiting clients-AllDeliver refl refl

-- The client 6 waits between the two.
abbrev pub held : List Held
held = Select.asks writer ∷ Select.waits 6 ∷ Select.asks reader ∷ []

-- A report of the listening socket, on which 7 connects, and of the two; then an interruption.
abbrev turn : Turn
turn = record { report = 3 ∷ 5 ∷ 4 ∷ []; connection = some (some 7); held = held }

turn-IsTurn : IsTurn 3 (4 ∷ 6 ∷ 5 ∷ []) turn
turn-IsTurn = record {
  holds = refl;
  fit = omega arith;
  listens = refl;
  reports = (refl, (refl, (refl, tt)));
  deliver = clients-AllDeliver;
  fresh = refl;
}

select_loop-Session_example :
    SelectLoop.Outcome memory memory_laws memory_names flushed 3 async_select storage []
      (some turn ∷ none ∷ [])
      (4 ∷ 6 ∷ 5 ∷ [])
      (none ∷ [])
      []
      (record waiting { opens = some 7 ∷ [] })
select_loop-Session_example =
    select_loop-Session memory memory_laws memory_names flushed 3 async_select storage []
      (some turn ∷ none ∷ []) (4 ∷ 6 ∷ 5 ∷ []) (none ∷ []) []
      (record waiting { opens = some 7 ∷ [] }) (turn-IsTurn, (omega arith, tt)) refl refl

-- The client 7 connects between the two.
abbrev events : List Event
events = Epoll.asks writer ∷ Epoll.connects (some 7) ∷ Epoll.asks reader ∷ []

-- An interruption, and then two reports.
epoll_loop-Session_example :
    (v : World Files) × (epoll_loop memory 9
        (answers (Epoll.numbers 3) (none ∷ some events ∷ some [] ∷ []))
        (holding memory memory_laws memory_names flushed 3 async_epoll storage [] (4 ∷ 5 ∷ 6 ∷ []))
        (record waiting { opens = some 7 ∷ [] })
      ≡ (
        ok (
            looping (
              holding memory memory_laws memory_names flushed 3 async_epoll storage []
                (6 ∷ 7 ∷ []))),
        v,
      ))
    × Session memory memory_laws memory_names flushed storage clients
        (record waiting { opens = some 7 ∷ [] })
        v
    × (v.recvs ≡ none ∷ [])
    × (v.opens ≡ [])
epoll_loop-Session_example =
    epoll_loop-Session memory memory_laws memory_names flushed 3 async_epoll storage [] 9
      (none ∷ some events ∷ some [] ∷ []) (4 ∷ 5 ∷ 6 ∷ []) (none ∷ []) []
      (record waiting { opens = some 7 ∷ [] })
      ((refl, (refl, tt)), clients-AllDeliver, (tt, tt, tt)) refl refl
