-- ===== src/Tests/Polls.antt =====
-- The loop of runPoll (FileStorageServer.cpp) for two clients with events and one without, and a
-- connection.
use network_all_in_one.Prelude.{ℕ, refl, true, ◌||◌, ◌==◌, if◌then◌else◌, [], ◌∷◌, none, some}
use network_all_in_one.Storage.Disk.{memory, memory_laws}
use network_all_in_one.Storage.Disk.Names.{memory_names}
use network_all_in_one.Storage.Server.{PollFd, Revents, no_events, async_poll}
use network_all_in_one.Storage.Loops.{has_event}
use network_all_in_one.Storage.Spec.Sessions.PollPasses.{passing}
use network_all_in_one.Storage.Spec.Sessions.PollTurns.{PollTurn, IsPollTurn}
use network_all_in_one.Storage.Spec.Sessions.PollLoop.{Outcome, poll_loop-Session}
use network_all_in_one.Tests.Requests.{storage, flushed}
use network_all_in_one.Tests.Sessions.{waiting, clients-AllDeliver, held}

abbrev events_of : ℕ → Revents
events_of fd =
    if fd == 3 || fd == 4 || fd == 5 then record no_events { pollin = true } else no_events

abbrev turn : PollTurn
turn = record { report = events_of; connection = some (some 7); held = held }

turn-IsPollTurn : IsPollTurn 3 (4 ∷ 6 ∷ 5 ∷ []) turn
unfolding has_event
turn-IsPollTurn = record {
  holds = refl;
  listens = refl;
  told = ((refl, refl), (refl, ((refl, refl), tt)));
  deliver = clients-AllDeliver;
}

abbrev entry : ℕ → PollFd
entry fd = record { fd = fd; revents = no_events }

poll_loop-Session_example :
    Outcome memory memory_laws memory_names flushed 3 async_poll storage
      (none ∷ some turn ∷ [])
      (passing memory memory_laws memory_names flushed 3 async_poll storage
        (entry 3 ∷ entry 4 ∷ entry 6 ∷ entry 5 ∷ [])
        (4 ∷ 6 ∷ 5 ∷ []))
      (4 ∷ 6 ∷ 5 ∷ [])
      (none ∷ [])
      []
      (record waiting { opens = some 7 ∷ [] })
poll_loop-Session_example =
    poll_loop-Session memory memory_laws memory_names flushed 3 async_poll storage
      (none ∷ some turn ∷ []) (entry 3) (entry 4 ∷ entry 6 ∷ entry 5 ∷ []) (4 ∷ 6 ∷ 5 ∷ [])
      (none ∷ []) [] (record waiting { opens = some 7 ∷ [] }) refl (turn-IsPollTurn, tt) refl refl
