-- ===== src/Tests/Rounds.antt =====
-- A round of runPoll and one of runSelect (FileStorageServer.cpp) on the same report.
use network_all_in_one.Prelude.{
  ℕ, ◌≡◌, ◌==◌, if◌then◌else◌, refl, true, List, [], ◌∷◌, some, arith, contains, ◌||◌,
}
use network_all_in_one.Kernel
use network_all_in_one.Kernel.{World, pure, ◌>>=◌}
use network_all_in_one.Storage.Disk.{Files, memory}
use network_all_in_one.Storage.Server.{PollFd, sync, Revents, no_events}
use network_all_in_one.Storage.Loops.{has_event, poll_round, select_round}
use network_all_in_one.Storage.Loops.Poll.AsSelect.{polling, poll_round_as_select}
use network_all_in_one.Tests.Servers.{here, one_client}

-- The listening socket and the client 4 are reported; 6 connects.
abbrev both_of : ℕ → Revents
both_of fd = if fd == 3 || fd == 4 then record no_events { pollin = true } else no_events

both_agree : (fd : ℕ) → has_event (both_of fd) ≡ contains fd (3 ∷ 4 ∷ [])
unfolding has_event
both_agree fd = ground arith

abbrev six_connects : World Files
six_connects = record one_client { opens = some 6 ∷ []; opened = 4 ∷ 3 ∷ [] }

abbrev two_polled : List PollFd
two_polled =
    (record { fd = 4; revents = no_events }) ∷ (record { fd = 5; revents = no_events }) ∷ []

poll_round_as_select_example :
    (poll_round memory (polling memory 3 sync here (4 ∷ 5 ∷ []) two_polled) both_of >>= λ t.
    pure t.client_sockets)
      six_connects
    ≡ (select_round memory (polling memory 3 sync here (4 ∷ 5 ∷ []) two_polled) (3 ∷ 4 ∷ [])
          >>= λ t. pure t.client_sockets)
        six_connects
unfolding Kernel.next_count
poll_round_as_select_example =
    poll_round_as_select memory 3 sync here both_of (3 ∷ 4 ∷ []) both_agree two_polled six_connects
      (λ fd. ground arith) (refl, refl)
