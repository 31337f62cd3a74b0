-- ===== src/Tests/Epolls.antt =====
-- The loop of runEpoll (FileStorageServer.cpp) on concrete runs, and the theorems at the same runs.
use network_all_in_one.Prelude.{ℕ, ◌≡◌, refl, true, List, [], ◌∷◌, arith}
use network_all_in_one.Text.{ok, negsuc}
use network_all_in_one.Kernel.{World}
use network_all_in_one.Storage.Disk.{Files, memory}
use network_all_in_one.Storage.Server.{Server}
use network_all_in_one.Storage.Loops.{Wait, ready, failed, returned, epoll_round, epoll_loop}
use network_all_in_one.Storage.Loops.Epoll.Run.{Stands, epoll_loop-Balanced}
use network_all_in_one.Tests.Servers.{idle_server, one_client, served, runs}

-- The events of runEpoll, for a server that holds the client 4.
abbrev holding : Server
holding = record idle_server { client_sockets = 4 ∷ [] }

abbrev held_client : World Files
held_client = record one_client { opens = []; opened = 4 ∷ 3 ∷ []; watched = 4 ∷ 3 ∷ [] }

abbrev released : World Files
released = record served { statuses = true ∷ true ∷ true ∷ true ∷ []; watched = 3 ∷ [] }

epoll_round_runs : epoll_round memory holding (4 ∷ []) held_client ≡ (ok idle_server, released)
unfolding runs
epoll_round_runs = refl

-- The loop with the epoll instance 9: one report, and then a failure.
abbrev epoll_answers : List (Wait (List ℕ))
epoll_answers = ready (4 ∷ []) ∷ failed ∷ []

abbrev watching : World Files
watching = record held_client { opened = 9 ∷ 4 ∷ 3 ∷ [] }

abbrev ended : World Files
ended = record released { opened = 9 ∷ 4 ∷ 3 ∷ []; closed = 9 ∷ 4 ∷ [] }

epoll_loop_runs :
    epoll_loop memory 9 epoll_answers holding watching
    ≡ (ok (returned (negsuc 0) idle_server), ended)
unfolding runs epoll_loop
epoll_loop_runs = refl

epoll_loop-Balanced_example : Stands memory [] 9 (returned (negsuc 0) idle_server) ended
epoll_loop-Balanced_example =
    epoll_loop-Balanced memory [] 9 epoll_answers holding (returned (negsuc 0) idle_server) watching
      ended ((λ fd e. ground arith), (λ s v e. tt)) (λ fd. ground arith) epoll_loop_runs
