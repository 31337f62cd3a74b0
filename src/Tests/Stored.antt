-- ===== src/Tests/Stored.antt =====
-- The storage server (FileStorageServer.cpp, main.cpp) for three clients: the first stores the file
-- "a", the second deletes the file "b", and the third gets "a".
use network_all_in_one.Prelude.{◌≡◌, refl, true, [], ◌∷◌, none, some}
use network_all_in_one.Text.{Bytes, ok, pos}
use network_all_in_one.Kernel.{World}
use network_all_in_one.Storage.Disk.{Files, memory, memory_laws}
use network_all_in_one.Storage.Disk.Names.{memory_names}
use network_all_in_one.Storage.Request.Wire.{put_wire}
use network_all_in_one.Storage.Handlers.Replies.{get_wire, delete_wire}
use network_all_in_one.Storage.Program.{
  Answers, main, parse_server_type, port_argument, mode_argument, path_argument,
}
use network_all_in_one.Storage.Spec.{delete}
use network_all_in_one.Storage.Spec.Sessions.{Client, Session}
use network_all_in_one.Storage.Spec.Program.{prepared, main-Session}
use network_all_in_one.Tests.Requests.{a_path, two, calm, flushed}
use network_all_in_one.Tests.Sessions.{clients, clients-AllDeliver, waiting}

abbrev b_path : Bytes
b_path = b'b' ∷ []

abbrev deleter : Client
deleter = record { fd = 6; command = delete b_path; stream = some (delete_wire b_path) ∷ [] }

abbrev three_wait : World Files
three_wait = record calm {
  sends = some 1 ∷ some 9 ∷ some 9 ∷ some 9 ∷ [];
  recvs =
      some (put_wire a_path two [])
      ∷ some (b'h' ∷ [])
      ∷ some (b'i' ∷ [])
      ∷ some (delete_wire b_path)
      ∷ some (get_wire a_path)
      ∷ [];
  opens = some 4 ∷ some 6 ∷ some 5 ∷ [];
}

-- Two rounds of the program, started without arguments.
abbrev two_rounds : Answers
two_rounds = record { rounds = 2; selects = []; polls = []; epolls = [] }

main-Session_example :
    (v : World Files) × (main memory [] two_rounds (record waiting {
      opens = some 3 ∷ some 4 ∷ some 5 ∷ [];
      statuses = true ∷ true ∷ true ∷ [];
    })
      ≡ (ok none, v))
    × Session memory memory_laws memory_names flushed
        (path_argument [])
        clients
        (prepared memory memory_laws memory_names flushed [] 3 true [] waiting
          (some 4 ∷ some 5 ∷ []))
        v
    × (v.recvs ≡ none ∷ [])
    × (v.opens ≡ [])
unfolding parse_server_type port_argument mode_argument
main-Session_example =
    main-Session memory memory_laws memory_names flushed [] 3 true [] (pos 8080) clients two_rounds
      (none ∷ []) [] waiting refl refl refl clients-AllDeliver refl
