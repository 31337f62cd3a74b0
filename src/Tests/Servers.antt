-- ===== src/Tests/Servers.antt =====
-- The loops and main of the storage server (FileStorageServer.cpp, main.cpp) on concrete runs, and the
-- theorems at the same runs.
use network_all_in_one.Prelude.{
  ℕ, ◌*◌, ◌+◌, ◌≡◌, ◌≢◌, ◌==◌, if◌then◌else◌, refl, true, false, List, [], ◌∷◌, ◌++◌, some, arith,
  length,
}
use network_all_in_one.Text.{
  Bytes, ok, throws, invalid_argument, negsuc, find, substr, stoi, starts_with,
}
use network_all_in_one.Kernel
use network_all_in_one.Kernel.{
  World, pure, lift, recv, send, open_descriptor, try_call, close, watch, unwatch, get_flags,
  set_flags,
}
use network_all_in_one.Kernel.Balance.{Even}
use network_all_in_one.Storage.Disk.{
  Files, memory, memory_flush, memory_open, memory_write, memory_remove, lookup,
}
use network_all_in_one.Storage.Request.{
  put_prefix, parse_put, resolve_path, is_empty, ends_in_slash,
}
use network_all_in_one.Storage.Request.Paths.{resolve_path_slash}
use network_all_in_one.Storage.Request.Wire.{put_wire}
use network_all_in_one.Storage.Reader.{read_request, begin_request, continue_request, receive_until}
use network_all_in_one.Storage.Handlers.{
  handle_request, get_file, put_file, delete_file, read_file, write_file, write_open, remove_file,
  ok_reply,
}
use network_all_in_one.Storage.Sender.{send_all, send_loop, after_send}
use network_all_in_one.Storage.Server.{
  Server, sync, async_epoll, Revents, no_events, serve, respond, close_client, remember, construct,
  destruct, server_bind, server_listen, set_server_blocking, set_socket_blocking, change_flags,
  with_nonblock,
}
use network_all_in_one.Storage.Server.Blocking.{Switched, set_socket_blocking-Switched}
use network_all_in_one.Storage.Loops.{
  Wait, interrupted, failed, ready, returned, run_sync, sync_round, serve_accepted, run_select,
  select_loop, select_round, accept_selected, serve_selected, remember_accepted, select_set, max_fd,
  selected, run_poll, poll_loop, poll_round, poll_pass, accept_polled, polled, push_poll,
  listener_entry, epoll_round, epoll_event, accept_watched,
}
use network_all_in_one.Storage.Loops.Ledger.{Balanced, run_select-Balanced}
use network_all_in_one.Storage.Loops.Sync.{Idle, run_sync-Idle}
use network_all_in_one.Storage.Loops.Poll.TwoVectors.{Synced, run_poll-Synced}
use network_all_in_one.Storage.Loops.Poll.Steps.{Passes, poll_round-Passes}
use network_all_in_one.Storage.Loops.Crash.{run_sync_crash}
use network_all_in_one.Storage.Program.{
  Answers, main, bound, listening, start, start_as, finish, exit_with, parse_server_type,
  port_argument, mode_argument, path_argument,
}
use network_all_in_one.Storage.Program.Exit.{main-Exited}

abbrev pub here : Bytes
here = b'.' ∷ []

abbrev put_a : Bytes
put_a = put_wire (b'a' ∷ []) (b'2' ∷ []) (b'h' ∷ b'i' ∷ [])

-- A server that listens on the descriptor 3.
abbrev pub idle_server : Server
idle_server = record {
  server_socket = some 3;
  server_type = sync;
  storage_path = here;
  client_sockets = [];
  poll_fds = [];
}

-- The client 4 connects, sends "PUT a 2 hi", and takes the answer.
abbrev pub one_client : World Files
one_client = record {
  disk = [];
  recvs = some put_a ∷ [];
  sends = some 2 ∷ [];
  opens = some 4 ∷ [];
  statuses = true ∷ true ∷ true ∷ true ∷ true ∷ [];
  flags = λ fd. 0;
  watched = [];
  opened = 3 ∷ [];
  closed = [];
  sent = [];
}

-- Opens what the runs compute with.
unfoldable pub runs : Unit {0}
unfolding run_sync sync_round serve_accepted run_select select_loop select_round accept_selected
    serve_selected remember_accepted select_set max_fd selected run_poll poll_loop poll_round
    poll_pass accept_polled polled push_poll listener_entry epoll_round epoll_event accept_watched
    serve respond close_client remember construct destruct server_bind server_listen
    set_server_blocking set_socket_blocking change_flags with_nonblock send_all send_loop after_send
    handle_request get_file put_file delete_file read_file write_file write_open remove_file
    read_request begin_request continue_request receive_until resolve_path parse_put find substr
    stoi starts_with memory_open memory_write memory_flush memory_remove lookup pure lift recv send
    open_descriptor try_call close watch unwatch get_flags set_flags Kernel.◌>>=◌ Kernel.next_count
    Kernel.next_bytes Kernel.next_status main bound listening start start_as finish exit_with
    parse_server_type port_argument mode_argument path_argument
runs = tt

-- A run of runSync stores the file, answers and closes.
abbrev pub served : World Files
served = record one_client {
  disk = (b'a' ∷ [], b'h' ∷ b'i' ∷ []) ∷ [];
  recvs = [];
  sends = [];
  opens = [];
  opened = 4 ∷ 3 ∷ [];
  closed = 4 ∷ [];
  sent = (4, ok_reply) ∷ [];
}

run_sync_runs : run_sync memory 1 idle_server one_client ≡ (ok idle_server, served)
unfolding runs
run_sync_runs = refl

run_sync-Idle_example : Idle [] idle_server served
run_sync-Idle_example =
    run_sync-Idle memory [] 1 idle_server idle_server one_client served ((λ fd. ground arith), refl)
      run_sync_runs

-- One select for the listening socket, and one for the client.
abbrev select_answers : List (Wait (List ℕ))
select_answers = ready (3 ∷ []) ∷ interrupted ∷ ready (4 ∷ []) ∷ failed ∷ []

-- What a loop leaves that makes the listening socket non-blocking first.
abbrev switched : World Files
switched = record served {
  statuses = true ∷ true ∷ true ∷ [];
  flags = λ x. if x == 3 then 2048 else 0;
}

run_select_runs :
    run_select memory select_answers idle_server one_client
    ≡ (ok (returned (negsuc 0) idle_server), switched)
unfolding runs
run_select_runs = refl

run_select-Balanced_example : Balanced [] idle_server switched
run_select-Balanced_example =
    run_select-Balanced memory [] select_answers idle_server (returned (negsuc 0) idle_server)
      one_client switched (λ fd. ground arith) run_select_runs

-- poll reports by descriptor: the listening socket first, then the client.
abbrev report_of : ℕ → ℕ → Revents
report_of reported fd = if fd == reported then record no_events { pollin = true } else no_events

abbrev poll_answers : List (Wait (ℕ → Revents))
poll_answers = ready (report_of 3) ∷ ready (report_of 4) ∷ failed ∷ []

abbrev polled_server : Server
polled_server = record idle_server { poll_fds = (record { fd = 3; revents = no_events }) ∷ [] }

run_poll_runs :
    run_poll memory poll_answers idle_server one_client
    ≡ (ok (returned (negsuc 0) polled_server), switched)
unfolding runs
run_poll_runs = refl

run_poll-Synced_example : Synced memory [] polled_server switched
run_poll-Synced_example =
    run_poll-Synced memory [] poll_answers idle_server (returned (negsuc 0) polled_server)
      one_client switched ((λ fd. ground arith), refl) run_poll_runs

poll_round-Passes_example :
    Passes memory polled_server [] (polled (report_of 3) polled_server.poll_fds) one_client (
      poll_pass memory
        (2 * length polled_server.poll_fds + 1)
        polled_server
        []
        (polled (report_of 3) polled_server.poll_fds)
        one_client)
poll_round-Passes_example = poll_round-Passes memory polled_server (report_of 3) one_client

run_sync_crash_example :
    (run_sync memory 1 idle_server
      (record one_client { recvs = some (put_prefix ++ (b'a' ∷ [])) ∷ []; opens = some 4 ∷ [] })).0
    ≡ throws invalid_argument
run_sync_crash_example =
    run_sync_crash (b'a' ∷ []) (omega arith) (omega arith) memory 0 4 [] [] idle_server one_client

-- main with the arguments "80" and "select": the loop runs until its second select fails.
abbrev select_arguments : List Bytes
select_arguments = (b'8' ∷ b'0' ∷ []) ∷ (b's' ∷ b'e' ∷ b'l' ∷ b'e' ∷ b'c' ∷ b't' ∷ []) ∷ []

abbrev answers : Answers
answers = record { rounds = 0; selects = interrupted ∷ failed ∷ []; polls = []; epolls = [] }

abbrev boot : World Files
boot = record one_client { opens = some 3 ∷ []; opened = [] }

abbrev halted : World Files
halted = record boot {
  opens = [];
  statuses = [];
  flags = λ x. if x == 3 then 2048 else 0;
  opened = 3 ∷ [];
  closed = 3 ∷ [];
}

main_runs : main memory select_arguments answers boot ≡ (ok (some (negsuc 0)), halted)
unfolding runs
main_runs = refl

select_mode : parse_server_type (mode_argument select_arguments) ≢ async_epoll
unfolding runs
select_mode e = cc

main-Exited_example : Even [] [] halted
main-Exited_example =
    main-Exited memory select_arguments answers (negsuc 0) boot halted select_mode
      (λ fd. ground arith) main_runs

set_socket_blocking-Switched_example :
    Switched 3 false one_client (set_socket_blocking 3 false one_client)
set_socket_blocking-Switched_example = set_socket_blocking-Switched 3 false one_client

abbrev directory : Bytes
directory = b'd' ∷ b'/' ∷ b'e' ∷ []

resolve_path_slash_example :
    (resolve_path (directory ++ b'/' ∷ []) (b'a' ∷ []) ≡ resolve_path directory (b'a' ∷ []))
    × (resolve_path directory (b'a' ∷ []) ≡ directory ++ b'/' ∷ b'a' ∷ [])
unfolding is_empty ends_in_slash
resolve_path_slash_example =
    resolve_path_slash directory (b'a' ∷ []) refl (ground arith) (ground arith)
