-- ===== src/Tests/Echoes.antt =====
-- The class TCPServer (TCPServer.cpp) on concrete runs, and the theorems at the same runs.
use network_all_in_one.Prelude.{◌++◌, ℕ, ◌≡◌, refl, true, List, [], ◌∷◌, some, arith}
use network_all_in_one.Text.{Bytes, ok, pos}
use network_all_in_one.Kernel.{World}
use network_all_in_one.Storage.Server.{sync}
use network_all_in_one.Storage.Loops.{ready, failed}
use network_all_in_one.Tcp.Echo.{TcpServer, Entry, waiting, NoData, run_main}
use network_all_in_one.Tcp.Echo.Leak.{run_main-Leaves}
use network_all_in_one.Tcp.Select.{sever_select}
use network_all_in_one.Tcp.Select.Unheard.{Unheard, sever_select-Unheard}
use network_all_in_one.Tcp.Poll.{through, is_ready, echo_pass, echo_polled, reported}
use network_all_in_one.Tcp.Poll.Steps.{Passes, echo_polled-Passes}
use network_all_in_one.Tcp.Poll.Skips.{echo_pass_skips}
use network_all_in_one.Tcp.Epoll.{epoll_echo_loop}
use network_all_in_one.Tcp.Poll.Answers.{echo_pass_answer}
use network_all_in_one.Tcp.Epoll.Answers.{Talk}
use network_all_in_one.Tcp.Epoll.Echoes.{
  Happening, joins, says, leaves, all_of, AllHappen, effects, said, epoll_echo_loop_echoes,
}
use network_all_in_one.Storage.Sender.Delivery.{received_by}

abbrev a : Bytes
a = b'a' ∷ []

-- A server that listens on the descriptor 3; the next connections are 4 and 5.
abbrev echo_server : TcpServer
echo_server = record {
  server_socket = some 3;
  client_sockets = [];
  server_type = sync;
  poll_fds = [];
}

abbrev net : World NoData
net = record {
  disk = tt;
  recvs = some a ∷ some [] ∷ [];
  sends = some 1 ∷ [];
  opens = some 4 ∷ some 5 ∷ [];
  statuses = true ∷ true ∷ true ∷ [];
  flags = λ fd. 0;
  watched = [];
  opened = 3 ∷ [];
  closed = [];
  sent = [];
}

run_main-Leaves_example :
    ((run_main net).0 ≡ ok (pos 0))
    × (((run_main net).1.opened ≡ 5 ∷ 4 ∷ 3 ∷ []) × ((run_main net).1.closed ≡ 4 ∷ []))
run_main-Leaves_example = run_main-Leaves 4 5 [] net refl

sever_select-Unheard_example :
    Unheard net (sever_select (ready (3 ∷ []) ∷ failed ∷ []) echo_server net).1
sever_select-Unheard_example =
    sever_select-Unheard (ready (3 ∷ []) ∷ failed ∷ []) echo_server net refl

abbrev entry : ℕ → Entry
entry n = record { fd = n; pollin = true }

abbrev polled_echo : TcpServer
polled_echo = record echo_server { poll_fds = entry 3 ∷ entry 4 ∷ [] }

echo_polled-Passes_example :
    Passes polled_echo []
      (reported (λ fd. true) polled_echo.poll_fds)
      net
      (echo_polled polled_echo (λ fd. true) net)
echo_polled-Passes_example = echo_polled-Passes polled_echo (λ fd. true) net

-- The client 4 ends its stream; the client 5, reported too, waits for the next pass, and 6 is
-- answered.
abbrev ended : World NoData
ended = record net { recvs = some [] ∷ some a ∷ some a ∷ []; sends = some 9 ∷ [] }

echo_pass_skips_example :
    echo_pass 3 polled_echo (entry 3 ∷ []) (entry 4 ∷ entry 5 ∷ entry 6 ∷ []) ended ≡ (
      ok (through (record polled_echo { poll_fds = entry 3 ∷ entry 5 ∷ entry 6 ∷ [] })),
      record ended { recvs = some a ∷ []; sends = []; sent = (6, a) ∷ []; closed = 4 ∷ [] },
    )
unfolding is_ready
echo_pass_skips_example =
    echo_pass_skips 2 polled_echo (entry 3 ∷ []) (entry 4) (entry 5)
      (record { client = 6; message = a; room = 9 } ∷ []) (some a ∷ []) [] ended refl refl
      (omega arith) ((refl, (omega arith, (omega arith, omega arith))), tt)

abbrev talks : List Talk
talks =
    (record { client = 4; message = a; room = 9 })
    ∷ (record { client = 5; message = b'b' ∷ a; room = 2 })
    ∷ []

-- Two clients connect, talk in turns, and one leaves.
abbrev four_says : Bytes → Happening
four_says bs = says (record { client = 4; message = bs; room = 9 })

abbrev five_says : Bytes → Happening
five_says bs = says (record { client = 5; message = bs; room = 9 })

abbrev reports : List (List Happening)
reports =
    (joins 4 ∷ [])
    ∷ (joins 5 ∷ four_says a ∷ [])
    ∷ (five_says (b'b' ∷ []) ∷ four_says (b'b' ∷ a) ∷ leaves 4 ∷ [])
    ∷ []

abbrev busy : World NoData
busy = record net {
  opens = some 4 ∷ some 5 ∷ [];
  statuses = true ∷ true ∷ [];
  recvs = some a ∷ some (b'b' ∷ []) ∷ some (b'b' ∷ a) ∷ some [] ∷ [];
  sends = some 9 ∷ some 9 ∷ some 9 ∷ [];
}

reports-AllHappen : AllHappen echo_server (all_of reports) busy
reports-AllHappen = (
  (refl, refl),
  (
    (refl, refl),
    (
      ((refl, (omega arith, (omega arith, omega arith))), refl, refl),
      (
        ((refl, (omega arith, (omega arith, omega arith))), refl, refl),
        (((refl, (omega arith, (omega arith, omega arith))), refl, refl), ((refl, refl), tt)),
      ),
    ),
  ),
)

epoll_echo_loop_echoes_example :
    (epoll_echo_loop
        (ready (3 ∷ []) ∷ ready (3 ∷ 4 ∷ []) ∷ ready (5 ∷ 4 ∷ 4 ∷ []) ∷ [])
        echo_server
        busy
      ≡ (ok (waiting echo_server), effects (all_of reports) busy))
    × ((fd : ℕ)
        → received_by fd (effects (all_of reports) busy).sent
          ≡ received_by fd busy.sent ++ said fd (all_of reports))
epoll_echo_loop_echoes_example =
    epoll_echo_loop_echoes echo_server 3 refl reports busy reports-AllHappen

echo_pass_answer_example :
    echo_pass 2 echo_server []
      (entry 4 ∷ entry 5 ∷ [])
      (record net { recvs = some a ∷ some (b'b' ∷ a) ∷ []; sends = some 9 ∷ some 2 ∷ [] })
    ≡ (
      ok (through (record echo_server { poll_fds = entry 4 ∷ entry 5 ∷ [] })),
      record net { recvs = []; sends = []; sent = (4, a) ∷ (5, b'b' ∷ a) ∷ [] },
    )
echo_pass_answer_example = echo_pass_answer echo_server talks 2 [] [] [] net (omega arith) (
  (refl, (omega arith, (omega arith, omega arith))),
  ((refl, (omega arith, (omega arith, omega arith))), tt),
)
