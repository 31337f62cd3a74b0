-- ===== src/Tests/Clients.antt =====
-- The clients of Lecture 1 (SyncTcpClient.cpp, SyncUdpClient.cpp) and of Lecture 2
-- (TCPClient_select.cpp, TCPClient_poll.cpp, TCPClient_epoll.cpp) on concrete runs, and the theorems at
-- the same runs.
use network_all_in_one.Prelude.{
  ◌≡◌, refl, true, false, [], ◌∷◌, ◌++◌, some, if◌then◌else◌, ◌==◌, arith,
}
use network_all_in_one.Text.{Bytes, ok, pos}
use network_all_in_one.Kernel
use network_all_in_one.Kernel.{
  World, pure, lift, recv, send, close, open_descriptor, try_call, watch, get_flags, set_flags,
}
use network_all_in_one.Storage.Server.{with_nonblock}
use network_all_in_one.Storage.Sender.Delivery.{received_by}
use network_all_in_one.Tcp.Echo.{NoData}
use network_all_in_one.Async.Select.{c_string}
use network_all_in_one.Basic.{
  echo_prefix, buffer_text, answer_client, accept_client, serve_bound, tcp_main, answered,
  echo_datagram, serve_datagram, udp_main,
}
use network_all_in_one.Basic.Clients.{
  Exit, silent, hello_world, talk, connect_tcp, tcp_client, hello_udp, close_with, after_recvfrom,
  after_sendto, send_datagram, udp_client,
}
use network_all_in_one.Basic.Clients.Exchange.{
  smooth, IsTcpExchange, IsUdpExchange, tcp_client_hears, udp_client_hears,
}
use network_all_in_one.Async.Clients.{hello_client, connected, in_progress, stack_text, show_reply}
use network_all_in_one.Async.Clients.Select.{show_message, say_hello, connect_select, select_client}
use network_all_in_one.Async.Clients.Select.Leaves.{OpenOnSuccess, select_client-OpenOnSuccess}
use network_all_in_one.Async.Clients.Poll.{poll_client, reported}
use network_all_in_one.Async.Clients.Poll.Prints.{stops, poll_client_prints}
use network_all_in_one.Async.Clients.Epoll
use network_all_in_one.Async.Clients.Epoll.{Ready, epoll_client, hello_server}
use network_all_in_one.Async.Clients.Epoll.Leaves.{OneOpen, epoll_client-OneOpen}
use network_all_in_one.Tests.Basics.{hi, start}

-- The two sides of an exchange of Lecture 1.
abbrev echoed : Bytes
echoed = echo_prefix ++ hello_world

client_asks : IsTcpExchange 3 4 5 100 200 start start hello_world echoed
unfolding tcp_client connect_tcp talk tcp_main serve_bound accept_client answer_client buffer_text
    c_string recv send close lift pure open_descriptor try_call received_by Kernel.◌>>=◌
    Kernel.next_count Kernel.next_bytes Kernel.next_status
client_asks = record { requested = refl; replied = refl }

tcp_client_hears_example :
    ((tcp_client (smooth (some 3 ∷ []) (true ∷ []) 100 echoed start)).0
      ≡ ok (record { code = pos 0; printed = echoed ∷ [] }))
    × ((tcp_main (smooth (some 4 ∷ some 5 ∷ []) (true ∷ true ∷ []) 200 hello_world start)).0
        ≡ ok (pos 0))
tcp_client_hears_example =
    tcp_client_hears 3 4 5 100 200 start start (omega arith) (omega arith) hello_world echoed
      client_asks

datagram_asks : IsUdpExchange 3 4 100 200 start start hello_udp hello_udp
unfolding udp_client send_datagram after_sendto after_recvfrom close_with udp_main serve_datagram
    echo_datagram answered buffer_text c_string recv send close lift pure open_descriptor try_call
    received_by Kernel.◌>>=◌ Kernel.next_count Kernel.next_bytes Kernel.next_status
datagram_asks = record { requested = refl; replied = refl }

udp_client_hears_example :
    ((udp_client (smooth (some 3 ∷ []) (true ∷ []) 100 hello_udp start)).0 ≡ ok (silent (pos 0)))
    × ((udp_main (smooth (some 4 ∷ []) (true ∷ []) 200 hello_udp start)).0 ≡ ok (pos 0))
    × (hello_udp ≡ hello_udp)
    × (hello_udp ≡ hello_udp)
udp_client_hears_example =
    udp_client_hears 3 4 100 200 start start (omega arith) (omega arith) hello_udp hello_udp
      datagram_asks

-- The select client is answered "hi", and leaves its socket open.
abbrev asked : World NoData
asked = record start { statuses = true ∷ true ∷ []; sends = some 18 ∷ [] }

abbrev shown : World NoData
shown = record asked {
  recvs = [];
  sends = [];
  opens = [];
  statuses = [];
  opened = 3 ∷ [];
  sent = (3, hello_client) ∷ [];
}

select_client_runs : select_client asked ≡ (ok (record { code = pos 0; printed = hi ∷ [] }), shown)
unfolding select_client connect_select say_hello show_message buffer_text c_string recv send lift
    pure open_descriptor try_call Kernel.◌>>=◌ Kernel.next_count Kernel.next_bytes
    Kernel.next_status
select_client_runs = refl

select_client-OpenOnSuccess_example : OpenOnSuccess [] (some 3) (pos 0) shown
unfolding Kernel.next_count
select_client-OpenOnSuccess_example =
    select_client-OpenOnSuccess [] (record { code = pos 0; printed = hi ∷ [] }) asked shown
      (λ fd. refl) select_client_runs

-- The poll client is answered "hi", and prints "hi!", where the memory held "ab!".
abbrev memory : Bytes
memory = b'a' ∷ b'b' ∷ b'!' ∷ 0 ∷ []

poll_client_prints_example :
    (poll_client memory (reported false true) in_progress (reported true false) (record start {
      recvs = some hi ∷ [];
      sends = some 18 ∷ [];
      opens = some 3 ∷ [];
      statuses = true ∷ true ∷ true ∷ [];
    })).0
    ≡ ok (record { code = pos 0; printed = (b'h' ∷ b'i' ∷ b'!' ∷ []) ∷ [] })
poll_client_prints_example =
    poll_client_prints memory hi (some (b'!' ∷ [])) 3 18 [] [] false start (omega arith) (λ e. cc)
      (omega arith) (stops (b'!' ∷ []) [] (omega arith)) in_progress [] false [] (λ e. cc)

-- The epoll client sends its message in the first round, and prints the answer in the second.
abbrev can_write : Ready
can_write = record { writable = true; readable = false; stack = memory }

abbrev can_read : Ready
can_read = record { writable = false; readable = true; stack = memory }

abbrev waiting : World NoData
waiting = record start {
  sends = some 14 ∷ [];
  opens = some 3 ∷ some 9 ∷ [];
  statuses = true ∷ true ∷ true ∷ true ∷ true ∷ [];
  flags = (λ fd. 2048);
}

abbrev answered_once : World NoData
answered_once = record waiting {
  recvs = [];
  sends = [];
  opens = [];
  statuses = [];
  flags = (λ fd. if fd == 3 then 2048 else 2048);
  watched = [];
  opened = 9 ∷ 3 ∷ [];
  closed = 3 ∷ [];
  sent = (3, hello_server) ∷ [];
}

abbrev printed_once : Exit
printed_once = record { code = pos 0; printed = (b'h' ∷ b'i' ∷ b'!' ∷ []) ∷ [] }

epoll_client_runs :
    epoll_client (some (can_write ∷ [])) (some (can_read ∷ [])) connected waiting
    ≡ (ok printed_once, answered_once)
unfolding epoll_client Epoll.connect_epoll Epoll.set_non_blocking Epoll.set_flags_of with_nonblock
    Epoll.create_epoll Epoll.watch_socket Epoll.wait_twice Epoll.check_reply Epoll.handle_events
    Epoll.handle_ready Epoll.greet Epoll.read_event show_reply stack_text c_string recv send close
    lift pure open_descriptor try_call watch get_flags set_flags Kernel.◌>>=◌ Kernel.next_count
    Kernel.next_bytes Kernel.next_status
epoll_client_runs = refl

epoll_client-OneOpen_example : OneOpen [] [] (pos 0) answered_once
epoll_client-OneOpen_example =
    epoll_client-OneOpen [] [] (some (can_write ∷ [])) (some (can_read ∷ [])) connected printed_once
      waiting answered_once (refl, refl) epoll_client_runs
