-- ===== src/Tests/Basics.antt =====
-- The servers of Lecture 1 (SyncTcpServer.cpp, SyncUdpServer.cpp) on concrete runs, and the theorems
-- at the same runs.
use network_all_in_one.Prelude.{◌≡◌, refl, true, [], ◌∷◌, some}
use network_all_in_one.Text.{Bytes, ok, pos}
use network_all_in_one.Kernel
use network_all_in_one.Kernel.{World, pure, lift, recv, send, close, open_descriptor, try_call}
use network_all_in_one.Tcp.Echo.{NoData}
use network_all_in_one.Async.Select.{c_string}
use network_all_in_one.Basic.{buffer_text, answered, echo_datagram, serve_datagram, udp_main}

abbrev pub hi : Bytes
hi = b'h' ∷ b'i' ∷ []

abbrev pub start : World NoData
start = record {
  disk = tt;
  recvs = some hi ∷ [];
  sends = some 9 ∷ [];
  opens = some 3 ∷ [];
  statuses = true ∷ [];
  flags = λ fd. 0;
  watched = [];
  opened = [];
  closed = [];
  sent = [];
}

abbrev done : World NoData
done = record start {
  recvs = [];
  sends = [];
  opens = [];
  statuses = [];
  opened = 3 ∷ [];
  closed = 3 ∷ [];
  sent = (3, hi) ∷ [];
}

udp_main_runs : udp_main start ≡ (ok (pos 0), done)
unfolding udp_main serve_datagram echo_datagram answered buffer_text c_string recv send close lift
    pure open_descriptor try_call Kernel.◌>>=◌ Kernel.next_count Kernel.next_bytes
    Kernel.next_status
udp_main_runs = refl
