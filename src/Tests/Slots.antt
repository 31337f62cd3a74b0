-- ===== src/Tests/Slots.antt =====
-- The slots of TCPServer_select.cpp on concrete runs, and the theorems at the same runs.
use network_all_in_one.Prelude.{◌≡◌, refl, [], ◌∷◌, some, arith}
use network_all_in_one.Text.{Bytes, ok}
use network_all_in_one.Kernel
use network_all_in_one.Kernel.{World, pure, recv, send, close, open_descriptor, ◌>>=◌}
use network_all_in_one.Tcp.Echo.{NoData}
use network_all_in_one.Async.Select.{
  used, store_free, store_socket, accept_slot, c_string, echo_string, slot_pass, serve_slots,
  slot_round,
}
use network_all_in_one.Async.Select.Slots.{SlotsEven, slot_round-SlotsEven}
use network_all_in_one.Async.Select.Full.{slot_round_full}
use network_all_in_one.Async.Select.Cut.{echo_string_cut}

-- The client 4 in the first of two slots; 5 connects, and 4 sends "a", zero, "b".
abbrev text : Bytes
text = b'a' ∷ 0 ∷ b'b' ∷ []

abbrev before : World NoData
before = record {
  disk = tt;
  recvs = some text ∷ [];
  sends = some 9 ∷ [];
  opens = some 5 ∷ [];
  statuses = [];
  flags = λ fd. 0;
  watched = [];
  opened = 4 ∷ 3 ∷ [];
  closed = [];
  sent = [];
}

abbrev after : World NoData
after = record before {
  recvs = [];
  sends = [];
  opens = [];
  opened = 5 ∷ 4 ∷ 3 ∷ [];
  sent = (4, b'a' ∷ []) ∷ [];
}

slot_round_runs : slot_round 3 (4 ∷ 0 ∷ []) (3 ∷ 4 ∷ []) before ≡ (ok (some (4 ∷ 5 ∷ [])), after)
unfolding slot_round accept_slot store_socket store_free serve_slots slot_pass echo_string c_string
    recv send close open_descriptor pure ◌>>=◌ Kernel.next_count Kernel.next_bytes
slot_round_runs = refl

slot_round-SlotsEven_example : SlotsEven (3 ∷ []) (4 ∷ 5 ∷ []) after
unfolding used Kernel.next_count
slot_round-SlotsEven_example =
    slot_round-SlotsEven (4 ∷ 0 ∷ []) (3 ∷ []) 3 (3 ∷ 4 ∷ []) (4 ∷ 5 ∷ []) before after
      (ground arith) (ground arith) (ground arith) (λ fd. ground arith) slot_round_runs

-- Both slots are taken: 4 is answered, and 5 is lost.
abbrev full_before : World NoData
full_before = record before { opened = 6 ∷ 4 ∷ 3 ∷ [] }

abbrev full_after : World NoData
full_after = record after { opened = 5 ∷ 6 ∷ 4 ∷ 3 ∷ [] }

full_runs :
    slot_round 3 (4 ∷ 6 ∷ []) (3 ∷ 4 ∷ []) full_before ≡ (ok (some (4 ∷ 6 ∷ [])), full_after)
unfolding slot_round accept_slot store_socket store_free serve_slots slot_pass echo_string c_string
    recv send close open_descriptor pure ◌>>=◌ Kernel.next_count Kernel.next_bytes
full_runs = refl

slot_round_full_example : SlotsEven (5 ∷ 3 ∷ []) (4 ∷ 6 ∷ []) full_after
unfolding used
slot_round_full_example =
    slot_round_full (3 ∷ []) (4 ∷ 6 ∷ []) 5 3 (3 ∷ 4 ∷ []) (4 ∷ 6 ∷ []) [] full_before full_after
      (ground arith) (ground arith) (ground arith) refl (λ fd. ground arith) full_runs

echo_string_cut_example :
    echo_string 4 (some text) before
    ≡ (ok 4, record before { sends = []; sent = (4, b'a' ∷ []) ∷ [] })
echo_string_cut_example =
    echo_string_cut 4 9 (b'a' ∷ []) [] before (omega arith) (omega arith) refl (b'b' ∷ [])
      (omega arith)
