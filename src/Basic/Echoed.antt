-- ===== src/Basic/Echoed.antt =====
-- What the TCP server of Lecture 1 answers (SyncTcpServer.cpp).
use network_all_in_one.Prelude.{
  ℕ, ◌+◌, ◌≤◌, ◌<◌, ◌≡◌, refl, min, false, List, [], ◌∷◌, ◌++◌, Option, some, arith, length,
  take_all, erase, ◌==◌,
}
use network_all_in_one.Text.{Bytes, ok, pos}
use network_all_in_one.Text.Search.{Without}
use network_all_in_one.Kernel.{World, pure, lift, close, recv, send, next_bytes, next_count, ◌>>=◌}
use network_all_in_one.Storage.Request.{buffer_size}
use network_all_in_one.Tcp.Echo.{NoData}
use network_all_in_one.Async.Select.{c_string}
use network_all_in_one.Basic.{echo_prefix, buffer_text, answer_client}

c_string_plain : (bs : Bytes) → Without 0 bs → c_string bs ≡ bs
unfolding c_string
c_string_plain [] h = refl
c_string_plain (b ∷ bs) h = ground (arith, c_string_plain bs h.1)

-- A client whose message has no zero byte and is shorter than the buffer, with room for the answer in
-- one send, is answered "Echo: " and its message; then both sockets are closed and main returns 0.
pub answer_client_echo :
    (server_fd client_fd room : ℕ) (message : Bytes) (rs : List (Option Bytes))
    (ss : List (Option ℕ)) (w : World NoData)
    → Without 0 message
    → length message < buffer_size
    → length message + 6 ≤ room
    → answer_client server_fd client_fd
        (record w { recvs = some message ∷ rs; sends = some room ∷ ss })
      ≡ (
        ok (pos 0),
        record w {
          recvs = rs;
          sends = ss;
          sent = w.sent ++ (client_fd, echo_prefix ++ message) ∷ [];
          closed = server_fd ∷ client_fd ∷ w.closed;
          watched = erase server_fd (erase client_fd w.watched);
        },
      )
unfolding answer_client buffer_text recv send close lift next_bytes next_count pure ◌>>=◌
answer_client_echo server_fd client_fd room message rs ss w plain short fits =
    let e : (length message == buffer_size) ≡ false = ground arith in
    rw
      (
        take_all buffer_size message (omega arith),
        c_string_plain message plain,
        e,
        take_all (min room (length (echo_prefix ++ message))) (echo_prefix ++ message)
            (omega arith),
      )
      refl
