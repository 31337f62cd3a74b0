-- ===== src/Tcp/Select/Answers.antt =====
-- sever_select answers every client in its list with what that client sent (TCPServer.cpp).
use network_all_in_one.Prelude.{
  ℕ, ◌≤◌, ◌<◌, ◌≡◌, refl, min, true, List, [], ◌∷◌, ◌++◌, Option, some, length, lt→ltb, contains,
  All, take_all, arith, append_assoc, append-nil,
}
use network_all_in_one.Text.{Bytes, ok}
use network_all_in_one.Kernel.{World, pure, recv, send, next_bytes, next_count, ◌>>=◌}
use network_all_in_one.Storage.Request.{buffer_size}
use network_all_in_one.Tcp.Echo.{NoData, server_send}
use network_all_in_one.Tcp.Select.{echo, echo_ready}
use network_all_in_one.Tcp.Epoll.Answers.{Talk, callers, heard, rooms, answers}

-- The client is in the set; its message is there, is shorter than the buffer, and finds room on the
-- way back.
abbrev pub IsShortTalk : List ℕ → Talk → Type 0
IsShortTalk set t =
    (contains t.client set ≡ true)
    × ((0 < length t.message) × ((length t.message < buffer_size) × (length t.message ≤ t.room)))

echo_talk :
    (fd room : ℕ) (message : Bytes) (ss : List (Option ℕ)) (w : World NoData)
    → 0 < length message
    → length message < buffer_size
    → length message ≤ room
    → echo fd (some message) (record w { sends = some room ∷ ss })
      ≡ (ok fd, record w { sends = ss; sent = w.sent ++ (fd, message) ∷ [] })
unfolding echo server_send send next_count ◌>>=◌ pure
echo_talk fd room [] ss w h s k = absurd (omega arith)
echo_talk fd room (b ∷ bs) ss w h s k =
    rw
      (
        lt→ltb (length (b ∷ bs)) buffer_size s,
        take_all (min room (length (b ∷ bs))) (b ∷ bs) (omega arith),
      )
      refl

-- A pass of sever_select over clients that are all in the set, each of whose reads gives a message
-- shorter than the buffer and whose answer finds room in one send: every slot keeps its client, and
-- what was sent is each message, whole, to the client it came from, in the order of the slots; nothing
-- is closed and no other call is made.
pub echo_ready_answer :
    (set : List ℕ) (talks : List Talk) (rs : List (Option Bytes)) (ss : List (Option ℕ))
    (w : World NoData)
    → All (IsShortTalk set) talks
    → echo_ready set
        (callers talks)
        (record w { recvs = heard talks ++ rs; sends = rooms talks ++ ss })
      ≡ (ok (callers talks), record w { recvs = rs; sends = ss; sent = w.sent ++ answers talks })
unfolding echo_ready recv next_bytes ◌>>=◌ pure
echo_ready_answer set [] rs ss w h = rw append-nil refl
echo_ready_answer set (t ∷ talks) rs ss w ((hit, (some_bytes, (short, room))), hs) =
    rw
      (
        hit,
        take_all buffer_size t.message (omega (arith, short)),
        echo_talk t.client t.room t.message (rooms talks ++ ss)
            (record w { recvs = heard talks ++ rs }) some_bytes short room,
        echo_ready_answer set talks rs ss (record w { sent = w.sent ++ (t.client, t.message) ∷ [] })
            hs,
      )
      (rw append_assoc refl)
