-- ===== src/Tcp/Epoll/Answers.antt =====
-- server_epoll answers every client with what that client sent (TCPServer.cpp).
use network_all_in_one.Prelude.{
  ℕ, ◌≤◌, ◌<◌, ◌≡◌, refl, ◌∙◌, min, true, false, List, [], ◌∷◌, ◌++◌, Option, some, length, map,
  All, take_all, arith, append_assoc, append-nil,
}
use network_all_in_one.Text.{Bytes, ok}
use network_all_in_one.Kernel.{World, pure, recv, send, next_bytes, next_count, ◌>>=◌}
use network_all_in_one.Storage.Request.{buffer_size}
use network_all_in_one.Storage.Server.{is_server}
use network_all_in_one.Tcp.Echo.{TcpServer, NoData, server_send}
use network_all_in_one.Tcp.Epoll.{echo_back, echo_event, echo_events}

-- A client that is reported, what it sent, and the room that the kernel has for the answer.
pub record Talk : Type 0 where
  pub client : ℕ
  pub message : Bytes
  pub room : ℕ

-- The message is there, fits the buffer and finds room on the way back.
abbrev pub IsTalk : TcpServer → Talk → Type 0
IsTalk s t =
    (is_server s.server_socket t.client ≡ false)
    × ((0 < length t.message) × ((length t.message ≤ buffer_size) × (length t.message ≤ t.room)))

abbrev pub callers : List Talk → List ℕ
callers = map (λ t. t.client)

abbrev pub heard : List Talk → List (Option Bytes)
heard = map (λ t. some t.message)

abbrev pub rooms : List Talk → List (Option ℕ)
rooms = map (λ t. some t.room)

abbrev pub answers : List Talk → List (ℕ × Bytes)
answers = map (λ t. (t.client, t.message))

module _ (s : TcpServer) where
  back_talk :
      (fd room : ℕ) (message : Bytes) (ss : List (Option ℕ)) (w : World NoData)
      → 0 < length message
      → length message ≤ room
      → echo_back fd (some message) (record w { sends = some room ∷ ss })
        ≡ (ok true, record w { sends = ss; sent = w.sent ++ (fd, message) ∷ [] })
  unfolding echo_back server_send send next_count ◌>>=◌ pure
  back_talk fd room [] ss w h k = absurd (omega arith)
  back_talk fd room (b ∷ bs) ss w h k =
      rw (take_all (min room (length (b ∷ bs))) (b ∷ bs) (omega arith)) refl

  pub event_talk :
      (t : Talk) (rs : List (Option Bytes)) (ss : List (Option ℕ)) (w : World NoData)
      → IsTalk s t
      → echo_event s t.client (record w { recvs = some t.message ∷ rs; sends = some t.room ∷ ss })
        ≡ (
          ok true,
          record w { recvs = rs; sends = ss; sent = w.sent ++ (t.client, t.message) ∷ [] },
        )
  unfolding echo_event recv next_bytes ◌>>=◌
  event_talk t rs ss w (other, (some_bytes, (fits, room))) =
      rw (other, take_all buffer_size t.message fits)
        (back_talk t.client t.room t.message ss (record w { recvs = rs }) some_bytes room)

  -- A report of server_epoll that names clients, each of whose reads gives a message that fits the
  -- buffer and whose answer finds room in one send: the loop goes on, and what was sent is each
  -- message, whole, to the client it came from, in the order of the report; nothing is closed and
  -- no other call is made.
  pub echo_events_answer :
      (talks : List Talk) (rs : List (Option Bytes)) (ss : List (Option ℕ)) (w : World NoData)
      → All (IsTalk s) talks
      → echo_events s
          (callers talks)
          (record w { recvs = heard talks ++ rs; sends = rooms talks ++ ss })
        ≡ (ok true, record w { recvs = rs; sends = ss; sent = w.sent ++ answers talks })
  unfolding echo_events ◌>>=◌ pure
  echo_events_answer [] rs ss w h = rw (append-nil) refl
  echo_events_answer (t ∷ talks) rs ss w (h, hs) =
      rw (event_talk t (heard talks ++ rs) (rooms talks ++ ss) w h) (
        echo_events_answer talks rs ss (record w { sent = w.sent ++ (t.client, t.message) ∷ [] }) hs
        ∙ rw (append_assoc) refl)
