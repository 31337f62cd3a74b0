-- ===== src/Tcp/Poll/Answers.antt =====
-- server_poll answers every client with what that client sent (TCPServer.cpp).
use network_all_in_one.Prelude.{
  ℕ, zero, suc, ◌≤◌, ◌<◌, ◌≡◌, refl, ◌∙◌, min, true, List, [], ◌∷◌, ◌++◌, Option, some, length, map,
  All, take_all, arith, append_assoc, append-nil,
}
use network_all_in_one.Text.{Bytes, ok}
use network_all_in_one.Kernel.{World, pure, recv, send, next_bytes, next_count, ◌>>=◌}
use network_all_in_one.Storage.Request.{buffer_size}
use network_all_in_one.Tcp.Echo.{TcpServer, Entry, NoData}
use network_all_in_one.Tcp.Poll.{through, is_ready, echo_entry, echo_pass}
use network_all_in_one.Tcp.Epoll.Answers.{Talk, IsTalk, heard, rooms, answers}

-- The entries of the clients, each with POLLIN.
abbrev pub ready_entries : List Talk → List Entry
ready_entries = map (λ t. record { fd = t.client; pollin = true })

module _ (s : TcpServer) where
  entry_talk :
      (p : Entry) (room : ℕ) (message : Bytes) (seen rest : List Entry) (ss : List (Option ℕ))
      (w : World NoData)
      → 0 < length message
      → length message ≤ room
      → echo_entry p seen rest (some message) (record w { sends = some room ∷ ss }) ≡ (
        ok (seen ++ p ∷ [], rest),
        record w { sends = ss; sent = w.sent ++ (p.fd, message) ∷ [] },
      )
  unfolding echo_entry send next_count ◌>>=◌ pure
  entry_talk p room [] seen rest ss w h k = absurd (omega arith)
  entry_talk p room (b ∷ bs) seen rest ss w h k =
      rw (take_all (min room (length (b ∷ bs))) (b ∷ bs) (omega arith)) refl

  -- The rest of a pass of server_poll over clients that all have POLLIN, each of whose reads gives a
  -- message that fits the buffer and whose answer finds room in one send: the entries stay as they
  -- are, and what was sent is each message, whole, to the client it came from, in the order of the
  -- entries; nothing is closed and no other call is made.
  pub echo_pass_answer :
      (talks : List Talk) (steps : ℕ) (seen : List Entry) (rs : List (Option Bytes))
      (ss : List (Option ℕ)) (w : World NoData)
      → length talks ≤ steps
      → All (IsTalk s) talks
      → echo_pass steps s seen
          (ready_entries talks)
          (record w { recvs = heard talks ++ rs; sends = rooms talks ++ ss })
        ≡ (
          ok (through (record s { poll_fds = seen ++ ready_entries talks })),
          record w { recvs = rs; sends = ss; sent = w.sent ++ answers talks },
        )
  unfolding echo_pass is_ready recv next_bytes ◌>>=◌ pure
  echo_pass_answer [] zero seen rs ss w k h = rw (append-nil w.sent) refl
  echo_pass_answer [] (suc steps) seen rs ss w k h = rw (append-nil seen, append-nil w.sent) refl
  echo_pass_answer (t ∷ talks) zero seen rs ss w k h = absurd (omega (arith, k))
  echo_pass_answer (t ∷ talks) (suc steps) seen rs ss w k
        ((other, (some_bytes, (fits, room))), hs) =
      rw
        (
          other,
          take_all buffer_size t.message fits,
          entry_talk (record { fd = t.client; pollin = true }) t.room t.message seen
              (ready_entries talks) (rooms talks ++ ss) (record w { recvs = heard talks ++ rs })
              some_bytes room,
        )
        (echo_pass_answer talks steps (seen ++ (record { fd = t.client; pollin = true }) ∷ []) rs ss
            (record w { sent = w.sent ++ (t.client, t.message) ∷ [] }) (omega (arith, k)) hs
          ∙ rw (append_assoc) (rw (append_assoc) refl))
