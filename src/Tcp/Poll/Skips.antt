-- ===== src/Tcp/Poll/Skips.antt =====
-- The entry behind a closed client's is stepped over (server_poll of TCPServer.cpp).
use network_all_in_one.Prelude.{
  ℕ, suc, ◌≡◌, refl, true, false, List, [], ◌∷◌, ◌++◌, Option, some, erase, length, All, ◌≤◌, ◌∙◌,
  append_assoc,
}
use network_all_in_one.Text.{Bytes, ok}
use network_all_in_one.Kernel.{World, pure, recv, next_bytes, close, ◌>>=◌}
use network_all_in_one.Storage.Server.{is_server}
use network_all_in_one.Tcp.Echo.{TcpServer, Entry, NoData}
use network_all_in_one.Tcp.Poll.{through, is_ready, echo_entry, echo_pass}
use network_all_in_one.Tcp.Poll.Answers.{ready_entries, echo_pass_answer}
use network_all_in_one.Tcp.Epoll.Answers.{Talk, IsTalk, heard, rooms, answers}

skip_one :
    (steps : ℕ) (s : TcpServer) (seen rest : List Entry) (p q : Entry) (rs : List (Option Bytes))
    (w : World NoData)
    → is_ready p ≡ true
    → is_server s.server_socket p.fd ≡ false
    → w.recvs ≡ some [] ∷ rs
    → echo_pass (suc steps) s seen (p ∷ q ∷ rest) w
      ≡ echo_pass steps s
          (seen ++ q ∷ [])
          rest
          (record w { recvs = rs; closed = p.fd ∷ w.closed; watched = erase p.fd w.watched })
unfolding echo_pass echo_entry ◌>>=◌ recv next_bytes close pure
skip_one steps s seen rest p q rs w ready client r = rw (ready, client, r) refl

-- The rest of a pass of server_poll whose next entry is of a client that has ended its stream, then
-- any entry `q`, and then clients that all have POLLIN and are each answered in one send: the first
-- client is closed and erased, and `q` stays in the vector; whatever poll reported for `q`, the pass
-- makes no call for it: what is read is the end of the first client's stream and a message of each
-- client behind `q`, what is sent is the answers to these, and nothing is accepted.
pub echo_pass_skips :
    (steps : ℕ) (s : TcpServer) (seen : List Entry) (p q : Entry) (talks : List Talk)
    (rs : List (Option Bytes)) (ss : List (Option ℕ)) (w : World NoData)
    → is_ready p ≡ true
    → is_server s.server_socket p.fd ≡ false
    → length talks ≤ steps
    → All (IsTalk s) talks
    → echo_pass
        (suc steps)
        s
        seen
        (p ∷ q ∷ ready_entries talks)
        (record w { recvs = some [] ∷ (heard talks ++ rs); sends = rooms talks ++ ss })
      ≡ (
        ok (through (record s { poll_fds = seen ++ q ∷ ready_entries talks })),
        record w {
          recvs = rs;
          sends = ss;
          sent = w.sent ++ answers talks;
          closed = p.fd ∷ w.closed;
          watched = erase p.fd w.watched;
        },
      )
echo_pass_skips steps s seen p q talks rs ss w ready client k h =
    skip_one steps s seen (ready_entries talks) p q (heard talks ++ rs)
      (record w { recvs = some [] ∷ (heard talks ++ rs); sends = rooms talks ++ ss }) ready client
      refl
    ∙ echo_pass_answer s talks steps (seen ++ q ∷ []) rs ss
        (record w { closed = p.fd ∷ w.closed; watched = erase p.fd w.watched }) k h
    ∙ rw (append_assoc seen (q ∷ []) (ready_entries talks)) refl
