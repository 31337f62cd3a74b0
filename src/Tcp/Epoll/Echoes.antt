-- ===== src/Tcp/Epoll/Echoes.antt =====
-- A run of server_epoll (TCPServer.cpp) as an echo service: clients connect, talk and leave in any
-- order, and each gets back what it has said.
use network_all_in_one.Prelude.{
  ℕ, ◌≡◌, refl, sym, ap, ◌∙◌, Bool, true, false, List, [], ◌∷◌, ◌++◌, map, Option, some, erase,
  append_assoc, append-nil, ◌==◌, ==_refl, Bool-cases, inl, inr, if◌then◌else◌,
}
use network_all_in_one.Text.{Bytes, ok}
use network_all_in_one.Kernel.{
  World, pure, open_descriptor, watch, close, recv, next_bytes, next_count, next_status, rest_of,
  ◌>>=◌,
}
use network_all_in_one.Storage.Server.{is_server}
use network_all_in_one.Storage.Loops.{ready}
use network_all_in_one.Storage.Sender.Delivery.{received_by, received_by-append}
use network_all_in_one.Tcp.Echo.{TcpServer, NoData, waiting}
use network_all_in_one.Tcp.Epoll.{
  watch_accepted, echo_back, echo_event, echo_events, epoll_echo_loop,
}
use network_all_in_one.Tcp.Epoll.Answers.{Talk, IsTalk, event_talk}

-- What happens: a client connects, says something, or leaves.
pub data Happening : Type 0 where
  joins : ℕ → Happening
  says : Talk → Happening
  leaves : ℕ → Happening

-- The descriptors of the events.
abbrev pub number : ℕ → Happening → ℕ
number listener (joins fd) = listener
number listener (says t) = t.client
number listener (leaves fd) = fd

abbrev pub numbers : ℕ → List Happening → List ℕ
numbers listener = map (number listener)

-- What the service makes of it.
abbrev pub effect : Happening → World NoData → World NoData
effect (joins fd) w = record w {
  opens = rest_of w.opens;
  statuses = rest_of w.statuses;
  opened = fd ∷ w.opened;
  watched = fd ∷ w.watched;
}
effect (says t) w = record w {
  recvs = rest_of w.recvs;
  sends = rest_of w.sends;
  sent = w.sent ++ (t.client, t.message) ∷ [];
}
effect (leaves fd) w = record w {
  recvs = rest_of w.recvs;
  closed = fd ∷ w.closed;
  watched = erase fd w.watched;
}

abbrev pub effects : List Happening → World NoData → World NoData
effects [] w = w
effects (h ∷ hs) w = effects hs (effect h w)

-- What a client has said.
abbrev pub said : ℕ → List Happening → Bytes
said fd [] = []
said fd (joins x ∷ hs) = said fd hs
said fd (says t ∷ hs) = let rest = said fd hs in if t.client == fd then t.message ++ rest else rest
said fd (leaves x ∷ hs) = said fd hs

-- It happens: accept and epoll_ctl succeed; the message arrives, and there is room for the answer; or
-- the client has closed its end.
abbrev pub Happens : TcpServer → Happening → World NoData → Type 0
Happens s (joins fd) w =
    (w.opens ≡ some fd ∷ rest_of w.opens) × (w.statuses ≡ true ∷ rest_of w.statuses)
Happens s (says t) w =
    IsTalk s t
    × (w.recvs ≡ some t.message ∷ rest_of w.recvs)
    × (w.sends ≡ some t.room ∷ rest_of w.sends)
Happens s (leaves fd) w =
    (is_server s.server_socket fd ≡ false) × (w.recvs ≡ some [] ∷ rest_of w.recvs)

abbrev pub AllHappen : TcpServer → List Happening → World NoData → Type 0
AllHappen s [] w = Unit
AllHappen s (h ∷ hs) w = Happens s h w × AllHappen s hs (effect h w)

module _ (s : TcpServer) (listener : ℕ) (listens : s.server_socket ≡ some listener)
    (w : World NoData) where
  event_join :
      (fd : ℕ) (os : List (Option ℕ)) (bs : List Bool)
      → w.opens ≡ some fd ∷ os
      → w.statuses ≡ true ∷ bs
      → echo_event s listener w ≡ (
        ok true,
        record w { opens = os; statuses = bs; opened = fd ∷ w.opened; watched = fd ∷ w.watched },
      )
  unfolding echo_event watch_accepted open_descriptor watch next_count next_status ◌>>=◌
  event_join fd os bs o b = rw (listens, ==_refl listener, o, b) refl

  event_leave :
      (fd : ℕ) (rs : List (Option Bytes))
      → is_server s.server_socket fd ≡ false
      → w.recvs ≡ some [] ∷ rs
      → echo_event s fd w
        ≡ (ok true, record w { recvs = rs; closed = fd ∷ w.closed; watched = erase fd w.watched })
  unfolding echo_event echo_back recv close next_bytes pure ◌>>=◌
  event_leave fd rs other e = rw (other, e) refl

  event_say :
      (t : Talk) (rs : List (Option Bytes)) (ss : List (Option ℕ))
      → IsTalk s t
      → w.recvs ≡ some t.message ∷ rs
      → w.sends ≡ some t.room ∷ ss
      → echo_event s t.client w ≡ (
        ok true,
        record w { recvs = rs; sends = ss; sent = w.sent ++ (t.client, t.message) ∷ [] },
      )
  event_say t rs ss h e r =
      ap (echo_event s t.client) (λ i. record w { recvs = e i; sends = r i })
      ∙ event_talk s t rs ss w h

  event_effect :
      (h : Happening) → Happens s h w → echo_event s (number listener h) w ≡ (ok true, effect h w)
  event_effect (joins fd) (o, b) = event_join fd (rest_of w.opens) (rest_of w.statuses) o b
  event_effect (says t) (k, e, r) = event_say t (rest_of w.recvs) (rest_of w.sends) k e r
  event_effect (leaves fd) (other, e) = event_leave fd (rest_of w.recvs) other e

module _ (s : TcpServer) (listener : ℕ) (listens : s.server_socket ≡ some listener) where
  events_effects :
      (hs : List Happening) (w : World NoData)
      → AllHappen s hs w
      → echo_events s (numbers listener hs) w ≡ (ok true, effects hs w)
  unfolding echo_events pure ◌>>=◌
  events_effects [] w h = refl
  events_effects (x ∷ hs) w h =
      rw (event_effect s listener listens w x h.0) (events_effects hs (effect x w) h.1)

effects-append :
    (hs ks : List Happening) (w : World NoData) → effects (hs ++ ks) w ≡ effects ks (effects hs w)
effects-append [] ks w = refl
effects-append (h ∷ hs) ks w = effects-append hs ks (effect h w)

AllHappen-append :
    (s : TcpServer) (hs ks : List Happening) (w : World NoData)
    → AllHappen s (hs ++ ks) w
    → AllHappen s hs w × AllHappen s ks (effects hs w)
AllHappen-append s [] ks w h = (tt, h)
AllHappen-append s (x ∷ hs) ks w h =
    let (a, b) = AllHappen-append s hs ks (effect x w) h.1 in ((h.0, a), b)

one_said :
    (fd : ℕ) (t : Talk) (before rest : Bytes)
    → before ++ received_by fd ((t.client, t.message) ∷ []) ++ rest
      ≡ before ++ (if t.client == fd then t.message ++ rest else rest)
unfolding received_by
one_said fd t before rest = elim (Bool-cases (t.client == fd)) [
  | inl e ↦ rw (e, append-nil t.message) (append_assoc before t.message rest)
  | inr e ↦ rw (e, append-nil before) refl
]

-- What has been sent to a client, behind it all.
effects-said :
    (fd : ℕ) (hs : List Happening) (w : World NoData)
    → received_by fd (effects hs w).sent ≡ received_by fd w.sent ++ said fd hs
effects-said fd [] w = sym (append-nil (received_by fd w.sent))
effects-said fd (joins x ∷ hs) w = effects-said fd hs (effect (joins x) w)
effects-said fd (says t ∷ hs) w =
    effects-said fd hs (effect (says t) w)
    ∙ rw (received_by-append fd w.sent ((t.client, t.message) ∷ []))
        (one_said fd t (received_by fd w.sent) (said fd hs))
effects-said fd (leaves x ∷ hs) w = effects-said fd hs (effect (leaves x) w)

-- The happenings of all reports.
abbrev pub all_of : List (List Happening) → List Happening
all_of [] = []
all_of (hs ∷ reports) = hs ++ all_of reports

module _ (s : TcpServer) (listener : ℕ) (listens : s.server_socket ≡ some listener) where
  loop_effects :
      (reports : List (List Happening)) (w : World NoData)
      → AllHappen s (all_of reports) w
      → epoll_echo_loop (map (λ hs. ready (numbers listener hs)) reports) s w
        ≡ (ok (waiting s), effects (all_of reports) w)
  unfolding epoll_echo_loop pure ◌>>=◌
  loop_effects [] w h = refl
  loop_effects (hs ∷ reports) w h =
      let (a, b) = AllHappen-append s hs (all_of reports) w h in
      rw (events_effects s listener listens hs w a, effects-append hs (all_of reports) w)
        (loop_effects reports (effects hs w) b)

  -- server_epoll over any number of reports: clients connect, talk and leave in any order, each message
  -- fits the buffer and finds room on the way back in one send, and accept and epoll_ctl do not fail.
  -- The loop goes through all of them and would wait again; what it does is, for each in its order, to
  -- take the connection, to answer, or to close, and nothing else; and what each descriptor has been
  -- sent, behind what it had been sent before, is what was said from it, byte for byte and in order,
  -- however the clients interleave.
  pub epoll_echo_loop_echoes :
      (reports : List (List Happening)) (w : World NoData)
      → AllHappen s (all_of reports) w
      → (epoll_echo_loop (map (λ hs. ready (numbers listener hs)) reports) s w
          ≡ (ok (waiting s), effects (all_of reports) w))
        × ((fd : ℕ)
            → received_by fd (effects (all_of reports) w).sent
              ≡ received_by fd w.sent ++ said fd (all_of reports))
  epoll_echo_loop_echoes reports w h =
      (loop_effects reports w h, λ fd. effects-said fd (all_of reports) w)
