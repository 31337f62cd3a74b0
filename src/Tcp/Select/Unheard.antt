-- ===== src/Tcp/Select/Unheard.antt =====
-- sever_select stores no connection that it accepts (TCPServer.cpp).
use network_all_in_one.Prelude.{
  ℕ, ◌≡◌, refl, Bool, false, Bool-cases, inl, inr, List, [], ◌∷◌, Option, none, some, contains,
}
use network_all_in_one.Kernel.{
  World, Io, pure, open_descriptor, next_count, rest_of, get_flags, set_flags, ◌>>=◌,
}
use network_all_in_one.Kernel.Actions.{Keeps, Keeps-bind, Keeps-pure, Keeps-lift}
use network_all_in_one.Storage.Server.{change_flags, set_socket_blocking, set_server_blocking}
use network_all_in_one.Storage.Loops.{Wait}
use network_all_in_one.Tcp.Echo.{TcpServer, NoData}
use network_all_in_one.Tcp.Select.{
  echo_set, listener_number, store_found, store_accepted, accept_ready, echo_ready, echo_clients,
  echo_round, select_answer, echo_loop, sever_select,
}

-- What was read, sent and closed stays as it was.
abbrev pub Unheard : World NoData → World NoData → Type 0
Unheard v w = (w.recvs ≡ v.recvs) × ((w.sent ≡ v.sent) × (w.closed ≡ v.closed))

store_found-nil : (new : ℕ) (fds : List ℕ) → fds ≡ [] → store_found new fds ≡ []
unfolding store_found
store_found-nil new fds e = rw e refl

module _ (v : World NoData) where
  get_flags-Unheard : (fd : ℕ) → Keeps (Unheard v) (get_flags fd)
  unfolding get_flags
  get_flags-Unheard fd = record { at = λ w h. h }

  change_flags-Unheard :
      (fd : ℕ) (blocking : Bool) (r : Option ℕ) → Keeps (Unheard v) (change_flags fd blocking r)
  unfolding change_flags set_flags
  change_flags-Unheard fd blocking none = Keeps-pure _
  change_flags-Unheard fd blocking (some n) =
      Keeps-bind _ _ (record { at = λ w h. h }) (λ fine. Keeps-pure _)

  set_server_blocking-Unheard :
      (r : Option ℕ) (blocking : Bool) → Keeps (Unheard v) (set_server_blocking r blocking)
  unfolding set_server_blocking set_socket_blocking
  set_server_blocking-Unheard none blocking = Keeps-pure _
  set_server_blocking-Unheard (some fd) blocking =
      Keeps-bind _ _ (get_flags-Unheard fd) (change_flags-Unheard fd blocking)

  open_step-Unheard :
      (r : Option ℕ) (w : World NoData)
      → next_count w.opens ≡ r
      → Unheard v w
      → Unheard v (open_descriptor w).1
  unfolding open_descriptor
  open_step-Unheard none w e h = rw (e, open_descriptor) h
  open_step-Unheard (some fd) w e h = rw (e, open_descriptor) h

  module _ {A : Type 0} (s : TcpServer) (empty : s.client_sockets ≡ [])
      (k : Option TcpServer → Io NoData A) where
    -- The rest of the round and what follows it, behind accept.
    clients_then :
        (s' : TcpServer) (set : List ℕ) (w : World NoData)
        → s'.client_sockets ≡ []
        → ((s' : TcpServer) → s'.client_sockets ≡ [] → Keeps (Unheard v) (k (some s')))
        → Unheard v w
        → Unheard v ((echo_clients set (some s') >>= k) w).1
    unfolding echo_clients echo_ready ◌>>=◌ pure
    clients_then s' set w e ks h = rw e ((ks (record s' { client_sockets = [] }) refl).at w h)

    accept_then :
        (set : List ℕ) (r : Option ℕ) (w : World NoData)
        → next_count w.opens ≡ r
        → Keeps (Unheard v) (k none)
        → ((s' : TcpServer) → s'.client_sockets ≡ [] → Keeps (Unheard v) (k (some s')))
        → Unheard v w
        → Unheard v
            ((open_descriptor
                >>= (λ client. pure (store_accepted s client))
                >>= (λ s'. echo_clients set s')
                >>= k)
              w).1
    unfolding store_accepted echo_clients open_descriptor ◌>>=◌ pure
    accept_then set none w e kn ks h =
        rw (e, open_descriptor) (kn.at (record w { opens = rest_of w.opens }) h)
    accept_then set (some fd) w e kn ks h =
        rw (e, open_descriptor)
          (clients_then (record s { client_sockets = store_found fd s.client_sockets }) set
            (record w { opens = rest_of w.opens; opened = fd ∷ w.opened })
            (store_found-nil fd s.client_sockets empty) ks h)

    round_then :
        (set : List ℕ)
        → Keeps (Unheard v) (k none)
        → ((s' : TcpServer) → s'.client_sockets ≡ [] → Keeps (Unheard v) (k (some s')))
        → Keeps (Unheard v) (echo_round s set >>= k)
    unfolding echo_round accept_ready
    round_then set kn ks = elim (Bool-cases (contains (listener_number s) set)) [
      | inr quiet ↦
          rw quiet (record { at = λ w h. unfold ◌>>=◌ pure in clients_then s set w empty ks h })
      | inl event ↦
          rw event (record { at = λ w h. accept_then set (next_count w.opens) w refl kn ks h })
    ]

  echo_loop-Unheard :
      (waits : List (Wait (List ℕ))) (s : TcpServer)
      → s.client_sockets ≡ []
      → Keeps (Unheard v) (echo_loop waits s)
  unfolding echo_loop
  echo_loop-Unheard [] s e = Keeps-pure _
  echo_loop-Unheard (wait ∷ waits) s e =
      Keeps-bind _ _ (Keeps-lift (echo_set s)) (λ set.
        round_then s e _ (select_answer s set wait) (Keeps-pure _) (echo_loop-Unheard waits))

-- sever_select on a server whose client list is empty, however select answers and however many
-- connections it accepts: nothing is read, nothing is sent and nothing is closed, whether the run
-- goes on, exits or meets a descriptor that FD_SET has no bit for. The connections it accepts stay
-- open and unheard.
pub sever_select-Unheard :
    (waits : List (Wait (List ℕ))) (s : TcpServer) (w : World NoData)
    → s.client_sockets ≡ []
    → Unheard w (sever_select waits s w).1
unfolding sever_select
sever_select-Unheard waits s w e =
    (Keeps-bind {P = Unheard w} _ _ (set_server_blocking-Unheard w s.server_socket false)
        (λ _. echo_loop-Unheard w waits s e)).at
      w (refl, (refl, refl))
