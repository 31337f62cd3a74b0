-- ===== src/Tcp/Poll/Steps.antt =====
-- The loop of server_poll over pollFds_ (TCPServer.cpp), without a bound on its steps, and the pass with
-- a number of steps that models it.
use network_all_in_one.Prelude.{
  ℕ, zero, suc, ◌+◌, ◌≤◌, ◌≡◌, refl, ap, inl, inr, Bool, Bool-cases, List, [], ◌∷◌, ◌++◌, Option,
  none, some, true, false, arith, length, length-append, append-nil,
}
use network_all_in_one.Text.{Bytes, Result, ok, throws, Exception}
use network_all_in_one.Kernel.{
  World, pure, throw, open_descriptor, recv, send, close, try_call, next_count, rest_of, ◌>>=◌,
}
use network_all_in_one.Storage.Server.{is_server}
use network_all_in_one.Storage.Request.{buffer_size}
use network_all_in_one.Tcp.Echo.{TcpServer, Entry, NoData}
use network_all_in_one.Tcp.Poll.{
  Passed, through, gave_up, is_ready, accepted_entry, go_on, echo_entry, echo_pass, reported,
  echo_polled,
}

length-reported : (report : ℕ → Bool) (ps : List Entry) → length (reported report ps) ≡ length ps
unfolding reported
length-reported report [] = refl
length-reported report (p ∷ ps) = omega (arith, length-reported report ps)

grown :
    (rest : List Entry) (new : Entry) (r : Option ℕ) (os bigger : List (Option ℕ)) (n : ℕ)
    → bigger ≡ r ∷ os
    → length rest + length bigger ≤ n
    → length (rest ++ new ∷ []) + length os ≤ n
grown rest new r os bigger n e a = omega (arith, length-append rest (new ∷ []), ap length e)

-- The loop over pollFds_ as the source has it, with no bound on its steps: a run of it is a finite
-- derivation, and a run that goes on for ever has none. `Passes s seen rest w r`: with i at the
-- length of `seen`, the loop ends with `r`.
pub data Passes (s : TcpServer)
    : List Entry → List Entry → World NoData → Result Passed × World NoData → Type 0 where
  over :
      {seen : List Entry} {w : World NoData}
      → Passes s seen [] w (ok (through (record s { poll_fds = seen })), w)
  quiet :
      {seen rest : List Entry} {p : Entry} {w : World NoData} {r : Result Passed × World NoData}
      → is_ready p ≡ false
      → Passes s (seen ++ p ∷ []) rest w r
      → Passes s seen (p ∷ rest) w r
  connection :
      {seen rest : List Entry} {p new : Entry} {w v : World NoData}
      {r : Result Passed × World NoData}
      → is_ready p ≡ true
      → is_server s.server_socket p.fd ≡ true
      → (open_descriptor >>= accepted_entry) w ≡ (ok (some new), v)
      → Passes s (seen ++ p ∷ []) (rest ++ new ∷ []) v r
      → Passes s seen (p ∷ rest) w r
  no_connection :
      {seen rest : List Entry} {p : Entry} {w v : World NoData}
      → is_ready p ≡ true
      → is_server s.server_socket p.fd ≡ true
      → (open_descriptor >>= accepted_entry) w ≡ (ok none, v)
      → Passes s seen (p ∷ rest) w (ok (gave_up (record s { poll_fds = seen ++ p ∷ rest })), v)
  answered :
      {seen rest before behind : List Entry} {p : Entry} {w v : World NoData}
      {r : Result Passed × World NoData}
      → is_ready p ≡ true
      → is_server s.server_socket p.fd ≡ false
      → (recv p.fd buffer_size >>= echo_entry p seen rest) w ≡ (ok (before, behind), v)
      → Passes s before behind v r
      → Passes s seen (p ∷ rest) w r
  thrown :
      {seen rest : List Entry} {p : Entry} {e : Exception} {w v : World NoData}
      → is_ready p ≡ true
      → is_server s.server_socket p.fd ≡ false
      → (recv p.fd buffer_size >>= echo_entry p seen rest) w ≡ (throws e, v)
      → Passes s seen (p ∷ rest) w (throws e, v)

module _ (steps : ℕ) (s : TcpServer) where
  Covered : Type 0
  Covered =
      (seen rest : List Entry) (w : World NoData)
      → length rest + length w.opens ≤ steps
      → Passes s seen rest w (echo_pass steps s seen rest w)

  module _ (seen rest : List Entry) (p : Entry) (w : World NoData) (k : Covered)
      (a : length rest + length w.opens ≤ steps) (event : is_ready p ≡ true) where
    accept_covered :
        (os : List (Option ℕ))
        → is_server s.server_socket p.fd ≡ true
        → w.opens ≡ os
        → Passes s seen (p ∷ rest) w (
            (open_descriptor >>= λ client.
            accepted_entry client
            >>= go_on
                (record s { poll_fds = seen ++ p ∷ rest })
                (λ new. echo_pass steps s (seen ++ p ∷ []) (rest ++ new ∷ [])))
              w)
    unfolding Covered open_descriptor accepted_entry ◌>>=◌ next_count try_call pure
    accept_covered [] listens e = rw e (no_connection event listens refl)
    accept_covered (none ∷ os) listens e = rw e (no_connection event listens refl)
    accept_covered (some fd ∷ os) listens e = rw e (
        connection event listens refl
          (k (seen ++ p ∷ []) (rest ++ _ ∷ []) _ (grown rest _ _ os w.opens steps e a)))

    -- What stands in the script of recv, and of send.
    module _ (client : is_server s.server_socket p.fd ≡ false) where
      read_covered :
          (got : Option Bytes) (room : Option ℕ)
          → (recv p.fd buffer_size w) ≡ (ok got, record w { recvs = rest_of w.recvs })
          → next_count w.sends ≡ room
          → Passes s seen (p ∷ rest) w (
              (recv p.fd buffer_size >>= λ got.
              echo_entry p seen rest got >>= λ state. echo_pass steps s state.0 state.1)
                w)
      unfolding Covered echo_entry throw close pure send ◌>>=◌
      read_covered none room e f = rw e (thrown event client (rw e refl))
      read_covered (some []) room e f =
          elim rest
              as (λ (rest : List Entry).
                length rest + length w.opens ≤ steps
                → Passes s seen (p ∷ rest) w (
                    (recv p.fd buffer_size >>= λ got.
                    echo_entry p seen rest got >>= λ state. echo_pass steps s state.0 state.1)
                      w)) [
                        | [] ↦ λ b.
                            rw e
                              (answered event client (rw e refl) (k seen [] _ (omega (arith, b))))
                        | q ∷ qs ↦ λ b. rw e (
                            answered event client (rw e refl)
                              (k (seen ++ q ∷ []) qs _ (omega (arith, b))))
                      ]
            a
      read_covered (some (c ∷ cs)) none e f =
          rw (e, f, send)
            (answered event client (rw (e, f, send) refl) (k (seen ++ p ∷ []) rest _ a))
      read_covered (some (c ∷ cs)) (some room) e f =
          rw (e, f, send)
            (answered event client (rw (e, f, send) refl) (k (seen ++ p ∷ []) rest _ a))

echo_pass_covered : (steps : ℕ) (s : TcpServer) → Covered steps s
unfolding echo_pass Covered pure recv
echo_pass_covered zero s seen [] w a = rw append-nil over
echo_pass_covered zero s seen (p ∷ rest) w a = absurd (omega (arith, a))
echo_pass_covered (suc n) s seen [] w a = over
echo_pass_covered (suc n) s seen (p ∷ rest) w a = elim (Bool-cases (is_ready p)) [
  | inr silent ↦
      rw silent (quiet silent (echo_pass_covered n s (seen ++ p ∷ []) rest w (omega (arith, a))))
  | inl event ↦ rw event (elim (Bool-cases (is_server s.server_socket p.fd)) [
    | inl listens ↦ rw listens (
        accept_covered n s seen rest p w (echo_pass_covered n s) (omega (arith, a)) event w.opens
          listens refl)
    | inr client ↦ rw client (
        read_covered n s seen rest p w (echo_pass_covered n s) (omega (arith, a)) event client _ _
          refl refl)
  ])
]

-- The loop of server_poll over pollFds_ ends, for every report, whatever accept and the clients do:
-- the source's loop, which has no bound, has a finite run from the first entry, and it ends with the
-- result and the world that the round with its number of steps gives.
pub echo_polled-Passes :
    (s : TcpServer) (report : ℕ → Bool) (w : World NoData)
    → Passes s [] (reported report s.poll_fds) w (echo_polled s report w)
unfolding echo_polled Covered
echo_polled-Passes s report w =
    echo_pass_covered _ s [] (reported report s.poll_fds) w
      (omega (arith, length-reported report s.poll_fds))
