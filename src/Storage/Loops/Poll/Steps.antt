-- ===== src/Storage/Loops/Poll/Steps.antt =====
-- The loop of runPoll over pollFds_ (FileStorageServer.cpp), without a bound on its steps, and the pass
-- with a number of steps that models it.
use network_all_in_one.Prelude.{
  ◌*◌, length, inl, inr, Bool-cases, ℕ, zero, suc, ◌+◌, ◌≤◌, ◌≡◌, refl, append-nil, true, false,
  List, [], ◌∷◌, ◌++◌, Option, none, some, arith, if◌then◌else◌,
}
use network_all_in_one.Text.{Result, ok, throws, Exception}
use network_all_in_one.Kernel.{World, pure, open_descriptor, close, next_count, ◌>>=◌}
use network_all_in_one.Storage.Disk.{FileSystem}
use network_all_in_one.Storage.Server.{Server, close_client, remember, serve, is_server, PollFd}
use network_all_in_one.Storage.Server.{Revents}
use network_all_in_one.Storage.Loops.{accept_polled, poll_pass, push_poll, polled, has_event}

-- The steps that a list of entries can take: one each, and one more for a client that is accepted.
pub work : List PollFd → ℕ
work [] = 0
work (p ∷ ps) = if has_event p.revents then work ps + 2 else work ps + 1

work-append : (ps qs : List PollFd) → work (ps ++ qs) ≡ work ps + work qs
unfolding work
work-append [] qs = omega arith
work-append (p ∷ ps) qs = ground (arith, work-append ps qs)

work-push : (ps : List PollFd) (fd : ℕ) → work (ps ++ push_poll fd ∷ []) ≡ work ps + 1
unfolding work push_poll has_event
work-push ps fd = omega (arith, work-append ps (push_poll fd ∷ []))

work-le : (report : ℕ → Revents) (ps : List PollFd) → work (polled report ps) ≤ 2 * length ps
unfolding work polled
work-le report [] = omega arith
work-le report (p ∷ ps) = ground (arith, work-le report ps)

module _ (fs : FileSystem) where
  -- The loop over pollFds_ as the source has it, with no bound on its steps: a run of it is a finite
  -- derivation, and a run that goes on for ever has none. `Passes s seen rest w r`: with i at the
  -- length of `seen`, the loop ends with `r`.
  pub data Passes
      : Server
        → List PollFd
        → List PollFd
        → World fs.Disk
        → Result (Server × List PollFd) × World fs.Disk
        → Type 0 where
    over :
        {s : Server} {seen : List PollFd} {w : World fs.Disk} → Passes s seen [] w (ok (s, seen), w)
    quiet :
        {s : Server} {seen rest : List PollFd} {p : PollFd} {w : World fs.Disk}
        {r : Result (Server × List PollFd) × World fs.Disk}
        → has_event p.revents ≡ false
        → Passes s (seen ++ p ∷ []) rest w r
        → Passes s seen (p ∷ rest) w r
    connection :
        {s s' : Server} {seen rest more : List PollFd} {p : PollFd} {w v : World fs.Disk}
        {r : Result (Server × List PollFd) × World fs.Disk}
        → has_event p.revents ≡ true
        → is_server s.server_socket p.fd ≡ true
        → (open_descriptor >>= accept_polled fs s rest) w ≡ (ok (s', more), v)
        → Passes s' (seen ++ p ∷ []) more v r
        → Passes s seen (p ∷ rest) w r
    served :
        {s s' : Server} {seen rest : List PollFd} {p : PollFd} {w v : World fs.Disk}
        {r : Result (Server × List PollFd) × World fs.Disk}
        → has_event p.revents ≡ true
        → is_server s.server_socket p.fd ≡ false
        → (serve fs s.storage_path p.fd >>= λ _. close_client p.fd s) w ≡ (ok s', v)
        → Passes s' seen rest v r
        → Passes s seen (p ∷ rest) w r
    thrown :
        {s : Server} {seen rest : List PollFd} {p : PollFd} {e : Exception} {w v : World fs.Disk}
        → has_event p.revents ≡ true
        → is_server s.server_socket p.fd ≡ false
        → (serve fs s.storage_path p.fd >>= λ _. close_client p.fd s) w ≡ (throws e, v)
        → Passes s seen (p ∷ rest) w (throws e, v)

  Covered : ℕ → Type 0
  Covered steps =
      (s : Server) (seen rest : List PollFd)
      → work rest ≤ steps
      → (w : World fs.Disk) → Passes s seen rest w (poll_pass fs steps s seen rest w)

  accept_covered :
      (steps : ℕ) (s : Server) (seen rest : List PollFd) (p : PollFd) (w : World fs.Disk)
      (got : Option ℕ)
      → Covered steps
      → work rest + 1 ≤ steps
      → has_event p.revents ≡ true
      → is_server s.server_socket p.fd ≡ true
      → next_count w.opens ≡ got
      → Passes s seen (p ∷ rest) w (
          (open_descriptor >>= λ client. accept_polled fs s rest client >>= λ state.
          poll_pass fs steps state.0 (seen ++ p ∷ []) state.1)
            w)
  unfolding accept_polled open_descriptor ◌>>=◌ pure Covered
  accept_covered steps s seen rest p w none k a event listens e =
      rw (e, open_descriptor)
        (connection event listens (rw (e, open_descriptor) refl)
          (k s (seen ++ p ∷ []) rest (omega arith) _))
  accept_covered steps s seen rest p w (some fd) k a event listens e =
      rw (e, open_descriptor)
        (connection event listens (rw (e, open_descriptor) refl) (
          k (remember s fd) (seen ++ p ∷ []) (rest ++ push_poll fd ∷ [])
            (omega (arith, work-push rest fd)) _))

  serve_covered :
      (steps : ℕ) (s : Server) (seen rest : List PollFd) (p : PollFd) (w : World fs.Disk)
      (r : Result (Unit {0})) (v : World fs.Disk)
      → Covered steps
      → work rest ≤ steps
      → has_event p.revents ≡ true
      → is_server s.server_socket p.fd ≡ false
      → serve fs s.storage_path p.fd w ≡ (r, v)
      → Passes s seen (p ∷ rest) w (
          (serve fs s.storage_path p.fd >>= λ _.
          close_client p.fd s >>= λ s'. poll_pass fs steps s' seen rest)
            w)
  unfolding close_client close ◌>>=◌ pure Covered
  serve_covered steps s seen rest p w (ok tt) v k a event client e =
      rw e (served event client (rw e refl) (k _ seen rest a _))
  serve_covered steps s seen rest p w (throws x) v k a event client e =
      rw e (thrown event client (rw e refl))

  poll_pass_covered : (steps : ℕ) → Covered steps
  unfolding poll_pass work Covered pure
  poll_pass_covered zero s seen [] a w = rw append-nil over
  poll_pass_covered zero s seen (p ∷ rest) a w = absurd (ground arith)
  poll_pass_covered (suc n) s seen [] a w = over
  poll_pass_covered (suc n) s seen (p ∷ rest) a w = elim (Bool-cases (has_event p.revents)) [
    | inr silent ↦
        rw silent (quiet silent (poll_pass_covered n s (seen ++ p ∷ []) rest (ground arith) w))
    | inl event ↦ rw event (elim (Bool-cases (is_server s.server_socket p.fd)) [
      | inl listens ↦ rw listens (
          accept_covered n s seen rest p w (next_count w.opens) (poll_pass_covered n) (ground arith)
            event listens refl)
      | inr client ↦ rw client (
          serve_covered n s seen rest p w _ _ (poll_pass_covered n) (ground arith) event client
            refl)
    ])
  ]

  -- The loop of runPoll over pollFds_ ends, for every report, whatever accept and the clients do: the
  -- source's loop, which has no bound, has a finite run from the first entry, and it ends with the
  -- result and the world that the pass with its number of steps gives.
  pub poll_round-Passes :
      (s : Server) (report : ℕ → Revents) (w : World fs.Disk)
      → Passes s []
          (polled report s.poll_fds)
          w
          (poll_pass fs (2 * length s.poll_fds + 1) s [] (polled report s.poll_fds) w)
  unfolding Covered
  poll_round-Passes s report w =
      poll_pass_covered (2 * length s.poll_fds + 1) s [] (polled report s.poll_fds)
        (omega (arith, work-le report s.poll_fds)) w
