-- ===== src/Storage/Loops/Poll/AsSelect.antt =====
-- A round of runPoll and a round of runSelect do the same for the same report
-- (FileStorageServer.cpp).
use network_all_in_one.Prelude.{
  ℕ, suc, ◌+◌, ◌*◌, ◌≤◌, ◌≡◌, refl, sym, ap, subst, ◌∙◌, inl, inr, true, false, Bool-cases, List,
  [], ◌∷◌, ◌++◌, Option, none, some, arith, length, length-append, count, contains, ◌==◌,
}
use network_all_in_one.Text.{Bytes}
use network_all_in_one.Kernel.{World, pure, open_descriptor, next_count, rest_of, ◌>>=◌}
use network_all_in_one.Kernel.Laws.{bind_assoc, bind_congr, bind_pure, bind_at, pure_bind}
use network_all_in_one.Storage.Disk.{FileSystem}
use network_all_in_one.Storage.Server.{Server, ServerType, PollFd, Revents, remember, is_server}
use network_all_in_one.Storage.Loops.{
  accept_polled, poll_pass, poll_round, polled, push_poll, has_event, accept_selected,
  remember_accepted, serve_selected, select_round,
}
use network_all_in_one.Storage.Loops.Poll.{descriptors, descriptors-append, descriptors-polled}
use network_all_in_one.Storage.Loops.Poll.Passes.{
  length-polled, IsDistinct, IsDistinct-snoc, All-snoc, Agreeing, pass_selects,
}

module _ (fs : FileSystem) (listener : ℕ) (type : ServerType) (path : Bytes) where
  -- A server as a round of runPoll finds it: the listening socket is the first entry.
  abbrev pub polling : List ℕ → List PollFd → Server
  polling clients entries = record {
    server_socket = some listener;
    server_type = type;
    storage_path = path;
    client_sockets = clients;
    poll_fds = push_poll listener ∷ entries;
  }

  module _ (report : ℕ → Revents) (fds : List ℕ)
      (same : (fd : ℕ) → has_event (report fd) ≡ contains fd fds) where
    agreeing :
        (ps : List PollFd)
        → count listener (descriptors ps) ≡ 0
        → Agreeing fs fds (some listener) (polled report ps)
    unfolding polled
    agreeing [] h = tt
    agreeing (p ∷ ps) h = ((ground (arith, h), same p.fd), agreeing ps (ground (arith, h)))

    -- The clients that the pass of runPoll leaves, and all that it does.
    pass_clients :
        (rest : List PollFd) (steps : ℕ) (s : Server) (seen : List PollFd) (w : World fs.Disk)
        → length rest ≤ steps
        → Agreeing fs fds s.server_socket rest
        → s.client_sockets ≡ descriptors rest
        → IsDistinct (descriptors rest)
        → (poll_pass fs steps s seen rest
              >>= (λ state. pure (record state.0 { poll_fds = state.1 }))
              >>= (λ t. pure t.client_sockets))
            w
          ≡ serve_selected fs s.storage_path fds (descriptors rest) w
    pass_clients rest steps s seen w a g e u =
        bind_assoc (poll_pass fs steps s seen rest) _ _ w
        ∙ bind_at (poll_pass fs steps s seen rest) _ _ w
            (pass_selects fs fds rest steps s [] seen w a g e u)
        ∙ bind_assoc (serve_selected fs s.storage_path fds (descriptors rest)) _ _ w
        ∙ bind_congr (serve_selected fs s.storage_path fds (descriptors rest)) _ pure w
            (λ left v. pure_bind _ _ v ∙ pure_bind _ _ v)
        ∙ bind_pure (serve_selected fs s.storage_path fds (descriptors rest)) w

    -- The same for runSelect.
    select_clients :
        (s : Server) (w : World fs.Disk)
        → (serve_selected fs s.storage_path fds s.client_sockets
              >>= (λ left. pure (record s { client_sockets = left }))
              >>= (λ t. pure t.client_sockets))
            w
          ≡ serve_selected fs s.storage_path fds s.client_sockets w
    select_clients s w =
        bind_assoc (serve_selected fs s.storage_path fds s.client_sockets) _ _ w
        ∙ bind_congr (serve_selected fs s.storage_path fds s.client_sockets) _ pure w
            (λ left v. pure_bind _ _ v)
        ∙ bind_pure (serve_selected fs s.storage_path fds s.client_sockets) w

    -- The number that accept gives is new: not in the set, and not one of these.
    abbrev pub IsFresh : List ℕ → Option ℕ → Type 0
    IsFresh held none = Unit
    IsFresh held (some fd) = (contains fd fds ≡ false) × (count fd held ≡ 0)

    module _ (ps : List PollFd) (steps : ℕ) (enough : suc (length ps) ≤ steps)
        (distinct : IsDistinct (listener ∷ descriptors ps)) where
      here : Server
      here = polling (descriptors ps) ps

      entries : List PollFd
      entries = polled report ps

      listed :
          (fd : ℕ) → descriptors (polled report ps ++ push_poll fd ∷ []) ≡ descriptors ps ++ fd ∷ []
      unfolding push_poll
      listed fd =
          descriptors-append (polled report ps) (push_poll fd ∷ [])
          ∙ ap (λ ds. ds ++ fd ∷ []) (descriptors-polled report ps)

      pushed_agrees :
          (fd : ℕ)
          → IsFresh (listener ∷ descriptors ps) (some fd)
          → (is_server (some listener) fd ≡ false)
            × (has_event (push_poll fd).revents ≡ contains fd fds)
      unfolding push_poll has_event
      pushed_agrees fd f = (ground (arith, f.1), sym f.0)

      quiet_same :
          (seen : List PollFd) (w : World fs.Disk)
          → (poll_pass fs steps here seen entries
                >>= (λ state. pure (record state.0 { poll_fds = state.1 }))
                >>= (λ t. pure t.client_sockets))
              w
            ≡ (serve_selected fs path fds (descriptors ps)
                  >>= (λ left. pure (record here { client_sockets = left }))
                  >>= (λ t. pure t.client_sockets))
                w
      unfolding here entries
      quiet_same seen w =
          pass_clients (polled report ps) steps here seen w
            (omega (arith, length-polled report ps, enough))
            (agreeing ps (ground (arith, distinct listener))) (sym (descriptors-polled report ps))
            (subst IsDistinct (sym (descriptors-polled report ps))
              (λ fd. ground (arith, distinct fd)))
          ∙ rw (descriptors-polled report ps) (sym (select_clients here w))

      quiet_round :
          (seen : List PollFd) (w : World fs.Disk)
          → (poll_pass fs steps here seen entries
                >>= (λ state. pure (record state.0 { poll_fds = state.1 }))
                >>= (λ t. pure t.client_sockets))
              w
            ≡ (pure here
                  >>= (λ s'. serve_selected fs s'.storage_path fds s'.client_sockets >>= λ left.
                      pure (record s' { client_sockets = left }))
                  >>= (λ t. pure t.client_sockets))
                w
      unfolding ◌>>=◌ pure here
      quiet_round seen w = quiet_same seen w

      accepted_same :
          (fd : ℕ) (seen : List PollFd) (w : World fs.Disk)
          → IsFresh (listener ∷ descriptors ps) (some fd)
          → (poll_pass fs steps (remember here fd) seen (entries ++ push_poll fd ∷ [])
                >>= (λ state. pure (record state.0 { poll_fds = state.1 }))
                >>= (λ t. pure t.client_sockets))
              w
            ≡ (serve_selected fs path fds (descriptors ps ++ fd ∷ [])
                  >>= (λ left. pure (record (remember here fd) { client_sockets = left }))
                  >>= (λ t. pure t.client_sockets))
                w
      unfolding here entries remember push_poll
      accepted_same fd seen w f =
          pass_clients (polled report ps ++ push_poll fd ∷ []) steps (remember here fd) seen w
            (omega (
              arith,
              length-polled report ps,
              length-append (polled report ps) (push_poll fd ∷ []),
              enough,
            ))
            (All-snoc _ (polled report ps) (push_poll fd)
              (agreeing ps (ground (arith, distinct listener))) (pushed_agrees fd f))
            (sym (listed fd))
            (rw (listed fd) (
              IsDistinct-snoc fd (descriptors ps) (λ x. ground (arith, distinct x))
                (ground (arith, f.1))))
          ∙ rw (listed fd) (sym (select_clients (remember here fd) w))

      accept_same :
          (r : Option ℕ) (seen : List PollFd) (w : World fs.Disk)
          → next_count w.opens ≡ r
          → IsFresh (listener ∷ descriptors ps) r
          → (open_descriptor
                >>= (λ client. accept_polled fs here entries client >>= λ state.
                    poll_pass fs steps state.0 seen state.1)
                >>= (λ state. pure (record state.0 { poll_fds = state.1 }))
                >>= (λ t. pure t.client_sockets))
              w
            ≡ (open_descriptor
                  >>= (λ client. remember_accepted fs here client)
                  >>= (λ s'. serve_selected fs s'.storage_path fds s'.client_sockets >>= λ left.
                      pure (record s' { client_sockets = left }))
                  >>= (λ t. pure t.client_sockets))
                w
      unfolding open_descriptor accept_polled remember_accepted ◌>>=◌ pure here remember
      accept_same none seen w e f =
          rw (e, open_descriptor) (quiet_same seen (record w { opens = rest_of w.opens }))
      accept_same (some fd) seen w e f =
          rw (e, open_descriptor)
            (accepted_same fd seen (record w { opens = rest_of w.opens; opened = fd ∷ w.opened }) f)

    -- A round of runPoll and a round of runSelect, from the same clients and world and for reports that
    -- agree: the same result, the same clients left in the same order, and the same calls made (the
    -- same bytes read and sent, files changed, descriptors opened and closed). Conditions: the listening
    -- socket is the first entry of pollFds_ and the clients the others, in the order of
    -- clientSockets_; no descriptor stands twice; and a number that accept gives is none of these and
    -- not in the report.
    pub poll_round_as_select :
        (ps : List PollFd) (w : World fs.Disk)
        → IsDistinct (listener ∷ descriptors ps)
        → IsFresh (listener ∷ descriptors ps) (next_count w.opens)
        → (poll_round fs (polling (descriptors ps) ps) report >>= λ t. pure t.client_sockets) w
          ≡ (select_round fs (polling (descriptors ps) ps) fds >>= λ t. pure t.client_sockets) w
    unfolding poll_round poll_pass polled push_poll select_round accept_selected
    poll_round_as_select ps w u f =
        let e : 2 * suc (length ps) + 1 ≡ suc (2 * length ps + 2) = omega arith in
        let self : (listener == listener) ≡ true = ground arith in
        rw e (elim (Bool-cases (contains listener fds)) [
          | inr quiet ↦
              rw (same listener, quiet)
                (unfold here entries in
                  quiet_round ps (2 * length ps + 2) (omega arith) u (_ ∷ []) w)
          | inl event ↦
              rw (same listener, event)
                (rw self (
                  unfold here entries in
                  accept_same ps (2 * length ps + 2) (omega arith) u (next_count w.opens) (_ ∷ []) w
                    refl f))
        ])
