-- ===== src/Storage/Spec/Sessions/SelectLoop.antt =====
-- A run of the loop of runSelect (FileStorageServer.cpp) against the specification.
use network_all_in_one.Prelude.{
  ℕ, ◌+◌, ◌<◌, ◌≡◌, refl, ap, ◌∙◌, true, false, List, [], ◌∷◌, ◌++◌, Option, none, some, arith,
  contains, All, ==_refl,
}
use network_all_in_one.Text.{Bytes, ok}
use network_all_in_one.Kernel.{World, pure, lift, ◌>>=◌}
use network_all_in_one.Storage.Disk.{FileSystem, FileSystemLaws}
use network_all_in_one.Storage.Disk.Names.{FileNames}
use network_all_in_one.Storage.Server.{Server, ServerType, PollFd}
use network_all_in_one.Storage.Loops.{
  looping, fd_setsize, select_set, max_fd, selected, select_round, select_loop,
}
use network_all_in_one.Storage.Spec.Sessions.{streams, AllDeliver, Session, over, followed_by}
use network_all_in_one.Storage.Spec.Sessions.Select.{Held, sockets, asking, waiting, Reports}
use network_all_in_one.Storage.Spec.Sessions.SelectSets.{
  set_fds-fits, max_fd-start, max_fd-bounds, selected_as_reported, selected_outside,
  Reports-selected,
}
use network_all_in_one.Storage.Spec.Sessions.SelectTurns.{
  Turn, connects, arrival, newcomer, Reports-append, serving, turn_round,
}
use network_all_in_one.Storage.Spec.Sessions.Series.{
  answers, all_asking, all_streams, all_arrivals, clients_behind,
}

-- A number that accept gives is of no descriptor that is open.
abbrev pub IsNew : List ℕ → Option (Option ℕ) → Type 0
IsNew open_fds none = Unit
IsNew open_fds (some none) = Unit
IsNew open_fds (some (some fd)) = contains fd open_fds ≡ false

abbrev pub Fits : ℕ → List ℕ → Type 0
Fits listener clients = All (λ fd. fd < fd_setsize) (listener ∷ clients)

-- A report for a server that holds these clients: they are below FD_SETSIZE; those that are reported
-- are ready with whole commands; and the listening socket is reported where a client connects.
pub record IsTurn (listener : ℕ) (clients : List ℕ) (t : Turn) : Type 0 where
  pub holds : clients ≡ sockets t.held
  pub fit : Fits listener clients
  pub listens : contains listener t.report ≡ connects t.connection
  pub reports : Reports t.report t.held
  pub deliver : AllDeliver (asking t.held)
  pub fresh : IsNew (listener ∷ clients) t.connection

abbrev pub left_by : Turn → List ℕ
left_by t = waiting (t.held ++ newcomer t.connection)

-- The reports of a series, in which `none` is an interruption.
abbrev pub AllTurns : ℕ → List ℕ → List (Option Turn) → Type 0
AllTurns listener clients [] = Unit
AllTurns listener clients (none ∷ ts) = Fits listener clients × AllTurns listener clients ts
AllTurns listener clients (some t ∷ ts) =
    IsTurn listener clients t × AllTurns listener (left_by t) ts

-- What select leaves in the set.
abbrev reported : ℕ → List ℕ → List ℕ → List ℕ
reported listener clients report =
    selected (max_fd listener clients + 1) report (listener ∷ clients)

module _ (listener : ℕ) (clients report : List ℕ) where
  reported_listener :
      contains listener (reported listener clients report) ≡ contains listener report
  reported_listener =
      selected_as_reported (max_fd listener clients + 1) report listener (listener ∷ clients)
        (rw (==_refl listener) refl) (omega (arith, max_fd-start listener clients))

  newcomer_waits :
      (connection : Option (Option ℕ))
      → IsNew (listener ∷ clients) connection
      → Reports (reported listener clients report) (newcomer connection)
  newcomer_waits none n = tt
  newcomer_waits (some none) n = tt
  newcomer_waits (some (some fd)) n =
      (selected_outside (max_fd listener clients + 1) report fd (listener ∷ clients) n, tt)

  held_below :
      (x : ℕ)
      → contains x clients ≡ true
      → (contains x (listener ∷ clients) ≡ true) × (x < max_fd listener clients + 1)
  held_below x h = (ground (arith, h), omega (arith, max_fd-bounds listener x clients h))

  Reports-reported :
      (held : List Held) (connection : Option (Option ℕ))
      → clients ≡ sockets held
      → Reports report held
      → IsNew (listener ∷ clients) connection
      → Reports (reported listener clients report) (held ++ newcomer connection)
  Reports-reported held connection k r n =
      Reports-append _ held (newcomer connection)
        (Reports-selected (max_fd listener clients + 1) report (listener ∷ clients) held
          (λ x h. held_below x (ap (contains x) k ∙ h)) r)
        (newcomer_waits connection n)

module _ (fs : FileSystem) (laws : FileSystemLaws fs) (names : FileNames fs)
    (flushed : (d : fs.Disk) (p : Bytes) → (fs.flush d p).1 ≡ true) (listener : ℕ)
    (type : ServerType) (path : Bytes) (entries : List PollFd) where
  abbrev at : List ℕ → Server
  at = serving fs laws names flushed listener type path entries

  -- What the loop makes of the reports.
  abbrev pub Outcome :
      List (Option Turn) → List ℕ → List (Option Bytes) → List (Option ℕ) → World fs.Disk → Type 0
  Outcome ts clients more os w =
      (v : World fs.Disk) × (select_loop fs (answers (λ (t : Turn). t.report) ts) (at clients) w
        ≡ (ok (looping (at (clients_behind (λ (t : Turn) clients. left_by t) ts clients))), v))
      × Session fs laws names flushed path (all_asking (λ (t : Turn). asking t.held) ts) w v
      × (v.recvs ≡ more)
      × (v.opens ≡ os)

  -- One round, with the set that the loop builds.
  round_of :
      (clients : List ℕ) (t : Turn) (more : List (Option Bytes)) (os : List (Option ℕ))
      (w : World fs.Disk)
      → IsTurn listener clients t
      → w.recvs ≡ streams (asking t.held) ++ more
      → w.opens ≡ arrival t.connection ++ os
      → (v : World fs.Disk) × (select_round fs (at clients) (reported listener clients t.report) w
          ≡ (ok (at (left_by t)), v))
        × Session fs laws names flushed path (asking t.held) w v
        × (v.recvs ≡ more)
        × (v.opens ≡ os)
  round_of clients t more os w h e o =
      let (v, x, a, e1, o1) =
        turn_round fs laws names flushed listener type path entries
          (reported listener clients t.report) t.held more os t.connection w
          (reported_listener listener clients t.report ∙ h.listens)
          (Reports-reported listener clients t.report t.held t.connection h.holds h.reports h.fresh)
          h.deliver e o in
      (
        v,
        ap (λ cs. select_round fs (at cs) (reported listener clients t.report) w) h.holds ∙ x,
        a,
        e1,
        o1,
      )

  -- The loop of runSelect, over any number of reports and interruptions: where every descriptor is
  -- below FD_SETSIZE, each client that is reported is ready with a whole command of the protocol,
  -- and no flush of a file fails, the loop goes through all of them and would wait again, with
  -- every such client answered in its turn by a reply that the specification allows over the files
  -- that the one before it left; the server then holds those that were not reported and those that
  -- have connected. To be answered is to be sent the whole reply, or a proper part of it where the
  -- kernel then refused a send; nothing else is sent.
  pub select_loop-Session :
      (ts : List (Option Turn)) (clients : List ℕ) (more : List (Option Bytes))
      (os : List (Option ℕ)) (w : World fs.Disk)
      → AllTurns listener clients ts
      → w.recvs ≡ all_streams (λ (t : Turn). asking t.held) ts more
      → w.opens ≡ all_arrivals (λ (t : Turn). arrival t.connection) ts os
      → Outcome ts clients more os w
  unfolding select_loop select_set lift pure ◌>>=◌
  select_loop-Session [] clients more os w h e o = (w, refl, over refl refl, e, o)
  select_loop-Session (none ∷ ts) clients more os w h e o =
      let (v, x, a, e1, o1) = select_loop-Session ts clients more os w h.1 e o in
      (v, rw (set_fds-fits (listener ∷ clients) h.0) x, a, e1, o1)
  select_loop-Session (some t ∷ ts) clients more os w h e o =
      let (v, x, a, e1, o1) =
        round_of clients t (all_streams (λ (t : Turn). asking t.held) ts more)
          (all_arrivals (λ (t : Turn). arrival t.connection) ts os) w h.0 e o in
      let (u, y, b, e2, o2) = select_loop-Session ts (left_by t) more os v h.1 e1 o1 in
      (
        u,
        rw (set_fds-fits (listener ∷ clients) h.0.fit, x) y,
        followed_by fs laws names flushed path w v u a b,
        e2,
        o2,
      )
