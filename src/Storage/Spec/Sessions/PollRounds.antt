-- ===== src/Storage/Spec/Sessions/PollRounds.antt =====
-- The rounds and the loop of runPoll (FileStorageServer.cpp) against the specification.
use network_all_in_one.Prelude.{
  ℕ, suc, ◌+◌, ◌*◌, ◌≡◌, refl, sym, ap, ◌∙◌, true, false, List, [], ◌∷◌, ◌++◌, append-nil, Option,
  none, some, arith, length, ◌==◌, ==_refl,
}
use network_all_in_one.Text.{Bytes, ok}
use network_all_in_one.Kernel.{World, pure, open_descriptor, next_count, ◌>>=◌}
use network_all_in_one.Storage.Disk.{FileSystem, FileSystemLaws}
use network_all_in_one.Storage.Disk.Names.{FileNames}
use network_all_in_one.Storage.Server.{Server, ServerType, PollFd, Revents, remember}
use network_all_in_one.Storage.Loops.{has_event, polled, accept_polled, poll_pass, poll_round}
use network_all_in_one.Storage.Loops.Poll.{descriptors}
use network_all_in_one.Storage.Spec.Sessions.{streams, AllDeliver, Session, starts_from}
use network_all_in_one.Storage.Spec.Sessions.Select.{Held, sockets, asking}
use network_all_in_one.Storage.Spec.Sessions.SelectTurns.{connects, arrival}
use network_all_in_one.Storage.Spec.Sessions.PollPasses.{passing}
use network_all_in_one.Storage.Spec.Sessions.PollTurns.{PollTurn, Told, left_by, clients_pass}

module _ (fs : FileSystem) (laws : FileSystemLaws fs) (names : FileNames fs)
    (flushed : (d : fs.Disk) (p : Bytes) → (fs.flush d p).1 ≡ true) (listener : ℕ)
    (type : ServerType) (path : Bytes) where
  abbrev at : List PollFd → List ℕ → Server
  at = passing fs laws names flushed listener type path

  module _ (self : PollFd) (ps : List PollFd) (report : ℕ → Revents) (held : List Held)
      (more : List (Option Bytes)) (os : List (Option ℕ)) (own : self.fd ≡ listener)
      (holds : descriptors ps ≡ sockets held) (told : Told listener report held)
      (deliver : AllDeliver (asking held)) where
    abbrev pub turn : Option (Option ℕ) → PollTurn
    turn connection = record { report = report; connection = connection; held = held }

    -- The entry of the listening socket and the others, behind a round.
    abbrev pub Passed : Option (Option ℕ) → List ℕ → World fs.Disk → Type 0
    Passed connection clients w =
        (v : World fs.Disk) × (clients' : List ℕ) × (first : PollFd) × (left : List PollFd)
        × (poll_round fs (at (self ∷ ps) clients) report w ≡ (ok (at (first ∷ left) clients'), v))
        × (first.fd ≡ listener)
        × (descriptors left ≡ left_by (turn connection))
        × Session fs laws names flushed path (asking held) w v
        × (v.recvs ≡ more)
        × (v.opens ≡ os)

    steps_left : 2 * suc (length ps) + 1 ≡ suc (2 * length ps + 2)
    steps_left = omega arith

    pub round_of :
        (connection : Option (Option ℕ)) (clients : List ℕ) (w : World fs.Disk)
        → has_event (report listener) ≡ connects connection
        → w.recvs ≡ streams (asking held) ++ more
        → w.opens ≡ arrival connection ++ os
        → Passed connection clients w
    unfolding poll_round poll_pass polled accept_polled remember open_descriptor next_count pure
        ◌>>=◌
    round_of none clients w l e o =
        let first : PollFd = record self { revents = report self.fd } in
        let quiet : has_event (report self.fd) ≡ false = ap (λ x. has_event (report x)) own ∙ l in
        let (v, clients', left, x, k, a, e1, o1) =
          clients_pass fs laws names flushed listener type path (self ∷ ps) ps (turn none)
            (2 * length ps + 2) (first ∷ []) clients more w holds told deliver (omega arith) e in
        let x' =
          ap (λ rest. poll_pass fs (2 * length ps + 2) (at (self ∷ ps) clients) (first ∷ []) rest w)
            (sym (append-nil (polled report ps)))
          ∙ x in
        (v, clients', first, left, rw (steps_left, quiet, x') refl, own, k, a, e1, o1 ∙ o)
    round_of (some none) clients w l e o =
        let first : PollFd = record self { revents = report self.fd } in
        let event : has_event (report self.fd) ≡ true = ap (λ x. has_event (report x)) own ∙ l in
        let listens : (self.fd == listener) ≡ true = rw own (==_refl listener) in
        let u : World fs.Disk = record w { opens = os } in
        let (v, clients', left, x, k, a, e1, o1) =
          clients_pass fs laws names flushed listener type path (self ∷ ps) ps (turn (some none))
            (2 * length ps + 2) (first ∷ []) clients more u holds told deliver (omega arith) e in
        let x' =
          ap (λ rest. poll_pass fs (2 * length ps + 2) (at (self ∷ ps) clients) (first ∷ []) rest u)
            (sym (append-nil (polled report ps)))
          ∙ x in
        (
          v,
          clients',
          first,
          left,
          rw (steps_left, event, listens, o, x') refl,
          own,
          k,
          starts_from fs laws names flushed path w u v refl refl a,
          e1,
          o1,
        )
    round_of (some (some fd)) clients w l e o =
        let first : PollFd = record self { revents = report self.fd } in
        let event : has_event (report self.fd) ≡ true = ap (λ x. has_event (report x)) own ∙ l in
        let listens : (self.fd == listener) ≡ true = rw own (==_refl listener) in
        let u : World fs.Disk = record w { opens = os; opened = fd ∷ w.opened } in
        let (v, clients', left, x, k, a, e1, o1) =
          clients_pass fs laws names flushed listener type path (self ∷ ps) ps
            (turn (some (some fd))) (2 * length ps + 2) (first ∷ []) (clients ++ fd ∷ []) more u
            holds told deliver (omega arith) e in
        (
          v,
          clients',
          first,
          left,
          rw (steps_left, event, listens, o, x) refl,
          own,
          k,
          starts_from fs laws names flushed path w u v refl refl a,
          e1,
          o1,
        )
