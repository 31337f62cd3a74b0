-- ===== src/Storage/Spec/Sessions/PollTurns.antt =====
-- A run of the loop of runPoll (FileStorageServer.cpp) against the specification.
use network_all_in_one.Prelude.{
  ℕ, ◌+◌, ◌≤◌, ◌≡◌, refl, sym, ap, subst, ◌∙◌, true, false, List, [], ◌∷◌, ◌++◌, Option, none, some,
  arith, length, length-append, ◌==◌,
}
use network_all_in_one.Text.{Bytes, ok}
use network_all_in_one.Kernel.{World}
use network_all_in_one.Storage.Disk.{FileSystem, FileSystemLaws}
use network_all_in_one.Storage.Disk.Names.{FileNames}
use network_all_in_one.Storage.Server.{Server, ServerType, PollFd, Revents}
use network_all_in_one.Storage.Loops.{has_event, push_poll, polled, poll_pass}
use network_all_in_one.Storage.Loops.Poll.{descriptors}
use network_all_in_one.Storage.Loops.Poll.Passes.{length-polled}
use network_all_in_one.Storage.Spec.Sessions.{streams, AllDeliver, Session}
use network_all_in_one.Storage.Spec.Sessions.Select.{Held, waits, asks, sockets, asking, waiting}
use network_all_in_one.Storage.Spec.Sessions.SelectTurns.{connects, newcomer, asking-newcomer}
use network_all_in_one.Storage.Spec.Sessions.PollPasses.{
  Marks, unserved, without_asking, descriptors-unserved, passing, poll_pass-Session,
}

-- A report of poll: the events of every descriptor; whether the listening socket has some, and then
-- what accept returns; and the clients that have entries, in their order.
pub record PollTurn : Type 0 where
  pub report : ℕ → Revents
  pub connection : Option (Option ℕ)
  pub held : List Held

-- The clients that ask have events, and those that wait have none.
abbrev pub Told : ℕ → (ℕ → Revents) → List Held → Type 0
Told listener report [] = Unit
Told listener report (waits fd ∷ hs) = (has_event (report fd) ≡ false) × Told listener report hs
Told listener report (asks c ∷ hs) =
    ((has_event (report c.fd) ≡ true) × ((c.fd == listener) ≡ false)) × Told listener report hs

pub record IsPollTurn (listener : ℕ) (clients : List ℕ) (t : PollTurn) : Type 0 where
  pub holds : clients ≡ sockets t.held
  pub listens : has_event (t.report listener) ≡ connects t.connection
  pub told : Told listener t.report t.held
  pub deliver : AllDeliver (asking t.held)

Marks-polled :
    (listener : ℕ) (report : ℕ → Revents) (ps : List PollFd) (hs : List Held)
    → descriptors ps ≡ sockets hs
    → Told listener report hs
    → Marks listener (polled report ps) hs
unfolding polled
Marks-polled listener report [] [] k t = tt
Marks-polled listener report [] (waits fd ∷ hs) k t = cc
Marks-polled listener report [] (asks c ∷ hs) k t = cc
Marks-polled listener report (p ∷ ps) [] k t = cc
Marks-polled listener report (p ∷ ps) (waits fd ∷ hs) k t =
    let same : p.fd ≡ fd = cc in
    let rest : descriptors ps ≡ sockets hs = cc in
    ((same, ap (λ x. has_event (report x)) same ∙ t.0), Marks-polled listener report ps hs rest t.1)
Marks-polled listener report (p ∷ ps) (asks c ∷ hs) k t =
    let same : p.fd ≡ c.fd = cc in
    let rest : descriptors ps ≡ sockets hs = cc in
    (
      (same, ap (λ x. has_event (report x)) same ∙ t.0.0, t.0.1),
      Marks-polled listener report ps hs rest t.1,
    )

Marks-append :
    (listener : ℕ) (ps qs : List PollFd) (hs ks : List Held)
    → Marks listener ps hs
    → Marks listener qs ks
    → Marks listener (ps ++ qs) (hs ++ ks)
Marks-append listener [] qs [] ks m n = n
Marks-append listener [] qs (h ∷ hs) ks m n = cc
Marks-append listener (p ∷ ps) qs [] ks m n = cc
Marks-append listener (p ∷ ps) qs (h ∷ hs) ks m n = (m.0, Marks-append listener ps qs hs ks m.1 n)

abbrev pub left_by : PollTurn → List ℕ
left_by t = waiting (t.held ++ newcomer t.connection)

-- The entries that the pass goes over behind the listening socket.
abbrev pub pushed : Option (Option ℕ) → List PollFd
pushed none = []
pushed (some none) = []
pushed (some (some fd)) = push_poll fd ∷ []

pushed-Marks :
    (listener : ℕ) (connection : Option (Option ℕ))
    → Marks listener (pushed connection) (newcomer connection)
unfolding push_poll has_event
pushed-Marks listener none = tt
pushed-Marks listener (some none) = tt
pushed-Marks listener (some (some fd)) = ((refl, refl), tt)

length-pushed : (connection : Option (Option ℕ)) → length (pushed connection) ≤ 1
length-pushed none = omega arith
length-pushed (some none) = omega arith
length-pushed (some (some fd)) = omega arith

module _ (fs : FileSystem) (laws : FileSystemLaws fs) (names : FileNames fs)
    (flushed : (d : fs.Disk) (p : Bytes) → (fs.flush d p).1 ≡ true) (listener : ℕ)
    (type : ServerType) (path : Bytes) where
  abbrev at : List PollFd → List ℕ → Server
  at = passing fs laws names flushed listener type path

  -- The pass over the clients, the new one included, from a world behind accept.
  pub clients_pass :
      (entries ps : List PollFd) (t : PollTurn) (steps : ℕ) (seen : List PollFd) (clients : List ℕ)
      (more : List (Option Bytes)) (u : World fs.Disk)
      → descriptors ps ≡ sockets t.held
      → Told listener t.report t.held
      → AllDeliver (asking t.held)
      → length ps + 1 ≤ steps
      → u.recvs ≡ streams (asking t.held) ++ more
      → (v : World fs.Disk) × (clients' : List ℕ) × (left : List PollFd) × (poll_pass fs steps
            (at entries clients)
            seen
            (polled t.report ps ++ pushed t.connection)
            u
          ≡ (ok (at entries clients', seen ++ left), v))
        × (descriptors left ≡ left_by t)
        × Session fs laws names flushed path (asking t.held) u v
        × (v.recvs ≡ more)
        × (v.opens ≡ u.opens)
  clients_pass entries ps t steps seen clients more u k told d enough e =
      let same = asking-newcomer t.held t.connection in
      let marks =
        Marks-append listener (polled t.report ps) (pushed t.connection) t.held
          (newcomer t.connection) (Marks-polled listener t.report ps t.held k told)
          (pushed-Marks listener t.connection) in
      let (v, x, a, e1, o1) =
        poll_pass-Session fs laws names flushed listener type path entries
          (polled t.report ps ++ pushed t.connection) (t.held ++ newcomer t.connection) steps seen
          clients more u marks
          (omega (
            arith,
            length-append (polled t.report ps) (pushed t.connection),
            length-polled t.report ps,
            length-pushed t.connection,
            enough,
          ))
          (subst AllDeliver (sym same) d) (e ∙ ap (λ cs. streams cs ++ more) (sym same)) in
      (
        v,
        without_asking (t.held ++ newcomer t.connection) clients,
        unserved (polled t.report ps ++ pushed t.connection),
        x,
        descriptors-unserved listener _ (t.held ++ newcomer t.connection) marks,
        subst (λ cs. Session fs laws names flushed path cs u v) same a,
        e1,
        o1,
      )
