-- ===== src/Kernel.antt =====
-- The operating system as the sources use it. A system call takes its result from a script: a
-- theorem for every script covers every behaviour of the network, of the peers and of the kernel.
-- What the calls do is recorded: the descriptors opened and closed, the bytes that left.
pub mod Actions
pub mod Balance
pub mod Laws
use network_all_in_one.Prelude.{
  ℕ, ◌+◌, Bool, false, List, [], ◌∷◌, ◌++◌, Option, none, some, take, min, erase, ◌==◌,
  if◌then◌else◌,
}
use network_all_in_one.Text.{Bytes, Result, ok, throws, Exception}

-- `D` is what stands on the disk.
pub record World (D : Type 0) : Type 0 where
  pub disk : D
  -- What recv, read and recvfrom return next: `none` is -1, and the empty string is 0, the end of the stream.
  pub recvs : List (Option Bytes)
  -- How many bytes send takes next: `none` is -1.
  pub sends : List (Option ℕ)
  -- The descriptors that socket, accept and epoll_create1 return next: `none` is -1.
  pub opens : List (Option ℕ)
  -- Whether bind, listen, fcntl, epoll_ctl, inet_pton, getsockopt and a connect that blocks succeed
  -- next.
  pub statuses : List Bool
  -- The status flags of the descriptors, and the interest list of the epoll instance.
  pub flags : ℕ → ℕ
  pub watched : List ℕ
  -- The records: opened and closed descriptors, the newest first, and what was sent to whom, the
  -- oldest first.
  pub opened : List ℕ
  pub closed : List ℕ
  pub sent : List (ℕ × Bytes)

-- A piece of the program: it returns or throws, and leaves a world either way.
abbrev pub Io : Type 0 → Type 0 → Type 0
Io D A = World D → Result A × World D

abbrev pub proceed : {D A B : Type 0} → Result A → (A → Io D B) → Io D B
proceed (ok a) f w = f a w
proceed (throws e) f w = (throws e, w)

infixl 5 ◌>>=◌ ◌>>◌
-- Shut outside proofs: the action rules of the child module know it by its laws.
unfoldable pub ◌>>=◌ : {D A B : Type 0} → Io D A → (A → Io D B) → Io D B
◌>>=◌ m f w = let (r, w') = m w in proceed r f w'

abbrev pub ◌>>◌ : {D A B : Type 0} → Io D A → Io D B → Io D B
m >> n = m >>= λ _. n

unfoldable pub next_bytes : List (Option Bytes) → Option Bytes
next_bytes [] = some []
next_bytes (r ∷ rs) = r

unfoldable pub next_count : List (Option ℕ) → Option ℕ
next_count [] = none
next_count (r ∷ rs) = r

unfoldable pub next_status : List Bool → Bool
next_status [] = false
next_status (b ∷ bs) = b

abbrev pub rest_of : {A : Type 0} → List A → List A
rest_of [] = []
rest_of (x ∷ xs) = xs

module _ {D : Type 0} where
  unfoldable pub pure : {A : Type 0} → A → Io D A
  pure a w = (ok a, w)

  unfoldable pub throw : {A : Type 0} → Exception → Io D A
  throw e w = (throws e, w)

  -- A computation that may throw and touches nothing.
  unfoldable pub lift : {A : Type 0} → Result A → Io D A
  lift r w = (r, w)

  -- recv(fd, buffer, capacity, 0), read(fd, buffer, capacity) and recvfrom: the bytes that the buffer gets.
  -- A script that has run out reads as the end of the stream.
  unfoldable pub recv : ℕ → ℕ → Io D (Option Bytes)
  unfolding next_bytes
  recv fd capacity w =
      let got : Option Bytes = elim (next_bytes w.recvs) [
        | none ↦ none
        | some bs ↦ some (take capacity bs)
      ] in
      (ok got, record w { recvs = rest_of w.recvs })

  -- send(fd, bytes, size, 0) and sendto: how many of the bytes the kernel took.
  unfoldable pub send : ℕ → Bytes → ℕ → Io D (Option ℕ)
  send fd bytes size w = elim (next_count w.sends) [
    | none ↦ (ok none, record w { sends = rest_of w.sends })
    | some n ↦ (
      ok (some (min n size)),
      record w { sends = rest_of w.sends; sent = w.sent ++ (fd, take (min n size) bytes) ∷ [] },
    )
  ]

  -- socket(), accept() and epoll_create1().
  unfoldable pub open_descriptor : Io D (Option ℕ)
  open_descriptor w = elim (next_count w.opens) [
    | none ↦ (ok none, record w { opens = rest_of w.opens })
    | some fd ↦ (ok (some fd), record w { opens = rest_of w.opens; opened = fd ∷ w.opened })
  ]

  -- bind(), listen(), setsockopt(), and of the clients connect(), inet_pton() and getsockopt(): whether
  -- the call succeeds.
  unfoldable pub try_call : Io D Bool
  unfolding next_status
  try_call w = (ok (next_status w.statuses), record w { statuses = rest_of w.statuses })

  -- close(fd). The kernel drops a closed descriptor from the interest list.
  unfoldable pub close : ℕ → Io D (Unit {0})
  close fd w = (ok tt, record w { closed = fd ∷ w.closed; watched = erase fd w.watched })

  -- epoll_ctl(epollFd, EPOLL_CTL_ADD, fd, …) and epoll_ctl(epollFd, EPOLL_CTL_DEL, fd, …).
  unfoldable pub watch : ℕ → Io D Bool
  unfolding next_status
  watch fd w =
      let fine = next_status w.statuses in
      (
        ok fine,
        record w {
          statuses = rest_of w.statuses;
          watched = (if fine then fd ∷ w.watched else w.watched);
        },
      )

  unfoldable pub unwatch : ℕ → Io D Bool
  unfolding next_status
  unwatch fd w =
      let fine = next_status w.statuses in
      (
        ok fine,
        record w {
          statuses = rest_of w.statuses;
          watched = (if fine then erase fd w.watched else w.watched);
        },
      )

  -- fcntl(fd, F_GETFL, 0): the status flags, or -1.
  unfoldable pub get_flags : ℕ → Io D (Option ℕ)
  unfolding next_status
  get_flags fd w = (
    ok (if next_status w.statuses then some (w.flags fd) else none),
    record w { statuses = rest_of w.statuses },
  )

  -- fcntl(fd, F_SETFL, flags).
  unfoldable pub set_flags : ℕ → ℕ → Io D Bool
  unfolding next_status
  set_flags fd new w =
      let fine = next_status w.statuses in
      (
        ok fine,
        record w {
          statuses = rest_of w.statuses;
          flags = (λ x. if fine then (if x == fd then new else w.flags x) else w.flags x);
        },
      )
