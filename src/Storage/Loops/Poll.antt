-- ===== src/Storage/Loops/Poll.antt =====
-- The two vectors of runPoll, clientSockets_ and pollFds_ (FileStorageServer.cpp).
pub mod TwoVectors
pub mod Steps
pub mod Passes
pub mod AsSelect
use network_all_in_one.Prelude.{
  ℕ, ◌+◌, ◌≡◌, refl, ◌<◌, append_assoc, true, false, List, [], ◌∷◌, ◌++◌, arith, count,
  count-append, contains, erase, count-erase,
}
use network_all_in_one.Kernel.{close}
use network_all_in_one.Kernel.Balance.{
  Even, Ensures, Ensures-bind, Ensures-pure, Ensures-from, close-Even,
}
use network_all_in_one.Storage.Server.{Server, close_client, remember, is_server, PollFd}
use network_all_in_one.Storage.Server.{Revents}
use network_all_in_one.Storage.Loops.{push_poll, polled}
use network_all_in_one.Storage.Loops.Ledger.{aside, Balanced}

-- The descriptors of the entries.
abbrev pub descriptors : List PollFd → List ℕ
descriptors [] = []
descriptors (p ∷ ps) = p.fd ∷ descriptors ps

-- Each client is in pollFds_ as often as in clientSockets_. (The listening socket is in pollFds_.)
abbrev pub InStep : Server → List PollFd → Type 0
InStep s ps =
    (fd : ℕ)
    → is_server s.server_socket fd ≡ false
    → count fd (descriptors ps) ≡ count fd s.client_sockets

pub descriptors-append :
    (ps qs : List PollFd) → descriptors (ps ++ qs) ≡ descriptors ps ++ descriptors qs
descriptors-append [] qs = refl
descriptors-append (p ∷ ps) qs = rw (descriptors-append ps qs)

pub descriptors-polled :
    (report : ℕ → Revents) (ps : List PollFd) → descriptors (polled report ps) ≡ descriptors ps
unfolding polled
descriptors-polled report [] = refl
descriptors-polled report (p ∷ ps) = rw (descriptors-polled report ps)

pub contains-count : (fd : ℕ) (fds : List ℕ) → 0 < count fd fds → contains fd fds ≡ true
contains-count fd [] h = absurd (omega arith)
contains-count fd (x ∷ fds) h = ground (arith, contains-count fd fds)

count_entries :
    (fd : ℕ) (ps qs : List PollFd)
    → count fd (descriptors (ps ++ qs)) ≡ count fd (descriptors ps) + count fd (descriptors qs)
count_entries fd ps qs =
    rw (descriptors-append ps qs) (count-append fd (descriptors ps) (descriptors qs))

-- closeClient, for a client of the list.
pub close_client-Even :
    {D : Type 0} (fd : ℕ) (s : Server) (kept : List ℕ)
    → contains fd s.client_sockets ≡ true
    → Ensures {D = D}
        (Balanced kept s)
        (λ s' w.
          Balanced kept s' w × (s' ≡ record s { client_sockets = erase fd s.client_sockets }))
        (close_client fd s)
unfolding close_client
close_client-Even fd s kept e =
    Ensures-bind (λ _. Even (erase fd s.client_sockets) (aside kept s)) _ _
      (Ensures-from (Even (fd ∷ erase fd s.client_sockets) (aside kept s)) _
        (λ w h x. ground (arith, h x, count-erase x fd s.client_sockets e))
        (close-Even (erase fd s.client_sockets) (aside kept s) fd))
      (λ _. Ensures-pure _ (λ w h. (h, refl)))

module _ (s : Server) (seen rest : List PollFd) (p : PollFd) (h : InStep s (seen ++ p ∷ rest)) where
  pub is_held : is_server s.server_socket p.fd ≡ false → contains p.fd s.client_sockets ≡ true
  is_held e =
      contains-count p.fd s.client_sockets
        (ground (arith, h p.fd e, count_entries p.fd seen (p ∷ rest)))

  pub InStep-erase :
      is_server s.server_socket p.fd ≡ false
      → InStep (record s { client_sockets = erase p.fd s.client_sockets }) (seen ++ rest)
  InStep-erase e x n = ground (
    arith,
    h x n,
    count_entries x seen (p ∷ rest),
    count_entries x seen rest,
    count-erase x p.fd s.client_sockets (is_held e),
  )

  pub InStep-pass : InStep s ((seen ++ p ∷ []) ++ rest)
  InStep-pass = rw append_assoc h

  pub InStep-push :
      (fd : ℕ) → InStep (remember s fd) ((seen ++ p ∷ []) ++ (rest ++ push_poll fd ∷ []))
  unfolding remember push_poll
  InStep-push fd x n = ground (
    arith,
    h x n,
    count_entries x seen (p ∷ rest),
    count_entries x (seen ++ p ∷ []) (rest ++ push_poll fd ∷ []),
    count_entries x seen (p ∷ []),
    count_entries x rest (push_poll fd ∷ []),
    count-append x s.client_sockets (fd ∷ []),
  )
