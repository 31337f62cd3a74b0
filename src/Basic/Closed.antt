-- ===== src/Basic/Closed.antt =====
-- What the UDP server of Lecture 1 leaves open (SyncUdpServer.cpp): nothing.
use network_all_in_one.Prelude.{
  ℕ, true, false, Bool, List, [], ◌∷◌, Option, none, some, length, ◌≡◌,
}
use network_all_in_one.Text.{Bytes, ℤ, pos, negsuc, ok}
use network_all_in_one.Kernel.{World, pure, close, try_call, ◌>>=◌, ◌>>◌}
use network_all_in_one.Kernel.Actions.{recv-Ledger, send-Ledger, try_call-Ledger}
use network_all_in_one.Kernel.Balance.{
  Even, EvenWith, Ensures, Ensures-bind, Ensures-pure, Ensures-lift, Ensures-returns, quiet-Even,
  close-Even, open-Even,
}
use network_all_in_one.Storage.Request.{buffer_size}
use network_all_in_one.Tcp.Echo.{NoData}
use network_all_in_one.Basic.{buffer_text, answered, echo_datagram, serve_datagram, udp_main}

module _ (kept : List ℕ) where
  Held : ℕ → World NoData → Type 0
  Held fd = Even (fd ∷ []) kept

  AllClosed : ℤ → World NoData → Type 0
  AllClosed code = Even [] kept

  closes : (fd : ℕ) (code : ℤ) → Ensures (Held fd) AllClosed (close fd >> pure code)
  unfolding Held AllClosed
  closes fd code =
      Ensures-bind (λ _. Even [] kept) _ _ (close-Even [] kept fd)
        (λ _. Ensures-pure code (λ w h. h))

  answered-closes : (fd : ℕ) (n : Option ℕ) → Ensures (Held fd) AllClosed (answered fd n)
  unfolding answered
  answered-closes fd none = closes fd (negsuc 0)
  answered-closes fd (some n) = closes fd (pos 0)

  echo_datagram-closes :
      (fd : ℕ) (got : Option Bytes) → Ensures (Held fd) AllClosed (echo_datagram fd got)
  unfolding echo_datagram Held
  echo_datagram-closes fd none = closes fd (negsuc 0)
  echo_datagram-closes fd (some bs) =
      Ensures-bind (λ _. Held fd) _ _ (Ensures-lift (buffer_text (some bs)) (λ a e w h. h))
        (λ _.
          Ensures-bind (λ _. Held fd) _ _
            (quiet-Even (fd ∷ []) kept _ (λ o c. send-Ledger fd bs (length bs)))
            (answered-closes fd))

  serve_datagram-closes :
      (fd : ℕ) (bound : Bool) → Ensures (Held fd) AllClosed (serve_datagram fd bound)
  unfolding serve_datagram Held
  serve_datagram-closes fd false = closes fd (negsuc 0)
  serve_datagram-closes fd true =
      Ensures-bind (λ _. Held fd) _ _
        (quiet-Even (fd ∷ []) kept _ (λ o c. recv-Ledger fd buffer_size)) (echo_datagram-closes fd)

  socket_closes :
      (r : Option ℕ)
      → Ensures
          (EvenWith [] kept r)
          AllClosed
          (elim r [ none ↦ pure (negsuc 0) | some fd ↦ try_call >>= serve_datagram fd ])
  unfolding Held AllClosed
  socket_closes none = Ensures-pure (negsuc 0) (λ w h. h)
  socket_closes (some fd) =
      Ensures-bind (λ _. Held fd) _ _ (quiet-Even (fd ∷ []) kept _ (λ o c. try_call-Ledger))
        (serve_datagram-closes fd)

  -- The UDP server, on every path on which it returns: each descriptor that was opened is closed or
  -- in `kept` (those of a caller), each as often as it was opened, if that was so before.
  pub udp_main-Even :
      (code : ℤ) (w w' : World NoData)
      → Even [] kept w
      → udp_main w ≡ (ok code, w')
      → Even [] kept w'
  unfolding udp_main AllClosed
  udp_main-Even code w w' h e =
      Ensures-returns {Q = AllClosed} udp_main w w' code
        (Ensures-bind (EvenWith [] kept) _ _ (open-Even [] kept) socket_closes) h e
