-- ===== src/Basic/Clients/Leaves.antt =====
-- What the clients of Lecture 1 leave open (TCP/SyncTcpClient.cpp and UDP/SyncUdpClient.cpp).
use network_all_in_one.Prelude.{
  ℕ, Bool, true, false, List, [], ◌∷◌, Option, none, some, length, ◌≡◌, refl, if◌then◌else◌,
}
use network_all_in_one.Text.{Bytes, ℤ, pos, negsuc, ok}
use network_all_in_one.Kernel.{World, pure, try_call, next_count, ◌>>=◌}
use network_all_in_one.Kernel.Actions.{recv-Ledger, send-Ledger, try_call-Ledger}
use network_all_in_one.Kernel.Balance.{
  Even, EvenWith, Ensures, Ensures-pure, Ensures-returns, quiet_then, close_then, open_known,
  open_then, lift_then,
}
use network_all_in_one.Storage.Request.{buffer_size}
use network_all_in_one.Tcp.Echo.{NoData}
use network_all_in_one.Basic.{buffer_text}
use network_all_in_one.Basic.Clients.{
  Exit, silent, hello_world, talk, connect_tcp, tcp_client, hello_udp, close_with, after_recvfrom,
  after_sendto, send_datagram, udp_client,
}

-- Behind a main that returns 0 or more all is closed; behind one that returns -1 `opened` is open.
abbrev pub OpenOnFailure : List ℕ → Option ℕ → ℤ → World NoData → Type 0
OpenOnFailure kept opened (pos n) w = Even [] kept w
OpenOnFailure kept opened (negsuc n) w = EvenWith [] kept opened w

module _ (kept : List ℕ) where
  module _ (opened : Option ℕ) where
    abbrev TcpLeft : Exit → World NoData → Type 0
    TcpLeft e w = OpenOnFailure kept opened e.code w

  talk-TcpLeft : (sock : ℕ) → Ensures (Even (sock ∷ []) kept) (TcpLeft (some sock)) (talk sock)
  unfolding talk
  talk-TcpLeft sock =
      quiet_then (sock ∷ []) kept _ _ (λ o c. send-Ledger sock hello_world (length hello_world))
        (λ n.
          quiet_then (sock ∷ []) kept _ _ (λ o c. recv-Ledger sock buffer_size)
            (λ got.
              lift_then (sock ∷ []) kept (buffer_text got) _
                (λ text. close_then [] kept sock _ (λ u. Ensures-pure _ (λ w h. h)))))

  connected-TcpLeft :
      (sock : ℕ) (connected : Bool)
      → Ensures
          (Even (sock ∷ []) kept)
          (TcpLeft (some sock))
          (if connected then talk sock else pure (silent (negsuc 0)))
  connected-TcpLeft sock true = talk-TcpLeft sock
  connected-TcpLeft sock false = Ensures-pure _ (λ w h. h)

  socket-TcpLeft :
      (r : Option ℕ)
      → Ensures
          (EvenWith [] kept r)
          (TcpLeft r)
          (elim r [ none ↦ pure (silent (negsuc 0)) | some sock ↦ connect_tcp sock ])
  unfolding connect_tcp
  socket-TcpLeft none = Ensures-pure _ (λ w h. h)
  socket-TcpLeft (some sock) =
      quiet_then (sock ∷ []) kept _ _ (λ o c. try_call-Ledger) (connected-TcpLeft sock)

  -- The TCP client of Lecture 1: where main returns 0, each descriptor that was opened is closed or in
  -- `kept` (those of a caller), and where it returns -1, the socket is open too, if there is one (a
  -- failed connect does not close it); if all was closed or kept before.
  pub tcp_client-OpenOnFailure :
      (e : Exit) (w w' : World NoData)
      → Even [] kept w
      → tcp_client w ≡ (ok e, w')
      → OpenOnFailure kept (next_count w.opens) e.code w'
  unfolding tcp_client
  tcp_client-OpenOnFailure e w w' h r =
      Ensures-returns {Q = TcpLeft (next_count w.opens)} tcp_client w w' e
        (open_known [] kept (next_count w.opens) _ (socket-TcpLeft (next_count w.opens))) (h, refl)
        r

  UdpLeft : Exit → World NoData → Type 0
  UdpLeft e w = Even [] kept w

  close_with-UdpLeft :
      (code : ℤ) (fd : ℕ) → Ensures (Even (fd ∷ []) kept) UdpLeft (close_with code fd)
  unfolding close_with UdpLeft
  close_with-UdpLeft code fd = close_then [] kept fd _ (λ u. Ensures-pure _ (λ w h. h))

  after_recvfrom-UdpLeft :
      (fd : ℕ) (got : Option Bytes) → Ensures (Even (fd ∷ []) kept) UdpLeft (after_recvfrom fd got)
  unfolding after_recvfrom
  after_recvfrom-UdpLeft fd none = close_with-UdpLeft (pos 1) fd
  after_recvfrom-UdpLeft fd (some bs) = close_with-UdpLeft (pos 0) fd

  after_sendto-UdpLeft :
      (fd : ℕ) (sent : Option ℕ) → Ensures (Even (fd ∷ []) kept) UdpLeft (after_sendto fd sent)
  unfolding after_sendto
  after_sendto-UdpLeft fd none = close_with-UdpLeft (pos 1) fd
  after_sendto-UdpLeft fd (some n) =
      quiet_then (fd ∷ []) kept _ _ (λ o c. recv-Ledger fd buffer_size) (after_recvfrom-UdpLeft fd)

  send_datagram-UdpLeft :
      (fd : ℕ) (fine : Bool) → Ensures (Even (fd ∷ []) kept) UdpLeft (send_datagram fd fine)
  unfolding send_datagram
  send_datagram-UdpLeft fd false = close_with-UdpLeft (pos 1) fd
  send_datagram-UdpLeft fd true =
      quiet_then (fd ∷ []) kept _ _ (λ o c. send-Ledger fd hello_udp (length hello_udp))
        (after_sendto-UdpLeft fd)

  socket-UdpLeft :
      (r : Option ℕ)
      → Ensures
          (EvenWith [] kept r)
          UdpLeft
          (elim r [ none ↦ pure (silent (pos 1)) | some fd ↦ try_call >>= send_datagram fd ])
  unfolding UdpLeft
  socket-UdpLeft none = Ensures-pure _ (λ w h. h)
  socket-UdpLeft (some fd) =
      quiet_then (fd ∷ []) kept _ _ (λ o c. try_call-Ledger) (send_datagram-UdpLeft fd)

  -- The UDP client of Lecture 1, on every path on which it returns: each descriptor that was opened is
  -- closed or in `kept`, if that was so before.
  pub udp_client-Even :
      (e : Exit) (w w' : World NoData)
      → Even [] kept w
      → udp_client w ≡ (ok e, w')
      → Even [] kept w'
  unfolding udp_client UdpLeft
  udp_client-Even e w w' h r =
      Ensures-returns {Q = UdpLeft} udp_client w w' e (open_then [] kept _ socket-UdpLeft) h r
