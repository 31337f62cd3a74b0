-- ===== src/Async/Clients/Select/Leaves.antt =====
-- What the select client of Lecture 2 leaves open (select/TCPClient_select.cpp).
use network_all_in_one.Prelude.{
  ℕ, Bool, true, false, List, [], ◌∷◌, Option, none, some, length, ◌≡◌, refl,
}
use network_all_in_one.Text.{Bytes, ℤ, pos, negsuc, ok}
use network_all_in_one.Kernel.{World, pure, next_count, try_call, ◌>>=◌}
use network_all_in_one.Kernel.Actions.{recv-Ledger, send-Ledger, try_call-Ledger}
use network_all_in_one.Kernel.Balance.{
  Even, EvenWith, Ensures, Ensures-pure, Ensures-returns, quiet_then, close_then, open_known,
  lift_then,
}
use network_all_in_one.Storage.Request.{buffer_size}
use network_all_in_one.Tcp.Echo.{NoData}
use network_all_in_one.Basic.{buffer_text}
use network_all_in_one.Basic.Clients.{Exit, silent}
use network_all_in_one.Async.Clients.{hello_client}
use network_all_in_one.Async.Clients.Select.{
  give_up, show_message, say_hello, connect_select, select_client,
}

-- Behind a main that returns 0 `opened` is open, and behind one that returns -1 all is closed.
abbrev pub OpenOnSuccess : List ℕ → Option ℕ → ℤ → World NoData → Type 0
OpenOnSuccess kept opened (pos n) w = EvenWith [] kept opened w
OpenOnSuccess kept opened (negsuc n) w = Even [] kept w

module _ (kept : List ℕ) where
  abbrev Left : Option ℕ → Exit → World NoData → Type 0
  Left opened e w = OpenOnSuccess kept opened e.code w

  give_up-Left : (fd : ℕ) → Ensures (Even (fd ∷ []) kept) (Left (some fd)) (give_up fd)
  unfolding give_up
  give_up-Left fd = close_then [] kept fd _ (λ u. Ensures-pure (silent (negsuc 0)) (λ w h. h))

  show_message-Left :
      (fd : ℕ) (got : Option Bytes)
      → Ensures (Even (fd ∷ []) kept) (Left (some fd)) (show_message fd got)
  unfolding show_message
  show_message-Left fd none = give_up-Left fd
  show_message-Left fd (some bs) =
      lift_then (fd ∷ []) kept (buffer_text (some bs)) _ (λ text. Ensures-pure _ (λ w h. h))

  say_hello-Left :
      (fd : ℕ) (connected : Bool)
      → Ensures (Even (fd ∷ []) kept) (Left (some fd)) (say_hello fd connected)
  unfolding say_hello
  say_hello-Left fd false = give_up-Left fd
  say_hello-Left fd true =
      quiet_then (fd ∷ []) kept _ _ (λ o c. send-Ledger fd hello_client (length hello_client))
        (λ n.
          quiet_then (fd ∷ []) kept _ _ (λ o c. recv-Ledger fd buffer_size) (show_message-Left fd))

  connect_select-Left :
      (fd : ℕ) (fine : Bool)
      → Ensures (Even (fd ∷ []) kept) (Left (some fd)) (connect_select fd fine)
  unfolding connect_select
  connect_select-Left fd false = give_up-Left fd
  connect_select-Left fd true =
      quiet_then (fd ∷ []) kept _ _ (λ o c. try_call-Ledger) (say_hello-Left fd)

  socket-Left :
      (r : Option ℕ)
      → Ensures
          (EvenWith [] kept r)
          (Left r)
          (elim r [ none ↦ pure (silent (negsuc 0)) | some fd ↦ try_call >>= connect_select fd ])
  socket-Left none = Ensures-pure _ (λ w h. h)
  socket-Left (some fd) =
      quiet_then (fd ∷ []) kept _ _ (λ o c. try_call-Ledger) (connect_select-Left fd)

  -- The select client closes its socket on every path that fails and leaves it open on the path that
  -- succeeds: where main returns -1, each descriptor that was opened is closed or in `kept` (those of a
  -- caller), and where it returns 0, the socket is open too; if all was closed or kept before.
  pub select_client-OpenOnSuccess :
      (e : Exit) (w w' : World NoData)
      → Even [] kept w
      → select_client w ≡ (ok e, w')
      → OpenOnSuccess kept (next_count w.opens) e.code w'
  unfolding select_client
  select_client-OpenOnSuccess e w w' h r =
      Ensures-returns {Q = Left (next_count w.opens)} select_client w w' e
        (open_known [] kept (next_count w.opens) _ (socket-Left (next_count w.opens))) (h, refl) r
