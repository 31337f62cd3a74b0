-- ===== src/Storage/Sender/Keeping.antt =====
-- sendAll (FileStorageServer.cpp) keeps what every send keeps.
use network_all_in_one.Prelude.{ℕ, zero, suc, length, ltb, Option, none, some}
use network_all_in_one.Text.{Bytes, ℤ}
use network_all_in_one.Kernel.{World, Io, send}
use network_all_in_one.Kernel.Actions.{Keeps, Keeps-bind, Keeps-if, Keeps-pure}
use network_all_in_one.Storage.Sender.{after_send, send_loop, send_all}

module _ {D : Type 0} (P : World D → Type 0)
    (sends : (fd : ℕ) (bs : Bytes) (n : ℕ) → Keeps P (send fd bs n)) where
  after_send-Keeps :
      (total : ℕ) (next : ℕ → Io D ℤ)
      → ((t : ℕ) → Keeps P (next t))
      → (r : Option ℕ) → Keeps P (after_send total next r)
  unfolding after_send
  after_send-Keeps total next h none = Keeps-pure _
  after_send-Keeps total next h (some zero) = Keeps-pure _
  after_send-Keeps total next h (some (suc n)) = h _

  send_loop-Keeps :
      (rounds fd : ℕ) (response : Bytes) (total : ℕ) → Keeps P (send_loop rounds fd response total)
  unfolding send_loop
  send_loop-Keeps zero fd response total = Keeps-pure _
  send_loop-Keeps (suc rounds) fd response total =
      Keeps-if (ltb total (length response)) _ _
        (Keeps-bind _ _ (sends fd _ _) (
          after_send-Keeps total (send_loop rounds fd response)
            (send_loop-Keeps rounds fd response)))
        (Keeps-pure _)

  pub send_all-Keeps : (fd : ℕ) (response : Bytes) → Keeps P (send_all fd response)
  unfolding send_all
  send_all-Keeps fd response = send_loop-Keeps (suc (length response)) fd response 0
