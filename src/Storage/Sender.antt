-- ===== src/Storage/Sender.antt =====
-- sendAll of FileStorageServer.cpp. A send to a client that has gone answers -1 here, which is what it does
-- where SIGPIPE is ignored; the source does not ignore it.
pub mod Delivery
pub mod Keeping
pub mod Telling
use network_all_in_one.Prelude.{
  ℕ, zero, suc, ◌+◌, ◌-◌, Option, none, some, length, drop, ltb, if◌then◌else◌,
}
use network_all_in_one.Text.{Bytes, ℤ, pos, negsuc}
use network_all_in_one.Kernel.{Io, pure, send, ◌>>=◌}

module _ {D : Type 0} where
  -- What one send answers: nothing and a failure end the loop with -1, else `next` goes on from the
  -- new total.
  unfoldable pub after_send : ℕ → (ℕ → Io D ℤ) → Option ℕ → Io D ℤ
  after_send total next none = pure (negsuc 0)
  after_send total next (some zero) = pure (negsuc 0)
  after_send total next (some (suc sent)) = next (total + suc sent)

  -- The loop, for a number of rounds; -2 would say that they do not suffice.
  unfoldable pub send_loop : ℕ → ℕ → Bytes → ℕ → Io D ℤ
  send_loop zero fd response total = pure (negsuc 1)
  send_loop (suc rounds) fd response total =
      let next = send_loop rounds fd response in
      if ltb total (length response)
      then (do
        sent ← send fd (drop total response) (length response - total)
        after_send total next sent)
      else pure (pos 0)

  -- Each round sends a byte at least, so one round more than there are bytes is enough.
  unfoldable pub send_all : ℕ → Bytes → Io D ℤ
  send_all fd response = send_loop (suc (length response)) fd response 0
