-- ===== src/Async/Select/Full.antt =====
-- A new client of TCPServer_select.cpp while no slot is free.
use network_all_in_one.Prelude.{
  ℕ, ◌≡◌, refl, subst, true, false, List, [], ◌∷◌, Option, some, arith, contains,
}
use network_all_in_one.Text.{ok}
use network_all_in_one.Kernel.{World, pure, open_descriptor, next_count, ◌>>=◌}
use network_all_in_one.Kernel.Balance.{After}
use network_all_in_one.Tcp.Echo.{NoData}
use network_all_in_one.Async.Select.{store_free, store_socket, accept_slot, slot_round}
use network_all_in_one.Async.Select.Slots.{SlotsEven, SlotsAfter, serve_slots-Even}

store_free-full :
    (new : ℕ) (slots : List ℕ) → contains 0 slots ≡ false → store_free new slots ≡ slots
unfolding store_free
store_free-full new [] h = refl
store_free-full new (sd ∷ slots) h = ground (arith, store_free-full new slots)

accept_slot-full :
    (master new : ℕ) (slots set : List ℕ) (os : List (Option ℕ)) (w : World NoData)
    → contains master set ≡ true
    → contains 0 slots ≡ false
    → w.opens ≡ some new ∷ os
    → accept_slot master slots set w
      ≡ (ok (some slots), record w { opens = os; opened = new ∷ w.opened })
unfolding accept_slot store_socket open_descriptor next_count ◌>>=◌ pure
accept_slot-full master new slots set os w hit full e =
    rw (hit, e, store_free-full new slots full) refl

module _ (kept slots : List ℕ) (new : ℕ) where
  -- Behind the accept the new descriptor is one more that no slot holds.
  full_round :
      (master : ℕ) (set : List ℕ) (os : List (Option ℕ)) (w : World NoData)
      → contains 0 set ≡ false
      → contains master set ≡ true
      → contains 0 slots ≡ false
      → w.opens ≡ some new ∷ os
      → SlotsEven kept slots w
      → After (SlotsAfter slots (new ∷ kept)) (slot_round master slots set w)
  unfolding slot_round ◌>>=◌
  full_round master set os w z hit full e h =
      rw (accept_slot-full master new slots set os w hit full e) (
        (serve_slots-Even slots (new ∷ kept) set (some slots) z).at
          (record w { opens = os; opened = new ∷ w.opened }) (λ fd. ground (arith, h fd)))

  -- A round of the select server in which select reports the listening socket while no slot is free,
  -- for a set without the descriptor 0: the client that accept gives is lost. Where each descriptor
  -- that was opened was closed, in a slot or in `kept` before, each is so behind the round, but for
  -- one more: the new one, which the round has opened and which it has neither closed nor put into a
  -- slot, whatever becomes of the other clients in the round.
  pub slot_round_full :
      (master : ℕ) (set left : List ℕ) (os : List (Option ℕ)) (w w' : World NoData)
      → contains 0 set ≡ false
      → contains master set ≡ true
      → contains 0 slots ≡ false
      → w.opens ≡ some new ∷ os
      → SlotsEven kept slots w
      → slot_round master slots set w ≡ (ok (some left), w')
      → SlotsEven (new ∷ kept) left w'
  slot_round_full master set left os w w' z hit full e h r =
      subst (After (SlotsAfter slots (new ∷ kept))) r (full_round master set os w z hit full e h)
