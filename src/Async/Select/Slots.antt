-- ===== src/Async/Select/Slots.antt =====
-- The slots of TCPServer_select.cpp: a client keeps its slot until it is closed, while one is free.
use network_all_in_one.Prelude.{
  ℕ, zero, suc, ◌+◌, ◌≡◌, refl, true, false, List, [], ◌∷◌, ◌++◌, Option, none, some, arith,
  contains, count, count-append, length, ltb, ◌==◌,
}
use network_all_in_one.Text.{Bytes, ok}
use network_all_in_one.Kernel.{World, Io, pure, throw, open_descriptor, next_count, ◌>>=◌}
use network_all_in_one.Kernel.Actions.{send-Ledger, recv-Ledger}
use network_all_in_one.Kernel.Balance.{
  Even, EvenWith, After, Ensures, Ensures-bind, Ensures-pure, Ensures-if, Ensures-from,
  Ensures-returns, quiet-Even, close-Even,
}
use network_all_in_one.Storage.Request.{buffer_size}
use network_all_in_one.Tcp.Echo.{NoData}
use network_all_in_one.Async.Select.{
  used, store_free, store_socket, accept_slot, echo_string, slot_pass, serve_slots, slot_round,
}

-- A client that is stored takes a free slot.
count-store_free :
    (fd new : ℕ) (slots : List ℕ)
    → contains 0 slots ≡ true
    → (new == 0) ≡ false
    → count fd (used (store_free new slots)) ≡ count fd (new ∷ used slots)
unfolding used store_free
count-store_free fd new [] h n = ground arith
count-store_free fd new (sd ∷ slots) h n = ground (arith, count-store_free fd new slots)

-- The clients in a list of slots with one more slot before it.
count-used :
    (fd sd : ℕ) (slots : List ℕ)
    → count fd (used (sd ∷ slots)) ≡ count fd (used (sd ∷ [])) + count fd (used slots)
unfolding used
count-used fd sd slots = ground arith

used-zero : (slots : List ℕ) → used (0 ∷ slots) ≡ used slots
unfolding used
used-zero slots = refl

used-suc : (sd : ℕ) (slots : List ℕ) → (sd == 0) ≡ false → used (sd ∷ slots) ≡ sd ∷ used slots
unfolding used
used-suc sd slots e = rw e refl

-- The descriptors are in the slots, closed, or in `kept`.
abbrev pub SlotsEven : List ℕ → List ℕ → World NoData → Type 0
SlotsEven kept slots = Even (used slots) kept

module _ (kept : List ℕ) where
  echo_string-Even :
      (sd : ℕ) (slots : List ℕ) (got : Option Bytes)
      → (sd == 0) ≡ false
      → Ensures
          (Even (used (sd ∷ slots)) kept)
          (λ slot. Even (used (slot ∷ slots)) kept)
          (echo_string sd got)
  unfolding echo_string
  echo_string-Even sd slots none e = record { at = λ w h. unfold throw in tt }
  echo_string-Even sd slots (some []) e =
      Ensures-bind (λ _. Even (used slots) kept) _ _
        (rw (used-suc sd slots e) (close-Even (used slots) kept sd))
        (λ _. Ensures-pure 0 (λ w h. rw (used-zero slots) h))
  echo_string-Even sd slots (some (b ∷ bs)) e =
      Ensures-if (ltb (length (b ∷ bs)) buffer_size) _ _
        (λ fits.
          Ensures-bind (λ _. Even (used (sd ∷ slots)) kept) _ _
            (quiet-Even (used (sd ∷ slots)) kept _ (λ o c. send-Ledger sd _ _))
            (λ n. Ensures-pure sd (λ w h. h)))
        (λ full. record { at = λ w h. unfold throw in tt })

stash :
    {D : Type 0} (sd : ℕ) (slots kept : List ℕ) (w : World D)
    → Even (used (sd ∷ slots)) kept w
    → Even (used slots) (used (sd ∷ []) ++ kept) w
stash sd slots kept w h fd =
    omega (arith, h fd, count-used fd sd slots, count-append fd (used (sd ∷ [])) kept)

unstash :
    {D : Type 0} (sd : ℕ) (slots kept : List ℕ) (w : World D)
    → Even (used slots) (used (sd ∷ []) ++ kept) w
    → Even (used (sd ∷ slots)) kept w
unstash sd slots kept w h fd =
    omega (arith, h fd, count-used fd sd slots, count-append fd (used (sd ∷ [])) kept)

-- The rest of a pass, behind a slot that was looked at.
rest-Even :
    (sd : ℕ) (slots kept : List ℕ) (rest : Io NoData (List ℕ))
    → ((kept' : List ℕ) → Ensures (Even (used slots) kept') (λ left. Even (used left) kept') rest)
    → Ensures
        (Even (used (sd ∷ slots)) kept)
        (λ left. Even (used left) kept)
        (rest >>= λ left. pure (sd ∷ left))
rest-Even sd slots kept rest h =
    Ensures-bind (λ left. Even (used left) (used (sd ∷ []) ++ kept)) _ _
      (Ensures-from (Even (used slots) (used (sd ∷ []) ++ kept)) _ (stash sd slots kept)
        (h (used (sd ∷ []) ++ kept)))
      (λ left. Ensures-pure (sd ∷ left) (unstash sd left kept))

slot_pass-Even :
    (set slots kept : List ℕ)
    → contains 0 set ≡ false
    → Ensures (Even (used slots) kept) (λ left. Even (used left) kept) (slot_pass set slots)
unfolding slot_pass
slot_pass-Even set [] kept z = Ensures-pure [] (λ w h. h)
slot_pass-Even set (sd ∷ slots) kept z =
    Ensures-if (contains sd set) _ _
      (λ hit.
        Ensures-bind (λ _. Even (used (sd ∷ slots)) kept) _ _
          (quiet-Even (used (sd ∷ slots)) kept _ (λ o c. recv-Ledger sd buffer_size))
          (λ got.
            Ensures-bind (λ slot. Even (used (slot ∷ slots)) kept) _ _
              (echo_string-Even kept sd slots got (not_zero sd hit))
              (λ slot. rest-Even slot slots kept _ (λ kept'. slot_pass-Even set slots kept' z))))
      (λ miss. rest-Even sd slots kept _ (λ kept'. slot_pass-Even set slots kept' z))
  where
    not_zero : (sd : ℕ) → contains sd set ≡ true → (sd == 0) ≡ false
    not_zero zero h = absurd (ground (arith, h, z))
    not_zero (suc n) h = ground arith

-- The number of a new client is not that of a free slot.
abbrev pub IsPositive : Option ℕ → Type 0
IsPositive none = Unit
IsPositive (some fd) = (fd == 0) ≡ false

module _ (slots kept : List ℕ) where
  Opened : Option ℕ → World NoData → Type 0
  Opened r w = EvenWith (used slots) kept r w × IsPositive r

  open_step :
      (r : Option ℕ) (w : World NoData)
      → next_count w.opens ≡ r
      → Even (used slots) kept w
      → IsPositive r
      → After Opened (open_descriptor w)
  unfolding open_descriptor Opened
  open_step none w e h n = rw (e, open_descriptor) (h, tt)
  open_step (some fd) w e h n = rw (e, open_descriptor) ((λ x. ground (arith, h x)), n)

  -- What stands behind accept and behind the round; exit has no slots.
  abbrev pub SlotsAfter : Option (List ℕ) → World NoData → Type 0
  SlotsAfter none w = Unit
  SlotsAfter (some left) w = SlotsEven kept left w

  stored :
      (r : Option ℕ)
      → contains 0 slots ≡ true
      → Ensures (Opened r) SlotsAfter (pure (store_socket slots r))
  unfolding store_socket Opened
  stored none free = Ensures-pure _ (λ w h. tt)
  stored (some fd) free =
      Ensures-pure _ (λ w h x. ground (arith, h.0 x, count-store_free x fd slots free h.1))

  pub serve_slots-Even :
      (set : List ℕ) (accepted : Option (List ℕ))
      → contains 0 set ≡ false
      → Ensures (SlotsAfter accepted) SlotsAfter (serve_slots set accepted)
  unfolding serve_slots
  serve_slots-Even set none z = Ensures-pure _ (λ w h. tt)
  serve_slots-Even set (some left) z =
      Ensures-bind (λ s. SlotsEven kept s) _ _ (slot_pass-Even set left kept z)
        (λ s. Ensures-pure _ (λ w h. h))

  round-Ensures :
      (master : ℕ) (set : List ℕ)
      → contains 0 set ≡ false
      → contains 0 slots ≡ true
      → Ensures
          (λ w. Even (used slots) kept w × IsPositive (next_count w.opens))
          SlotsAfter
          (slot_round master slots set)
  unfolding slot_round accept_slot
  round-Ensures master set z free =
      Ensures-bind SlotsAfter _ _
        (Ensures-if (contains master set) _ _
          (λ hit.
            Ensures-bind Opened _ _
              (record { at = λ w h. open_step (next_count w.opens) w refl h.0 h.1 })
              (λ r. stored r free))
          (λ miss. Ensures-pure _ (λ w h. h.0)))
        (λ accepted. serve_slots-Even set accepted z)

  -- A round of the select server, while a slot is free, for a set without the descriptor 0 and a new
  -- client whose number is not 0: if it goes on, each descriptor that was opened is closed, in a slot
  -- or in `kept` (the listening socket, and those of a caller), each as often as it was opened, if
  -- that was so before.
  pub slot_round-SlotsEven :
      (master : ℕ) (set left : List ℕ) (w w' : World NoData)
      → contains 0 set ≡ false
      → contains 0 slots ≡ true
      → IsPositive (next_count w.opens)
      → SlotsEven kept slots w
      → slot_round master slots set w ≡ (ok (some left), w')
      → SlotsEven kept left w'
  slot_round-SlotsEven master set left w w' z free n h e =
      Ensures-returns (slot_round master slots set) w w' (some left)
        (round-Ensures master set z free) (h, n) e
