-- ===== src/Kernel/Balance.antt =====
-- The ledger of descriptors: what was opened is closed or still held, each as often.
use network_all_in_one.Prelude.{
  ℕ, ◌+◌, ◌≡◌, refl, ap, subst, List, ◌∷◌, Option, none, some, arith, count, Bool, true, false,
  if◌then◌else◌,
}
use network_all_in_one.Text.{Result, ok, throws}
use network_all_in_one.Kernel.{World, Io, ◌>>=◌, pure, lift, close, open_descriptor, next_count}
use network_all_in_one.Kernel.Actions.{Keeps, Ledger}

-- Each descriptor was opened as often as it was closed, is held by a client list, or is kept aside
-- (the listening socket, the epoll instance).
abbrev pub Even : {D : Type 0} → List ℕ → List ℕ → World D → Type 0
Even live kept w = (fd : ℕ) → count fd w.opened ≡ count fd w.closed + count fd live + count fd kept

-- What holds if the action returns. An exception ends the program, and the kernel then closes all.
abbrev pub After : {D A : Type 0} → (A → World D → Type 0) → Result A × World D → Type 0
After Q (ok a, w) = Q a w
After Q (throws e, w) = Unit

pub record Ensures {D A : Type 0} (P : World D → Type 0) (Q : A → World D → Type 0) (m : Io D A)
    : Type 0 where
  pub at : (w : World D) → P w → After Q (m w)

module _ {D A B : Type 0} {R : B → World D → Type 0} where
  proceed-After :
      (Q : A → World D → Type 0) (f : A → Io D B) (r : Result A) (w : World D)
      → After Q (r, w)
      → ((a : A) → Ensures (Q a) R (f a))
      → After R ((◌>>=◌ {D = D} {A = A} (λ u. (r, w)) f) w)
  unfolding ◌>>=◌
  proceed-After Q f (ok a) w h k = (k a).at w h
  proceed-After Q f (throws e) w h k = tt

module _ {D A B : Type 0} {P : World D → Type 0} {R : B → World D → Type 0} where
  pub Ensures-bind :
      (Q : A → World D → Type 0) (m : Io D A) (f : A → Io D B)
      → Ensures P Q m
      → ((a : A) → Ensures (Q a) R (f a))
      → Ensures P R (m >>= f)
  unfolding ◌>>=◌
  Ensures-bind Q m f h k = record {
    at = λ w p. let (r, w') = m w in proceed-After Q f r w' (h.at w p) k;
  }

module _ {D A : Type 0} {Q : A → World D → Type 0} where
  After-step :
      (Q' : A → World D → Type 0) (r : Result A) (w : World D)
      → After Q (r, w)
      → ((a : A) (v : World D) → Q a v → Q' a v)
      → After Q' (r, w)
  After-step Q' (ok a) w h k = k a w h
  After-step Q' (throws e) w h k = tt

module _ {D A : Type 0} {P : World D → Type 0} {Q : A → World D → Type 0} where
  pub Ensures-pure : (a : A) → ((w : World D) → P w → Q a w) → Ensures P Q (pure a)
  unfolding pure
  Ensures-pure a h = record { at = h }

  pub Ensures-lift :
      (r : Result A) → ((a : A) → r ≡ ok a → (w : World D) → P w → Q a w) → Ensures P Q (lift r)
  unfolding lift
  Ensures-lift (ok a) h = record { at = h a refl }
  Ensures-lift (throws e) h = record { at = λ w p. tt }

  pub Ensures-if :
      (b : Bool) (m n : Io D A)
      → (b ≡ true → Ensures P Q m)
      → (b ≡ false → Ensures P Q n)
      → Ensures P Q (if b then m else n)
  Ensures-if true m n h k = h refl
  Ensures-if false m n h k = k refl

  -- A weaker demand before.
  pub Ensures-from :
      (P' : World D → Type 0) (m : Io D A)
      → ((w : World D) → P w → P' w)
      → Ensures P' Q m
      → Ensures P Q m
  Ensures-from P' m e h = record { at = λ w p. h.at w (e w p) }

  -- A weaker promise after.
  pub Ensures-to :
      {Q' : A → World D → Type 0} (m : Io D A)
      → Ensures P Q m
      → ((a : A) (v : World D) → Q a v → Q' a v)
      → Ensures P Q' m
  Ensures-to {Q'} m h k = record { at = λ w p. After-step Q' (m w).0 (m w).1 (h.at w p) k }

  -- The promise, where the action has returned.
  pub Ensures-returns :
      (m : Io D A) (w w' : World D) (a : A) → Ensures P Q m → P w → m w ≡ (ok a, w') → Q a w'
  Ensures-returns m w w' a h p e = subst (After Q) e (h.at w p)

  -- A fact that no world bears on is a premise.
  pub Ensures-given : {E : Type 0} (m : Io D A) → (E → Ensures P Q m) → Ensures (λ w. P w × E) Q m
  Ensures-given m k = record { at = λ w h. (k h.1).at w h.0 }

-- An action that opens and closes nothing.
abbrev pub IsQuiet : {D A : Type 0} → Io D A → Type 0
IsQuiet {D} m = (o c : List ℕ) → Keeps {D = D} (Ledger o c) m

module _ {D A : Type 0} (live kept : List ℕ) (m : Io D A) where
  quiet_step :
      (r : Result A) (w w' : World D)
      → (w'.opened ≡ w.opened) × (w'.closed ≡ w.closed)
      → Even live kept w
      → After {D = D} {A = A} (λ _. Even live kept) (r, w')
  quiet_step (ok a) w w' e h = λ fd. omega (arith, ap (count fd) e.0, ap (count fd) e.1, h fd)
  quiet_step (throws x) w w' e h = tt

  pub quiet-Even : IsQuiet m → Ensures (Even live kept) (λ _. Even live kept) m
  quiet-Even q = record {
    at = λ w h. quiet_step (m w).0 w (m w).1 ((q w.opened w.closed).at w (refl, refl)) h;
  }

module _ {D : Type 0} (live kept : List ℕ) where
  pub close-Even :
      (fd : ℕ) → Ensures {D = D} (Even (fd ∷ live) kept) (λ _. Even live kept) (close fd)
  unfolding close
  close-Even fd = record { at = λ w h x. ground (arith, h x) }

  -- A descriptor that was opened is one more to hold.
  abbrev pub EvenWith : Option ℕ → World D → Type 0
  EvenWith none w = Even live kept w
  EvenWith (some fd) w = Even (fd ∷ live) kept w

  open_step :
      (r : Option ℕ) (w : World D)
      → next_count w.opens ≡ r
      → Even live kept w
      → After EvenWith (open_descriptor w)
  unfolding open_descriptor
  open_step none w e h = rw (e, open_descriptor) h
  open_step (some fd) w e h = rw (e, open_descriptor) (λ x. ground (arith, h x))

  pub open-Even : Ensures (Even live kept) EvenWith open_descriptor
  open-Even = record { at = λ w h. open_step (next_count w.opens) w refl h }

-- An action that starts with one of these.
module _ {D A : Type 0} {Q : A → World D → Type 0} (live kept : List ℕ) where
  pub quiet_then :
      {B : Type 0} (m : Io D B) (f : B → Io D A)
      → IsQuiet m
      → ((b : B) → Ensures (Even live kept) Q (f b))
      → Ensures (Even live kept) Q (m >>= f)
  quiet_then m f q k = Ensures-bind (λ _. Even live kept) m f (quiet-Even live kept m q) k

  pub close_then :
      (fd : ℕ) (f : Unit {0} → Io D A)
      → ((u : Unit {0}) → Ensures (Even live kept) Q (f u))
      → Ensures (Even (fd ∷ live) kept) Q (close fd >>= f)
  close_then fd f k = Ensures-bind (λ _. Even live kept) (close fd) f (close-Even live kept fd) k

  pub open_then :
      (f : Option ℕ → Io D A)
      → ((r : Option ℕ) → Ensures (EvenWith live kept r) Q (f r))
      → Ensures (Even live kept) Q (open_descriptor >>= f)
  open_then f k = Ensures-bind (EvenWith live kept) open_descriptor f (open-Even live kept) k

  pub lift_then :
      {B : Type 0} (r : Result B) (f : B → Io D A)
      → ((b : B) → Ensures (Even live kept) Q (f b))
      → Ensures (Even live kept) Q (lift r >>= f)
  lift_then r f k = Ensures-bind (λ _. Even live kept) (lift r) f (Ensures-lift r (λ b e w h. h)) k

  -- The same, where it is known what will be opened.
  pub open_known :
      (r : Option ℕ) (f : Option ℕ → Io D A)
      → Ensures (EvenWith live kept r) Q (f r)
      → Ensures (λ w. Even live kept w × (next_count w.opens ≡ r)) Q (open_descriptor >>= f)
  unfolding open_descriptor ◌>>=◌
  open_known none f k = record { at = λ w h. rw (h.1, open_descriptor, ◌>>=◌) (k.at _ h.0) }
  open_known (some fd) f k = record {
    at = λ w h. rw (h.1, open_descriptor, ◌>>=◌) (k.at _ (λ x. ground (arith, h.0 x)));
  }
