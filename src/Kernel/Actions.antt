-- ===== src/Kernel/Actions.antt =====
-- Rules for what an action keeps, one for each way to build an action.
use network_all_in_one.Prelude.{ℕ, ◌≡◌, Bool, true, false, List, arith, if◌then◌else◌}
use network_all_in_one.Text.{Bytes, Result, ok, throws, Exception}
use network_all_in_one.Kernel.{
  World, Io, ◌>>=◌, pure, throw, lift, recv, send, try_call, watch, unwatch, get_flags, set_flags,
}

-- `m` keeps `P`, whether it returns or throws.
pub record Keeps {D A : Type 0} (P : World D → Type 0) (m : Io D A) : Type 0 where
  pub at : (w : World D) → P w → P (m w).1

module _ {D A B : Type 0} {P : World D → Type 0} where
  pub Keeps-bind :
      (m : Io D A) (f : A → Io D B) → Keeps P m → ((a : A) → Keeps P (f a)) → Keeps P (m >>= f)
  unfolding ◌>>=◌
  Keeps-bind m f km kf = record { at = λ w h. let (r, w') = m w in next r w' (km.at w h) }
    where
      next : (r : Result A) (v : World D) → P v → P ((◌>>=◌ {D = D} {A = A} (λ u. (r, u)) f) v).1
      next (ok a) v h = (kf a).at v h
      next (throws e) v h = h

module _ {D A : Type 0} {P : World D → Type 0} where
  pub Keeps-pure : (a : A) → Keeps P (pure a)
  unfolding pure
  Keeps-pure a = record { at = λ w h. h }

  pub Keeps-throw : (e : Exception) → Keeps P (throw {A = A} e)
  unfolding throw
  Keeps-throw e = record { at = λ w h. h }

  pub Keeps-lift : (r : Result A) → Keeps P (lift r)
  unfolding lift
  Keeps-lift r = record { at = λ w h. h }

  pub Keeps-if : (b : Bool) (m n : Io D A) → Keeps P m → Keeps P n → Keeps P (if b then m else n)
  Keeps-if true m n km kn = km
  Keeps-if false m n km kn = kn

-- The record of opened and closed descriptors.
abbrev pub Ledger : {D : Type 0} → List ℕ → List ℕ → World D → Type 0
Ledger o c w = (w.opened ≡ o) × (w.closed ≡ c)

module _ {D : Type 0} {o c : List ℕ} where
  pub recv-Ledger : (fd n : ℕ) → Keeps {D = D} (Ledger o c) (recv fd n)
  unfolding recv
  recv-Ledger fd n = record { at = λ w h. h }

  pub send-Ledger : (fd : ℕ) (bs : Bytes) (n : ℕ) → Keeps {D = D} (Ledger o c) (send fd bs n)
  unfolding send
  send-Ledger fd bs n = record { at = λ w h. ground arith }

  pub try_call-Ledger : Keeps {D = D} (Ledger o c) try_call
  unfolding try_call
  try_call-Ledger = record { at = λ w h. h }

  pub watch-Ledger : (fd : ℕ) → Keeps {D = D} (Ledger o c) (watch fd)
  unfolding watch
  watch-Ledger fd = record { at = λ w h. h }

  pub unwatch-Ledger : (fd : ℕ) → Keeps {D = D} (Ledger o c) (unwatch fd)
  unfolding unwatch
  unwatch-Ledger fd = record { at = λ w h. h }

  pub get_flags-Ledger : (fd : ℕ) → Keeps {D = D} (Ledger o c) (get_flags fd)
  unfolding get_flags
  get_flags-Ledger fd = record { at = λ w h. h }

  pub set_flags-Ledger : (fd n : ℕ) → Keeps {D = D} (Ledger o c) (set_flags fd n)
  unfolding set_flags
  set_flags-Ledger fd n = record { at = λ w h. h }

pub ruleset action_rules = (
  Keeps-bind, Keeps-pure, Keeps-throw, Keeps-lift, Keeps-if, recv-Ledger, send-Ledger,
  try_call-Ledger, watch-Ledger, unwatch-Ledger, get_flags-Ledger, set_flags-Ledger,
)
