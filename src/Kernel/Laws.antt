-- ===== src/Kernel/Laws.antt =====
-- The laws of actions, at a world.
use network_all_in_one.Prelude.{◌≡◌, refl, ap}
use network_all_in_one.Text.{Result, ok, throws}
use network_all_in_one.Kernel.{World, Io, ◌>>=◌, proceed, pure}

module _ {D A B : Type 0} where
  pub bind_assoc :
      {C : Type 0} (m : Io D A) (f : A → Io D B) (g : B → Io D C) (w : World D)
      → (m >>= f >>= g) w ≡ (m >>= λ a. f a >>= g) w
  unfolding ◌>>=◌
  bind_assoc {C} m f g w = let (r, v) = m w in same r v
    where
      same :
          (r : Result A) (v : World D)
          → (let (r', v') = proceed r f v in proceed r' g v') ≡ proceed r (λ a. f a >>= g) v
      same (ok a) v = refl
      same (throws e) v = refl

  -- Two continuations that agree everywhere make the same action.
  pub bind_congr :
      (m : Io D A) (f g : A → Io D B) (w : World D)
      → ((a : A) (v : World D) → f a v ≡ g a v)
      → (m >>= f) w ≡ (m >>= g) w
  unfolding ◌>>=◌
  bind_congr m f g w h = let (r, v) = m w in same r v
    where
      same : (r : Result A) (v : World D) → proceed r f v ≡ proceed r g v
      same (ok a) v = h a v
      same (throws e) v = refl

pub bind_pure : {D A : Type 0} (m : Io D A) (w : World D) → (m >>= pure) w ≡ m w
unfolding ◌>>=◌ pure
bind_pure {D} {A} m w = let (r, v) = m w in same r v
  where
    same : (r : Result A) (v : World D) → proceed r pure v ≡ (r, v)
    same (ok a) v = refl
    same (throws e) v = refl

-- What follows sees only what an action leaves.
pub bind_at :
    {D A B : Type 0} (m n : Io D A) (f : A → Io D B) (w : World D)
    → m w ≡ n w
    → (m >>= f) w ≡ (n >>= f) w
unfolding ◌>>=◌
bind_at m n f w e = ap (λ x. proceed x.0 f x.1) e

pub pure_bind : {D A B : Type 0} (a : A) (f : A → Io D B) (w : World D) → (pure a >>= f) w ≡ f a w
unfolding ◌>>=◌ pure
pure_bind a f w = refl
