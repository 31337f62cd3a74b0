-- ===== src/Storage/Sender/Telling.antt =====
-- What sendAll (FileStorageServer.cpp) does send by send, down to the kernel's answers.
use network_all_in_one.Prelude.{
  ℕ, zero, suc, ◌+◌, ◌-◌, ◌≤◌, ◌<◌, ◌≡◌, refl, sym, ap, subst, ◌∙◌, inl, inr, ℕ-cases, List, [],
  ◌∷◌, ◌++◌, Option, none, some, append_assoc, append-nil, arith, length, take, drop, take_all,
  take-append-take-drop, ltb, min, Bool-cases, ltb→lt, ◌⊎◌,
}
use network_all_in_one.Text.{Bytes, Result, ok, throws, ℤ, pos, negsuc}
use network_all_in_one.Kernel.{World, Io, pure, send, ◌>>=◌, next_count, rest_of}
use network_all_in_one.Storage.Sender.{after_send, send_loop, send_all}

-- What sending reads and changes: the record of what was sent, and the answers of send to come.
pub record Talk : Type 0 where
  pub sent : List (ℕ × Bytes)
  pub sends : List (Option ℕ)

abbrev pub talk : {D : Type 0} → World D → Talk
talk w = record { sent = w.sent; sends = w.sends }

abbrev pub addressed : ℕ → List Bytes → List (ℕ × Bytes)
addressed fd [] = []
addressed fd (bs ∷ pieces) = (fd, bs) ∷ addressed fd pieces

abbrev pub joined : List Bytes → Bytes
joined [] = []
joined (bs ∷ pieces) = bs ++ joined pieces

-- A send for each piece, and each took a byte at least.
pub data Taken : List Bytes → List (Option ℕ) → List (Option ℕ) → Type 0 where
  all : {answers : List (Option ℕ)} → Taken [] answers answers
  took :
      {bs : Bytes} {pieces : List Bytes} {n : ℕ} {answers later : List (Option ℕ)}
      → Taken pieces answers later
      → Taken (bs ∷ pieces) (some (suc n) ∷ answers) later

-- A send for each piece, and then one that the kernel refused: it failed, or took nothing.
pub data Refused : List Bytes → List (Option ℕ) → List (Option ℕ) → Type 0 where
  fails :
      {answers : List (Option ℕ)} → next_count answers ≡ none → Refused [] answers (rest_of answers)
  takes_nothing : {answers : List (Option ℕ)} → Refused ([] ∷ []) (some 0 ∷ answers) answers
  behind :
      {bs : Bytes} {pieces : List Bytes} {n : ℕ} {answers later : List (Option ℕ)}
      → Refused pieces answers later
      → Refused (bs ∷ pieces) (some (suc n) ∷ answers) later

-- The client was sent the whole reply, in these pieces, and nothing else was sent.
pub record Whole (fd : ℕ) (reply : Bytes) (t t' : Talk) : Type 0 where
  pub pieces : List Bytes
  pub made : joined pieces ≡ reply
  pub logged : t'.sent ≡ t.sent ++ addressed fd pieces
  pub answered : Taken pieces t.sends t'.sends

-- The client was sent a proper part of the reply, from its beginning on, and then the kernel refused.
pub record Part (fd : ℕ) (reply : Bytes) (t t' : Talk) : Type 0 where
  pub pieces : List Bytes
  pub size : ℕ
  pub proper : size < length reply
  pub made : joined pieces ≡ take size reply
  pub logged : t'.sent ≡ t.sent ++ addressed fd pieces
  pub answered : Refused pieces t.sends t'.sends

abbrev pub Told : ℕ → Bytes → Talk → Talk → Type 0
Told fd reply t t' = Whole fd reply t t' ⊎ Part fd reply t t'

Taken-snoc :
    (pieces : List Bytes) (bs : Bytes) (n : ℕ) (answers later : List (Option ℕ))
    → Taken pieces answers (some (suc n) ∷ later)
    → Taken (pieces ++ bs ∷ []) answers later
Taken-snoc _ bs n _ later all = took all
Taken-snoc _ bs n _ later (took {bs = b} {pieces = ps} {answers = more} t) =
    took (Taken-snoc ps bs n more later t)

Taken-Refused :
    (pieces qs : List Bytes) (answers between later : List (Option ℕ))
    → Taken pieces answers between
    → Refused qs between later
    → Refused (pieces ++ qs) answers later
Taken-Refused _ qs _ between later all r = r
Taken-Refused _ qs _ between later (took {pieces = ps} {answers = more} t) r =
    behind (Taken-Refused ps qs more between later t r)

addressed-append :
    (fd : ℕ) (xs ys : List Bytes) → addressed fd (xs ++ ys) ≡ addressed fd xs ++ addressed fd ys
addressed-append fd [] ys = refl
addressed-append fd (x ∷ xs) ys = ap (◌∷◌ (fd, x)) (addressed-append fd xs ys)

joined-append : (xs ys : List Bytes) → joined (xs ++ ys) ≡ joined xs ++ joined ys
joined-append [] ys = refl
joined-append (x ∷ xs) ys = rw (joined-append xs ys) (sym (append_assoc x (joined xs) (joined ys)))

make_more :
    (reply : Bytes) (pieces : List Bytes) (total n : ℕ)
    → joined pieces ≡ take total reply
    → joined (pieces ++ take n (drop total reply) ∷ []) ≡ take (total + n) reply
make_more reply pieces total n e =
    rw
      (
        joined-append pieces (take n (drop total reply) ∷ []),
        e,
        append-nil (take n (drop total reply)),
        take-append-take-drop total n reply,
      )
      refl

-- The result that goes with it.
abbrev pub Tells : {D : Type 0} → ℕ → Bytes → Talk → Result ℤ × World D → Type 0
Tells fd reply t (ok (pos n), w) = (n ≡ 0) × Whole fd reply t (talk w)
Tells fd reply t (ok (negsuc n), w) = (n ≡ 0) × Part fd reply t (talk w)
Tells fd reply t (throws x, w) = ⊥

module _ {D : Type 0} (fd : ℕ) (reply : Bytes) (t : Talk) where
  -- The first `total` bytes have gone.
  record SoFar (total : ℕ) (w : World D) : Type 0 where
    pieces : List Bytes
    made : joined pieces ≡ take total reply
    logged : w.sent ≡ t.sent ++ addressed fd pieces
    answered : Taken pieces t.sends w.sends

  log_more :
      (pieces : List Bytes) (bs : Bytes) (w : World D)
      → w.sent ≡ t.sent ++ addressed fd pieces
      → w.sent ++ (fd, bs) ∷ [] ≡ t.sent ++ addressed fd (pieces ++ bs ∷ [])
  log_more pieces bs w e =
      rw (e, addressed-append fd pieces (bs ∷ []))
        (append_assoc t.sent (addressed fd pieces) ((fd, bs) ∷ []))

  refuse :
      (pieces qs : List Bytes) (answers later : List (Option ℕ)) (w : World D)
      → w.sends ≡ answers
      → Taken pieces t.sends w.sends
      → Refused qs answers later
      → Refused (pieces ++ qs) t.sends later
  refuse pieces qs answers later w e k r =
      Taken-Refused pieces qs t.sends answers later (subst (Taken pieces t.sends) e k) r

  failed_here :
      (total : ℕ) (w : World D) (answers : List (Option ℕ))
      → w.sends ≡ answers
      → next_count answers ≡ none
      → total < length reply
      → SoFar total w
      → Part fd reply t (record { sent = w.sent; sends = rest_of answers })
  failed_here total w answers e f a h = record {
    pieces = h.pieces;
    size = total;
    proper = a;
    made = h.made;
    logged = h.logged;
    answered =
        subst (λ ps. Refused ps t.sends (rest_of answers)) (append-nil h.pieces)
          (refuse h.pieces [] answers (rest_of answers) w e h.answered (fails f));
  }

  -- A send that fails, or takes nothing, ends the loop with -1; behind any other it goes on.
  round-Tells :
      (total : ℕ) (w : World D) (next : ℕ → Io D ℤ) (answers : List (Option ℕ))
      → w.sends ≡ answers
      → total < length reply
      → SoFar total w
      → ((k : ℕ) (v : World D)
          → total < k
          → k ≤ length reply
          → SoFar k v
          → Tells fd reply t (next k v))
      → Tells fd reply t
          ((send fd (drop total reply) (length reply - total) >>= after_send total next) w)
  unfolding ◌>>=◌ send next_count
  round-Tells total w next [] e a h step =
      rw e (unfold after_send pure in (refl, failed_here total w [] e refl a h))
  round-Tells total w next (none ∷ answers) e a h step =
      rw e (unfold after_send pure in (refl, failed_here total w (none ∷ answers) e refl a h))
  round-Tells total w next (some zero ∷ answers) e a h step =
      let z : min 0 (length reply - total) ≡ 0 = omega arith in
      rw (e, z)
        (unfold after_send pure in
          (
            refl,
            record {
              pieces = h.pieces ++ [] ∷ [];
              size = total;
              proper = a;
              made = rw (joined-append h.pieces ([] ∷ []), append-nil) h.made;
              logged = log_more h.pieces [] w h.logged;
              answered =
                  refuse h.pieces ([] ∷ []) (some 0 ∷ answers) answers w e h.answered takes_nothing;
            },
          ))
  round-Tells total w next (some (suc n) ∷ answers) e a h step =
      let size = min (suc n) (length reply - total) in
      let bs = take size (drop total reply) in
      elim (ℕ-cases size) [
        | inl z ↦ absurd (omega (arith, z))
        | inr (m, k) ↦
            rw (e, k)
              (unfold after_send in
                step (total + suc m) _ (omega arith) (omega (arith, k)) (record {
                  pieces = h.pieces ++ take (suc m) (drop total reply) ∷ [];
                  made = make_more reply h.pieces total (suc m) h.made;
                  logged = log_more h.pieces (take (suc m) (drop total reply)) w h.logged;
                  answered =
                      Taken-snoc h.pieces _ n t.sends answers
                        (subst (Taken h.pieces t.sends) e h.answered);
                }))
      ]

  send_loop-Tells :
      (rounds total : ℕ) (w : World D)
      → total ≤ length reply
      → length reply - total < rounds
      → SoFar total w
      → Tells fd reply t (send_loop rounds fd reply total w)
  unfolding send_loop
  send_loop-Tells zero total w a b h = absurd (omega arith)
  send_loop-Tells (suc rounds) total w a b h = elim (Bool-cases (ltb total (length reply))) [
    | inl more ↦ rw more (
        round-Tells total w (send_loop rounds fd reply) w.sends refl (ltb→lt _ _ more) h
          (λ k v x y g. send_loop-Tells rounds k v y (omega arith) g))
    | inr done ↦ rw done (
        unfold pure in
        (
          refl,
          record {
            pieces = h.pieces;
            made = h.made ∙ take_all total reply (ground (arith, done));
            logged = h.logged;
            answered = h.answered;
          },
        ))
  ]

-- sendAll ends, and tells what it did: with 0 it has sent the client the whole reply, in pieces of
-- which each was taken by the kernel; with -1 a proper part of it, and then the kernel refused.
pub send_all-Tells :
    {D : Type 0} (fd : ℕ) (reply : Bytes) (w : World D)
    → Tells fd reply (talk w) (send_all fd reply w)
unfolding send_all
send_all-Tells fd reply w =
    send_loop-Tells fd reply (talk w) (suc (length reply)) 0 w (omega arith) (omega arith)
      (record { pieces = []; made = refl; logged = sym (append-nil w.sent); answered = all })
