-- ===== src/Storage/Sender/Delivery.antt =====
-- What sendAll delivers (FileStorageServer.cpp).
use network_all_in_one.Prelude.{
  ℕ, zero, suc, ◌+◌, ◌-◌, ◌≤◌, ◌<◌, ◌≡◌, refl, sym, ap, ◌∙◌, inl, inr, ℕ-cases, false, List, [],
  ◌∷◌, ◌++◌, append_assoc, append-nil, arith, length, take, drop, take_all, take-append-take-drop,
  ltb, ◌==◌, ==_refl, if◌then◌else◌, min, Bool-cases, Option-cases, ltb→lt,
}
use network_all_in_one.Text.{Bytes, Result, ok, throws, ℤ, pos, negsuc}
use network_all_in_one.Kernel.{World, Io, pure, send, ◌>>=◌, next_count}
use network_all_in_one.Storage.Sender.{after_send, send_loop, send_all}

-- The bytes that went to one descriptor, in the order of the sends.
unfoldable pub received_by : ℕ → List (ℕ × Bytes) → Bytes
received_by fd [] = []
received_by fd ((x, bs) ∷ sent) =
    let rest = received_by fd sent in if x == fd then bs ++ rest else rest

pub received_by-append :
    (fd : ℕ) (xs ys : List (ℕ × Bytes))
    → received_by fd (xs ++ ys) ≡ received_by fd xs ++ received_by fd ys
unfolding received_by
received_by-append fd [] ys = refl
received_by-append fd ((x, bs) ∷ xs) ys = elim (Bool-cases (x == fd)) [
  | inl e ↦
      rw (e, received_by-append fd xs ys)
        (sym (append_assoc bs (received_by fd xs) (received_by fd ys)))
  | inr e ↦ rw (e) (received_by-append fd xs ys)
]

pub received_by_one : (fd : ℕ) (bs : Bytes) → received_by fd ((fd, bs) ∷ []) ≡ bs
unfolding received_by
received_by_one fd bs = rw (==_refl fd, append-nil)

ltb-false : (a b : ℕ) → ltb a b ≡ false → b ≤ a
ltb-false a b h = ground arith

-- With 0 the whole response has been delivered, behind what was sent before; with -1 a proper part
-- of it, from its beginning on; and there is no third answer.
abbrev pub Delivered : {D : Type 0} → ℕ → Bytes → Bytes → Result ℤ × World D → Type 0
Delivered fd before response (ok (pos n), w) =
    (n ≡ 0) × (received_by fd w.sent ≡ before ++ response)
Delivered fd before response (ok (negsuc n), w) =
    (n ≡ 0)
    × ((k : ℕ) × (k < length response) × (received_by fd w.sent ≡ before ++ take k response))
Delivered fd before response (throws x, w) = ⊥

module _ {D : Type 0} (fd : ℕ) (before response : Bytes) where
  abbrev SoFar : ℕ → World D → Type 0
  SoFar total w = received_by fd w.sent ≡ before ++ take total response

  after_piece :
      (total n : ℕ) (w : World D)
      → SoFar total w
      → received_by fd (w.sent ++ (fd, take n (drop total response)) ∷ [])
        ≡ before ++ take (total + n) response
  after_piece total n w h = rw (
    received_by-append fd w.sent ((fd, take n (drop total response)) ∷ []),
    received_by_one fd (take n (drop total response)),
    h,
    append_assoc,
    take-append-take-drop total n response,
  )

  nothing_more :
      (total : ℕ) (w : World D)
      → SoFar total w
      → received_by fd (w.sent ++ (fd, []) ∷ []) ≡ before ++ take total response
  nothing_more total w h =
      let e : total + 0 ≡ total = omega arith in
      after_piece total 0 w h ∙ ap (λ t. before ++ take t response) e

  -- One round: what follows a send delivers, if the rest of the loop does from every larger total.
  round-Delivered :
      (total : ℕ) (w : World D) (next : ℕ → Io D ℤ)
      → total < length response
      → SoFar total w
      → ((t : ℕ) (v : World D)
          → total < t
          → t ≤ length response
          → SoFar t v
          → Delivered fd before response (next t v))
      → Delivered fd before response
          ((send fd (drop total response) (length response - total) >>= after_send total next) w)
  unfolding ◌>>=◌ send
  round-Delivered total w next a h step = elim (Option-cases (next_count w.sends)) [
    | inl e ↦ rw (e, send) (unfold after_send pure in (refl, (total, a, h)))
    | inr (n, e) ↦
        rw (e, send)
          (elim (ℕ-cases (min n (length response - total))) [
            | inl z ↦ rw z (unfold after_send pure in (refl, (total, a, nothing_more total w h)))
            | inr (m, k) ↦ rw k (
                unfold after_send in
                step (total + suc m) _ (omega arith) (omega arith) (after_piece total (suc m) w h))
          ])
  ]

  send_loop-Delivered :
      (rounds total : ℕ) (w : World D)
      → total ≤ length response
      → length response - total < rounds
      → SoFar total w
      → Delivered fd before response (send_loop rounds fd response total w)
  unfolding send_loop
  send_loop-Delivered zero total w a b h = absurd (omega arith)
  send_loop-Delivered (suc rounds) total w a b h = elim (Bool-cases (ltb total (length response))) [
    | inl more ↦ rw more (
        round-Delivered total w (send_loop rounds fd response) (ltb→lt _ _ more) h
          (λ t v x y g. send_loop-Delivered rounds t v y (omega arith) g))
    | inr done ↦ rw done (
        unfold pure in
        (
          refl,
          h ∙ ap (◌++◌ before) (take_all total response (ltb-false total (length response) done)),
        ))
  ]

-- sendAll ends, and tells what it did: 0 where the client has been sent the whole response, and -1
-- where it has been sent a proper part of it, from its beginning on. What was sent before is kept.
pub send_all-Delivered :
    {D : Type 0} (fd : ℕ) (response : Bytes) (w : World D)
    → Delivered fd (received_by fd w.sent) response (send_all fd response w)
unfolding send_all
send_all-Delivered fd response w =
    send_loop-Delivered fd (received_by fd w.sent) response (suc (length response)) 0 w
      (omega arith) (omega arith) (sym (append-nil (received_by fd w.sent)))
