-- ===== src/Async/Select/Cut.antt =====
-- TCPServer_select.cpp echoes a message as a string of C.
use network_all_in_one.Prelude.{
  ℕ, ◌≤◌, ◌<◌, ◌≡◌, refl, ◌∙◌, List, [], ◌∷◌, ◌++◌, Option, some, arith, length, take_all, min,
  lt→ltb,
}
use network_all_in_one.Text.{Bytes, ok}
use network_all_in_one.Text.Search.{Without}
use network_all_in_one.Kernel.{World, pure, send, next_count, ◌>>=◌}
use network_all_in_one.Storage.Request.{buffer_size}
use network_all_in_one.Tcp.Echo.{NoData}
use network_all_in_one.Async.Select.{c_string, echo_string}

c_string-append : (front back : Bytes) → Without 0 front → c_string (front ++ 0 ∷ back) ≡ front
unfolding c_string
c_string-append [] back h = refl
c_string-append (b ∷ front) back h = ground (arith, c_string-append front back h.1)

module _ (sd room : ℕ) (front : Bytes) (ss : List (Option ℕ)) (w : World NoData)
    (plain : Without 0 front) (fits : length front ≤ room) (sends : w.sends ≡ some room ∷ ss) where
  echoes :
      (b : ℕ) (bs : Bytes)
      → c_string (b ∷ bs) ≡ front
      → length (b ∷ bs) < buffer_size
      → echo_string sd (some (b ∷ bs)) w
        ≡ (ok sd, record w { sends = ss; sent = w.sent ++ (sd, front) ∷ [] })
  unfolding echo_string send next_count ◌>>=◌ pure
  echoes b bs e short =
      rw
        (
          lt→ltb (length (b ∷ bs)) buffer_size short,
          e,
          sends,
          take_all (min room (length front)) front (omega arith),
        )
        refl

  cut_at :
      (f back : Bytes)
      → f ≡ front
      → Without 0 f
      → length (f ++ 0 ∷ back) < buffer_size
      → echo_string sd (some (f ++ 0 ∷ back)) w
        ≡ (ok sd, record w { sends = ss; sent = w.sent ++ (sd, front) ∷ [] })
  cut_at [] back e h short = echoes 0 back (c_string-append [] back h ∙ e) short
  cut_at (b ∷ f) back e h short =
      echoes b (f ++ 0 ∷ back) (c_string-append (b ∷ f) back h ∙ e) short

  -- A message with a zero byte, shorter than the buffer, whose answer finds room in one send: what is
  -- sent back is the part before the first zero byte, and nothing of the rest.
  pub echo_string_cut :
      (back : Bytes)
      → length (front ++ 0 ∷ back) < buffer_size
      → echo_string sd (some (front ++ 0 ∷ back)) w
        ≡ (ok sd, record w { sends = ss; sent = w.sent ++ (sd, front) ∷ [] })
  echo_string_cut back short = cut_at front back refl plain short
