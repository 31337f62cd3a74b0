-- ===== src/Storage/Reader/Bounds.antt =====
-- How much readRequest takes (FileStorageServer.cpp).
use network_all_in_one.Prelude.{
  ℕ, ◌+◌, ◌-◌, ◌^◌, ◌≤◌, ◌<◌, ◌≡◌, true, false, Bool-cases, inl, inr, List, [], ◌∷◌, ◌++◌, Option,
  none, some, arith, length, length-append, length-take, take,
}
use network_all_in_one.Text.{Bytes, Result, ok, throws, pos, ltb_ℤ, to_int, sub_size, int_max}
use network_all_in_one.Text.Numeral.{IsNumeral, value, stoi_numeral}
use network_all_in_one.Kernel.{World}
use network_all_in_one.Storage.Request.{buffer_size}
use network_all_in_one.Storage.Request.Wire.{
  put_wire, put_header, IsFramed, length-put_wire, length-put_header,
}
use network_all_in_one.Storage.Reader.{receive_from, receive_until, read_request}
use network_all_in_one.Storage.Reader.Framing.{continue-put_wire, read_first}
use network_all_in_one.Storage.Reader.Gathering.{is_short}

-- Where the loop goes on, the content is short.
short_below :
    (size start n : ℕ)
    → start ≤ size
    → size < 2 ^ 63
    → n ≤ int_max
    → size - start ≤ int_max
    → ltb_ℤ (to_int (sub_size size start)) (pos n) ≡ true
    → size < start + n
short_below size start n h k l m t = ground arith

module _ (n start : ℕ) (counts : n + buffer_size ≤ int_max) (near : start ≤ buffer_size) where
  -- One further piece.
  next_piece :
      (request piece : Bytes)
      → start ≤ length request
      → length request < start + n + buffer_size
      → is_short (pos n) start request ≡ true
      → length (request ++ take buffer_size piece) < start + n + buffer_size
  next_piece request piece a b short = omega (
    arith,
    length-append request (take buffer_size piece),
    length-take buffer_size piece,
    short_below (length request) start n a (omega arith) (omega arith) (omega arith) short,
  )

  receive_from-bounded :
      (rs : List (Option Bytes)) (request : Bytes)
      → start ≤ length request
      → length request < start + n + buffer_size
      → length (receive_from (pos n) start request rs).0 < start + n + buffer_size
  unfolding receive_from
  receive_from-bounded [] request a b = b
  receive_from-bounded (none ∷ rs) request a b =
      elim (Bool-cases (is_short (pos n) start request)) [
        | inl short ↦ rw short b
        | inr full ↦ rw full b
      ]
  receive_from-bounded (some [] ∷ rs) request a b =
      elim (Bool-cases (is_short (pos n) start request)) [
        | inl short ↦ rw short b
        | inr full ↦ rw full b
      ]
  receive_from-bounded (some (x ∷ xs) ∷ rs) request a b =
      elim (Bool-cases (is_short (pos n) start request)) [
        | inl short ↦ rw short (
            receive_from-bounded rs (request ++ take buffer_size (x ∷ xs))
              (omega (arith, length-append request (take buffer_size (x ∷ xs))))
              (next_piece request (x ∷ xs) a b short))
        | inr full ↦ rw full b
      ]

module _ (path numeral part : Bytes) (framed : IsFramed path numeral part) where
  -- readRequest returns less than this many bytes.
  abbrev pub Bounded : {D : Type 0} → Result Bytes × World D → Type 0
  Bounded (ok whole, w) =
      length whole < length (put_header path numeral) + value numeral + buffer_size
  Bounded (throws x, w) = true ≡ false

  -- A PUT request whose header comes in the first piece, with a length field of digits that leaves
  -- room for one more piece in an int: whatever and however much the client sends behind it,
  -- readRequest returns, and with less than a piece (1024 bytes) beyond what the header announces.
  pub read_request-Bounded :
      {D : Type 0} (fd : ℕ) (rs : List (Option Bytes)) (w : World D)
      → IsNumeral numeral
      → value numeral + buffer_size ≤ int_max
      → length (put_wire path numeral part) ≤ buffer_size
      → Bounded (read_request fd (record w { recvs = some (put_wire path numeral part) ∷ rs }))
  unfolding receive_until
  read_request-Bounded fd rs w h k fits =
      let size = length-put_wire path numeral part in
      let header = length-put_header path numeral in
      rw
        (
          read_first fd b'P' _ rs w fits,
          continue-put_wire path numeral part framed (record w { recvs = rs }) _
              (stoi_numeral numeral h (omega arith)),
        )
        (receive_from-bounded (value numeral) (length (put_header path numeral)) k
          (omega (arith, size, header)) rs (put_wire path numeral part)
          (omega (arith, size, header)) (omega (arith, size, header)))
