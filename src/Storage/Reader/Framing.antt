-- ===== src/Storage/Reader/Framing.antt =====
-- readRequest gathers a PUT request that comes in pieces (FileStorageServer.cpp).
use network_all_in_one.Prelude.{
  ℕ, ◌+◌, ◌-◌, ◌^◌, ◌≤◌, ◌<◌, ◌≡◌, refl, ap, ◌∙◌, lt→ltb, true, false, List, [], ◌∷◌, ◌++◌, map,
  Option, some, none, append_assoc, append-nil, arith, length, length-append, take_all, All, ltb,
  ◌==◌,
}
use network_all_in_one.Text.{Bytes, ok, ℤ, pos, npos, sub_size, to_int, ltb_ℤ, int_max, stoi}
use network_all_in_one.Text.Search.{starts_with-append}
use network_all_in_one.Text.Numeral.{IsNumeral, value, stoi_numeral}
use network_all_in_one.Kernel.{World, lift, recv, ◌>>=◌}
use network_all_in_one.Storage.Request.{buffer_size, put_prefix}
use network_all_in_one.Storage.Request.Wire.{
  put_wire, put_header, path_end, length_end, IsFramed, find-path_end, find-length_end,
  length_field-put_wire, after_length, length-put_wire, length-put_header,
}
use network_all_in_one.Storage.Reader.{
  receive_from, receive_until, continue_request, begin_request, read_request,
}

-- A piece that one call of recv can bring.
abbrev pub IsPiece : Bytes → Type 0
IsPiece bs = (0 < length bs) × (length bs ≤ buffer_size)

abbrev pub joined : List Bytes → Bytes
joined [] = []
joined (c ∷ cs) = c ++ joined cs

-- A size below 2 ^ 31 is unchanged as an int.
short_test :
    (size start n : ℕ)
    → start ≤ size
    → size < 2 ^ 63
    → n ≤ int_max
    → size - start ≤ n
    → ltb_ℤ (to_int (sub_size size start)) (pos n) ≡ ltb (size - start) n
short_test size start n h k l m = ground arith

-- The loop ends where its test fails.
receive_stop :
    (n : ℤ) (start : ℕ) (request : Bytes) (rs : List (Option Bytes))
    → ltb_ℤ (to_int (sub_size (length request) start)) n ≡ false
    → receive_from n start request rs ≡ (request, rs)
unfolding receive_from
receive_stop n start request [] t = refl
receive_stop n start request (none ∷ rs) t = rw t
receive_stop n start request (some [] ∷ rs) t = rw t
receive_stop n start request (some (b ∷ bs) ∷ rs) t = rw t

-- Where its test holds, it takes one piece.
receive_step :
    (n : ℤ) (start : ℕ) (request piece : Bytes) (rs : List (Option Bytes))
    → IsPiece piece
    → ltb_ℤ (to_int (sub_size (length request) start)) n ≡ true
    → receive_from n start request (some piece ∷ rs) ≡ receive_from n start (request ++ piece) rs
unfolding receive_from
receive_step n start request [] rs p t = absurd (omega arith)
receive_step n start request (b ∷ bs) rs p t = rw (t, take_all 1023 bs (omega arith))

-- The loop takes the pieces of the content, and no more.
receive_exact :
    (chunks : List Bytes) (rest : List (Option Bytes)) (n start : ℕ) (request : Bytes)
    → All IsPiece chunks
    → start ≤ length request
    → n ≤ int_max
    → length request + length (joined chunks) < 2 ^ 62
    → length request - start + length (joined chunks) ≡ n
    → receive_from (pos n) start request (map some chunks ++ rest)
      ≡ (request ++ joined chunks, rest)
receive_exact [] rest n start request p a b c e = rw append-nil (
    receive_stop (pos n) start request rest
      (short_test (length request) start n a (omega arith) b (omega arith) ∙ ground arith))
receive_exact (piece ∷ chunks) rest n start request p a b c e =
    rw
      (receive_step (pos n) start request piece (map some chunks ++ rest) p.0 (
        short_test (length request) start n a (omega arith) b
          (omega (arith, length-append piece (joined chunks)))
        ∙ lt→ltb _ _ (omega (arith, p.0, length-append piece (joined chunks)))))
      (rw (← append_assoc request piece (joined chunks)) (
        receive_exact chunks rest n start (request ++ piece) p.1
          (omega (arith, length-append request piece)) b
          (omega (arith, length-append request piece, length-append piece (joined chunks)))
          (omega (arith, length-append request piece, length-append piece (joined chunks)))))

-- What the first piece of a PUT request brings: its frame, and the beginning of its content.
module _ (path numeral part : Bytes) (framed : IsFramed path numeral part) where
  path_end-ne-npos : (path_end path == npos) ≡ false
  path_end-ne-npos = ground (arith, framed.size_fits)

  length_end-ne-npos : (length_end path numeral == npos) ≡ false
  length_end-ne-npos = ground (arith, framed.size_fits)

  pub continue-put_wire :
      {D : Type 0} (w : World D) (n : ℤ)
      → stoi numeral ≡ ok n
      → continue_request (put_wire path numeral part) w
        ≡ receive_until n (length (put_header path numeral)) (put_wire path numeral part) w
  unfolding continue_request ◌>>=◌ lift receive_until
  continue-put_wire w n e =
      rw
        (
          starts_with-append put_prefix (path ++ b' ' ∷ (numeral ++ b' ' ∷ part)),
          find-path_end path numeral part framed,
          path_end-ne-npos,
          find-length_end path numeral part framed,
          length_end-ne-npos,
          length_field-put_wire path numeral part framed,
          e,
        )
        (rw (after_length path numeral part framed))

  pub put_wire-append :
      (cs : Bytes) → put_wire path numeral part ++ cs ≡ put_wire path numeral (part ++ cs)
  put_wire-append cs = simp append_assoc

-- How a PUT request may come: a framed header with the beginning of the content in the first piece,
-- the rest of the content in further pieces, and then whatever follows.
pub record IsDelivered (path numeral part : Bytes) (chunks : List Bytes) (content : Bytes)
    : Type 0 where
  pub framed : IsFramed path numeral content
  pub numeral_fine : IsNumeral numeral
  pub counted : value numeral ≡ length content
  pub within_int : length content ≤ int_max
  pub whole : part ++ joined chunks ≡ content
  pub first_fits : length (put_wire path numeral part) ≤ buffer_size
  pub pieces : All IsPiece chunks

pub read_first :
    {D : Type 0} (fd b : ℕ) (bs : Bytes) (rs : List (Option Bytes)) (w : World D)
    → length (b ∷ bs) ≤ buffer_size
    → read_request fd (record w { recvs = some (b ∷ bs) ∷ rs })
      ≡ continue_request (b ∷ bs) (record w { recvs = rs })
unfolding read_request recv ◌>>=◌ begin_request
read_first fd b bs rs w k = rw (take_all 1023 bs (omega arith))

module _ (path numeral part : Bytes) (chunks : List Bytes) (content : Bytes)
    (d : IsDelivered path numeral part chunks content) where
  part-IsFramed : IsFramed path numeral part
  part-IsFramed = record {
    path_plain = d.framed.path_plain;
    field_plain = d.framed.field_plain;
    size_fits =
        omega (arith, d.framed.size_fits, ap length d.whole, length-append part (joined chunks));
  }

  numeral_read : stoi numeral ≡ ok (pos (length content))
  numeral_read =
      stoi_numeral numeral d.numeral_fine (omega (arith, d.counted, d.within_int))
      ∙ ap (λ n. ok (pos n)) d.counted

  header_inside : length (put_header path numeral) ≤ length (put_wire path numeral part)
  header_inside =
      omega (arith, length-put_wire path numeral part, length-put_header path numeral part)

  content_within : length (part ++ joined chunks) ≤ int_max
  content_within = omega (arith, d.within_int, ap length d.whole)

  size_within : length (put_wire path numeral part) + length (joined chunks) < 2 ^ 62
  size_within =
      omega
        (arith, d.first_fits, d.within_int, ap length d.whole, length-append part (joined chunks))

  still_missing :
      length (put_wire path numeral part)
        - length (put_header path numeral)
        + length (joined chunks)
      ≡ length (part ++ joined chunks)
  still_missing = omega (
    arith,
    length-put_wire path numeral part,
    length-put_header path numeral part,
    length-append part (joined chunks),
  )

  rest_of_content :
      (rest : List (Option Bytes))
      → receive_from
          (pos (length content))
          (length (put_header path numeral))
          (put_wire path numeral part)
          (map some chunks ++ rest)
        ≡ (put_wire path numeral content, rest)
  rest_of_content rest =
      rw (← d.whole, ← put_wire-append path numeral part part-IsFramed (joined chunks))
        (receive_exact chunks rest (length (part ++ joined chunks))
          (length (put_header path numeral)) (put_wire path numeral part) d.pieces header_inside
          content_within size_within still_missing)

  -- However the content of a PUT request is cut into pieces, readRequest returns the request, byte
  -- for byte, and leaves what follows it in the stream. Conditions: the header comes in the first
  -- piece, its path has no space, its length field is the content's length in digits and an int, each
  -- piece fits the buffer, and the request is below 2 ^ 62 bytes.
  pub read_request-put_wire :
      {D : Type 0} (fd : ℕ) (rest : List (Option Bytes)) (w : World D)
      → read_request fd
          (record w { recvs = some (put_wire path numeral part) ∷ (map some chunks ++ rest) })
        ≡ (ok (put_wire path numeral content), record w { recvs = rest })
  unfolding receive_until
  read_request-put_wire fd rest w =
      read_first fd b'P' _ (map some chunks ++ rest) w d.first_fits
      ∙ continue-put_wire path numeral part part-IsFramed _ _ numeral_read
      ∙ ap (λ r. (ok r.0, record w { recvs = r.1 })) (rest_of_content rest)
