-- ===== src/Storage/Reader/Gathering.antt =====
-- readRequest, whatever recv returns (FileStorageServer.cpp): the request is complete or the stream
-- has ended.
use network_all_in_one.Prelude.{
  ℕ, ◌≤◌, ◌≡◌, refl, sym, ap, ◌∙◌, ◌⊎◌, inl, inr, true, false, Bool, Bool-cases, List, [], ◌∷◌,
  ◌++◌, map, take, Option, some, none, append_assoc, append-nil, length,
}
use network_all_in_one.Text.{Bytes, Result, ok, throws, ℤ, pos, sub_size, to_int, ltb_ℤ, int_max}
use network_all_in_one.Text.Numeral.{IsNumeral, value, stoi_numeral}
use network_all_in_one.Kernel.{World}
use network_all_in_one.Storage.Request.{buffer_size}
use network_all_in_one.Storage.Request.Wire.{put_wire, put_header, IsFramed}
use network_all_in_one.Storage.Reader.{receive_from, receive_until, read_request}
use network_all_in_one.Storage.Reader.Framing.{joined, continue-put_wire, read_first}

-- Whether the loop would receive more.
abbrev pub is_short : ℤ → ℕ → Bytes → Bool
is_short n start request = ltb_ℤ (to_int (sub_size (length request) start)) n

-- recv meets the end of the stream or fails, and `left` is what comes after that.
abbrev pub Stopped : List (Option Bytes) → List (Option Bytes) → Type 0
Stopped [] left = left ≡ []
Stopped (none ∷ rs) left = left ≡ rs
Stopped (some [] ∷ rs) left = left ≡ rs
Stopped (some (b ∷ bs) ∷ rs) left = true ≡ false

-- What the loop makes of `request` and the stream `rs`: it takes pieces of the stream in order, and
-- stops where the content is complete or the stream has ended.
pub record Gathered (n : ℤ) (start : ℕ) (request : Bytes) (rs : List (Option Bytes)) (whole : Bytes)
    (left : List (Option Bytes)) : Type 0 where
  pub pieces : List Bytes
  pub tail : List (Option Bytes)
  pub taken : rs ≡ map some pieces ++ tail
  pub gathered : whole ≡ request ++ joined (map (take buffer_size) pieces)
  pub ending :
      ((is_short n start whole ≡ false) × (left ≡ tail))
      ⊎ ((is_short n start whole ≡ true) × Stopped tail left)

module _ (n : ℤ) (start : ℕ) where
  stays :
      (request : Bytes) (rs left : List (Option Bytes))
      → ((is_short n start request ≡ false) × (left ≡ rs))
        ⊎ ((is_short n start request ≡ true) × Stopped rs left)
      → Gathered n start request rs request left
  stays request rs left e = record {
    pieces = [];
    tail = rs;
    taken = refl;
    gathered = sym (append-nil request);
    ending = e;
  }

  takes :
      (request : Bytes) (b : ℕ) (bs : Bytes) (rs : List (Option Bytes))
      (r : Bytes × List (Option Bytes))
      → Gathered n start (request ++ take buffer_size (b ∷ bs)) rs r.0 r.1
      → Gathered n start request (some (b ∷ bs) ∷ rs) r.0 r.1
  takes request b bs rs r g = record {
    pieces = (b ∷ bs) ∷ g.pieces;
    tail = g.tail;
    taken = ap (◌∷◌ (some (b ∷ bs))) g.taken;
    gathered = g.gathered ∙ append_assoc request _ _;
    ending = g.ending;
  }

  receive_from-Gathered :
      (rs : List (Option Bytes)) (request : Bytes)
      → let (whole, left) = receive_from n start request rs in
        Gathered n start request rs whole left
  unfolding receive_from
  receive_from-Gathered [] request = elim (Bool-cases (is_short n start request)) [
    | inl short ↦ stays request [] [] (inr (short, refl))
    | inr full ↦ stays request [] [] (inl (full, refl))
  ]
  receive_from-Gathered (none ∷ rs) request = elim (Bool-cases (is_short n start request)) [
    | inl short ↦ rw short (stays request (none ∷ rs) rs (inr (short, refl)))
    | inr full ↦ rw full (stays request (none ∷ rs) (none ∷ rs) (inl (full, refl)))
  ]
  receive_from-Gathered (some [] ∷ rs) request = elim (Bool-cases (is_short n start request)) [
    | inl short ↦ rw short (stays request (some [] ∷ rs) rs (inr (short, refl)))
    | inr full ↦ rw full (stays request (some [] ∷ rs) (some [] ∷ rs) (inl (full, refl)))
  ]
  receive_from-Gathered (some (b ∷ bs) ∷ rs) request =
      elim (Bool-cases (is_short n start request)) [
        | inl short ↦ rw short (
            takes request b bs rs _
              (receive_from-Gathered rs (request ++ take buffer_size (b ∷ bs))))
        | inr full ↦
            rw full (stays request (some (b ∷ bs) ∷ rs) (some (b ∷ bs) ∷ rs) (inl (full, refl)))
      ]

module _ (path numeral part : Bytes) (framed : IsFramed path numeral part) where
  -- The result of readRequest and the world behind it.
  abbrev pub Reads : {D : Type 0} → List (Option Bytes) → World D → Result Bytes × World D → Type 0
  Reads rs w (ok whole, w') =
      (w' ≡ record w { recvs = w'.recvs })
      × Gathered (pos (value numeral)) (length (put_header path numeral))
          (put_wire path numeral part) rs whole w'.recvs
  Reads rs w (throws x, w') = true ≡ false

  -- A PUT request whose header comes in the first piece, with no space in the path, a length field of
  -- digits that is an int and a size below 2 ^ 62, and anything behind that piece: readRequest returns,
  -- and what it returns is the first piece and the next pieces of the stream in order. It stops where
  -- the size of the content, as an int, is not below the length field, and then it has taken no more
  -- of the stream; or where it is below and the stream has ended or failed. Nothing else in the world
  -- has changed.
  pub read_request-Reads :
      {D : Type 0} (fd : ℕ) (rs : List (Option Bytes)) (w : World D)
      → IsNumeral numeral
      → value numeral ≤ int_max
      → length (put_wire path numeral part) ≤ buffer_size
      → Reads rs w (read_request fd (record w { recvs = some (put_wire path numeral part) ∷ rs }))
  unfolding receive_until
  read_request-Reads fd rs w h k fits =
      rw
        (
          read_first fd b'P' _ rs w fits,
          continue-put_wire path numeral part framed (record w { recvs = rs }) _
              (stoi_numeral numeral h k),
        )
        (
          refl,
          receive_from-Gathered (pos (value numeral)) (length (put_header path numeral)) rs
              (put_wire path numeral part),
        )
