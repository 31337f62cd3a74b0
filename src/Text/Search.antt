-- ===== src/Text/Search.antt =====
-- Laws of find, substr and the prefix test, at the shapes the protocol's requests have.
use network_all_in_one.Prelude.{
  ℕ, ◌+◌, ◌≤◌, ◌≡◌, refl, ◌≢◌, true, false, [], ◌∷◌, ◌++◌, none, some, arith, length, take, drop,
  All, length-append, drop-append_exact, take-append_exact, take_all, ltb, ==_refl,
}
use network_all_in_one.Text.{Bytes, ok, npos, find, index_of, substr, starts_with}

-- The byte does not stand in the string.
abbrev pub Without : ℕ → Bytes → Type 0
Without c s = All (λ x. x ≢ c) s

index_of_first :
    (c : ℕ) (xs ys : Bytes) → Without c xs → index_of c (xs ++ c ∷ ys) ≡ some (length xs)
unfolding index_of
index_of_first c [] ys h = ground arith
index_of_first c (x ∷ xs) ys h = ground (arith, index_of_first c xs ys h.1)

index_of-none : (c : ℕ) (xs : Bytes) → Without c xs → index_of c xs ≡ none
unfolding index_of
index_of-none c [] h = refl
index_of-none c (x ∷ xs) h = ground (arith, index_of-none c xs h.1)

-- The search meets the byte right behind a field that does not hold it.
pub find_field :
    (c from : ℕ) (front field rest : Bytes)
    → from ≡ length front
    → Without c field
    → find (front ++ (field ++ c ∷ rest)) c from ≡ from + length field
unfolding find
find_field c from front field rest e h =
    rw (drop-append_exact from front (field ++ c ∷ rest) e, find)
      (rw (index_of_first c field rest h, find))

-- The search fails where the last field does not hold the byte.
pub find_missing :
    (c from : ℕ) (front field : Bytes)
    → from ≡ length front
    → Without c field
    → find (front ++ field) c from ≡ npos
unfolding find
find_missing c from front field e h =
    rw (drop-append_exact from front field e, find) (rw (index_of-none c field h, find))

-- From the end of a front on, substr reads what follows.
pub substr-append :
    (from n : ℕ) (front s : Bytes)
    → from ≡ length front
    → substr (front ++ s) from n ≡ ok (take n s)
unfolding substr
substr-append from n front s e =
    let fits : ltb (length (front ++ s)) from ≡ false = ground (arith, length-append front s) in
    rw (fits, drop-append_exact from front s e)

-- The piece between two positions is the field that stands there.
pub substr_field :
    (from n : ℕ) (front field rest : Bytes)
    → from ≡ length front
    → n ≡ length field
    → substr (front ++ (field ++ rest)) from n ≡ ok field
substr_field from n front field rest e k =
    rw (substr-append from n front (field ++ rest) e, take-append_exact n field rest k)

-- The last field, with a count that reaches its end or beyond.
pub substr_rest :
    (from n : ℕ) (front field : Bytes)
    → from ≡ length front
    → length field ≤ n
    → substr (front ++ field) from n ≡ ok field
substr_rest from n front field e k = rw (substr-append from n front field e, take_all n field k)

pub starts_with-append : (p s : Bytes) → starts_with (p ++ s) p ≡ true
unfolding starts_with
starts_with-append [] [] = refl
starts_with-append [] (x ∷ s) = refl
starts_with-append (c ∷ p) s = rw (==_refl c, starts_with-append p s)

pub starts_with-length : (s p : Bytes) → starts_with s p ≡ true → length p ≤ length s
unfolding starts_with
starts_with-length s [] h = omega arith
starts_with-length [] (p ∷ ps) h = cc
starts_with-length (c ∷ s) (p ∷ ps) h = ground (arith, starts_with-length s ps)

-- substr is defined where its start is in the string.
pub substr_within :
    (s : Bytes) (from n : ℕ) → from ≤ length s → substr s from n ≡ ok (take n (drop from s))
unfolding substr
substr_within s from n h = ground arith
