-- ===== src/Text.antt =====
-- What the sources use of std::string and of the conversions between the integer types of C++:
-- find, rfind(s, 0) == 0, substr, stoi, and casts between size_t and int. A string is the list of
-- its bytes. `size_t` has 64 bits and `int` 32, in two's complement.
pub mod Search
pub mod Numeral
use network_all_in_one.Prelude.{
  ℕ, suc, ◌+◌, ◌-◌, ◌*◌, ◌%◌, ◌^◌, Bool, true, false, ◌&&◌, ◌||◌, List, [], ◌∷◌, Option, none, some,
  length, take, drop, ltb, leb, ◌==◌, if◌then◌else◌,
}

abbrev pub Bytes : Type 0
Bytes = List ℕ

-- The exceptions of the standard library that the program does not catch, and undefined behaviour.
pub data Exception : Type 0 where
  invalid_argument out_of_range bad_fd_set bad_buffer : Exception

pub data Result {ℓ} (A : Type ℓ) : Type ℓ where
  ok : A → Result A
  throws : Exception → Result A

infixl 5 ◌>>=◌
abbrev pub ◌>>=◌ {ℓ κ} : {A : Type ℓ} {B : Type κ} → Result A → (A → Result B) → Result B
ok a >>= f = f a
throws e >>= f = throws e

-- `int`: `negsuc n` is -(n + 1).
pub data ℤ : Type 0 where
  pos : ℕ → ℤ
  negsuc : ℕ → ℤ

abbrev pub ltb_ℤ : ℤ → ℤ → Bool
ltb_ℤ (pos a) (pos b) = ltb a b
ltb_ℤ (pos a) (negsuc b) = false
ltb_ℤ (negsuc a) (pos b) = true
ltb_ℤ (negsuc a) (negsuc b) = ltb b a

abbrev pub size_mod : ℕ
size_mod = 2 ^ 64

abbrev pub int_max : ℕ
int_max = 2 ^ 31 - 1

-- std::string::npos
abbrev pub npos : ℕ
npos = 2 ^ 64 - 1

-- Sum and difference of two values of type size_t.
abbrev pub add_size : ℕ → ℕ → ℕ
add_size a b = (a + b) % size_mod

abbrev pub sub_size : ℕ → ℕ → ℕ
sub_size a b = (a + size_mod - b) % size_mod

-- static_cast<int>(n)
abbrev pub to_int : ℕ → ℤ
to_int n = if ltb (n % 2 ^ 32) (2 ^ 31) then pos (n % 2 ^ 32) else negsuc (2 ^ 32 - 1 - n % 2 ^ 32)

-- An int passed where a size_t is wanted.
abbrev pub of_int : ℤ → ℕ
of_int (pos n) = n
of_int (negsuc n) = size_mod - 1 - n

unfoldable pub index_of : ℕ → Bytes → Option ℕ
index_of c [] = none
index_of c (x ∷ xs) =
    let rest : Option ℕ = elim (index_of c xs) [ none ↦ none | some i ↦ some (suc i) ] in
    if x == c then some 0 else rest

-- s.find(c, from)
unfoldable pub find : Bytes → ℕ → ℕ → ℕ
unfolding index_of
find s c from = elim (index_of c (drop from s)) [ none ↦ npos | some i ↦ from + i ]

-- s.rfind(prefix, 0) == 0
unfoldable pub starts_with : Bytes → Bytes → Bool
starts_with s [] = true
starts_with [] (p ∷ ps) = false
starts_with (c ∷ s) (p ∷ ps) = (c == p) && starts_with s ps

-- s.substr(from, n)
unfoldable pub substr : Bytes → ℕ → ℕ → Result Bytes
substr s from n = if ltb (length s) from then throws out_of_range else ok (take n (drop from s))

-- isspace in the C locale
unfoldable pub is_space : ℕ → Bool
is_space c = (c == 32) || (leb 9 c && leb c 13)

unfoldable pub is_digit : ℕ → Bool
is_digit c = leb 48 c && leb c 57

unfoldable pub skip_spaces : Bytes → Bytes
skip_spaces [] = []
skip_spaces (c ∷ s) = let rest = skip_spaces s in if is_space c then rest else c ∷ s

unfoldable pub leading_digits : Bytes → Bytes
leading_digits [] = []
leading_digits (c ∷ s) = let rest = leading_digits s in if is_digit c then c ∷ rest else []

-- The number that decimal digits write, after digits that write `acc`.
unfoldable pub value_from : ℕ → Bytes → ℕ
value_from acc [] = acc
value_from acc (c ∷ s) = value_from (acc * 10 + (c - 48)) s

-- A number after its sign; no digit at all and a value outside `int` are the two exceptions.
unfoldable pub positive : Bytes → Result ℤ
positive [] = throws invalid_argument
positive (d ∷ ds) =
    let n = value_from 0 (d ∷ ds) in if leb n int_max then ok (pos n) else throws out_of_range

unfoldable pub negative : Bytes → Result ℤ
negative [] = throws invalid_argument
negative (d ∷ ds) =
    let n = value_from 0 (d ∷ ds) in
    if n == 0
    then ok (pos 0)
    else if leb n (int_max + 1)
    then ok (negsuc (n - 1))
    else throws out_of_range

unfoldable pub signed : Bytes → Result ℤ
unfolding leading_digits positive negative
signed [] = throws invalid_argument
signed (c ∷ s) =
    if c == b'-'
    then negative (leading_digits s)
    else if c == b'+'
    then positive (leading_digits s)
    else positive (leading_digits (c ∷ s))

-- std::stoi(s)
unfoldable pub stoi : Bytes → Result ℤ
unfolding signed skip_spaces is_space is_digit value_from
stoi s = signed (skip_spaces s)
