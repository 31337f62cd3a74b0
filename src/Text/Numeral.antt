-- ===== src/Text/Numeral.antt =====
-- std::stoi on the decimal numerals of the protocol.
use network_all_in_one.Prelude.{
  ℕ, ◌+◌, ◌-◌, ◌≤◌, ◌<◌, ◌≡◌, refl, ◌≢◌, true, false, [], ◌∷◌, arith, All,
}
use network_all_in_one.Text.{
  Bytes, ok, throws, out_of_range, pos, int_max, is_digit, is_space, skip_spaces, leading_digits,
  value_from, invalid_argument, negsuc, negative, positive, signed, stoi,
}

-- A nonempty string of decimal digits, leading zeros allowed.
pub record IsNumeral (ds : Bytes) : Type 0 where
  pub digits : All (λ c. is_digit c ≡ true) ds
  pub nonempty : ds ≢ []

-- The number that it writes.
abbrev pub value : Bytes → ℕ
value ds = value_from 0 ds

leading_digits-All : (ds : Bytes) → All (λ c. is_digit c ≡ true) ds → leading_digits ds ≡ ds
unfolding leading_digits
leading_digits-All [] h = refl
leading_digits-All (c ∷ ds) h = ground (arith, leading_digits-All ds h.1)

digit_bounds : (c : ℕ) → is_digit c ≡ true → (48 ≤ c) × (c ≤ 57)
unfolding is_digit
digit_bounds c h = ground arith

skip_spaces-digit : (c : ℕ) (s : Bytes) → is_digit c ≡ true → skip_spaces (c ∷ s) ≡ c ∷ s
unfolding skip_spaces is_space
skip_spaces-digit c s h = ground (arith, digit_bounds c h)

signed-digits :
    (c : ℕ) (s : Bytes) → All (λ d. is_digit d ≡ true) (c ∷ s) → signed (c ∷ s) ≡ positive (c ∷ s)
unfolding signed
signed-digits c s h = ground (arith, digit_bounds c h.0, leading_digits-All (c ∷ s) h)

-- A numeral within `int` is read as its value, and a larger one is refused.
pub stoi_numeral : (ds : Bytes) → IsNumeral ds → value ds ≤ int_max → stoi ds ≡ ok (pos (value ds))
unfolding stoi
stoi_numeral [] h k = absurd (h.nonempty refl)
stoi_numeral (c ∷ s) h k =
    rw (skip_spaces-digit c s h.digits.0, signed-digits c s h.digits)
      (unfold positive in ground arith)

-- A numeral holds no space.
pub digits-Without : (ds : Bytes) → All (λ c. is_digit c ≡ true) ds → All (λ c. c ≢ b' ') ds
digits-Without [] h = tt
digits-Without (c ∷ ds) h = (omega (arith, digit_bounds c h.0), digits-Without ds h.1)

-- A numeral beyond `int` is refused.
pub stoi_too_large :
    (ds : Bytes) → IsNumeral ds → int_max < value ds → stoi ds ≡ throws out_of_range
unfolding stoi
stoi_too_large [] h k = absurd (h.nonempty refl)
stoi_too_large (c ∷ s) h k =
    rw (skip_spaces-digit c s h.digits.0, signed-digits c s h.digits)
      (unfold positive in ground arith)

-- A minus sign before a numeral other than 0.
pub stoi_negative :
    (ds : Bytes)
    → IsNumeral ds
    → 0 < value ds
    → value ds ≤ int_max + 1
    → stoi (b'-' ∷ ds) ≡ ok (negsuc (value ds - 1))
unfolding stoi
stoi_negative [] h k l = absurd (h.nonempty refl)
stoi_negative (c ∷ s) h k l =
    rw (leading_digits-All (c ∷ s) h.digits) (unfold negative in ground arith)

-- The first byte can begin no number, nor a space before one.
abbrev pub IsJunk : ℕ → Type 0
IsJunk c = (is_digit c ≡ false) × (is_space c ≡ false) × (c ≢ b'-') × (c ≢ b'+')

pub stoi_junk : (c : ℕ) (s : Bytes) → IsJunk c → stoi (c ∷ s) ≡ throws invalid_argument
unfolding stoi
stoi_junk c s h = ground arith

-- A letter begins no number.
pub letter-IsJunk : (c : ℕ) → 57 < c → IsJunk c
unfolding is_digit is_space
letter-IsJunk c h = ground arith
