-- ===== src/Libc/Decimal.antt =====
-- `%u` and `%zu`: decimal digits.
use benchamel.Base.{
  ℕ, zero, suc, ◌+◌, ◌*◌, ◌-◌, ◌/◌, ◌%◌, ◌^◌, ◌<◌, ◌≡◌, refl, true, false, inl, inr, [], ◌∷◌, ◌++◌,
  arith, Bytes, length, length-append, All, All-append, ltb, Bool-cases, ◌≤◌,
}
use native.Mathlib.Nat.{pow-suc}

-- The digits of `n`, most significant first; `fuel` bounds their number.
unfoldable pub digits_from : ℕ → ℕ → Bytes
digits_from zero n = (b'0' + n % 10) ∷ []
digits_from (suc fuel) n = elim (ltb n 10) [
  | true ↦ (b'0' + n % 10) ∷ []
  | false ↦ digits_from fuel (n / 10) ++ ((b'0' + n % 10) ∷ [])
]

-- The numbers printed here are below 2^64, so twenty digits suffice.
unfoldable pub decimal : ℕ → Bytes
unfolding digits_from
decimal n = digits_from 20 n

-- The number that decimal digits stand for, read from the left.
unfoldable pub read_decimal : ℕ → Bytes → ℕ
read_decimal n [] = n
read_decimal n (c ∷ cs) = read_decimal (n * 10 + (c - b'0')) cs

read_decimal-append :
    (n : ℕ) (s : Bytes) (c : ℕ)
    → read_decimal n (s ++ (c ∷ [])) ≡ read_decimal n s * 10 + (c - b'0')
unfolding read_decimal
read_decimal-append n [] c = refl
read_decimal-append n (d ∷ s) c = read_decimal-append (n * 10 + (d - b'0')) s c

digits_small : (fuel n : ℕ) → ltb n 10 ≡ true → digits_from (suc fuel) n ≡ (b'0' + n % 10) ∷ []
unfolding digits_from
digits_small fuel n h = ground (arith, h)

digits_large :
    (fuel n : ℕ)
    → ltb n 10 ≡ false
    → digits_from (suc fuel) n ≡ digits_from fuel (n / 10) ++ ((b'0' + n % 10) ∷ [])
unfolding digits_from
digits_large fuel n h = ground (arith, h)

read_decimal-digits_from :
    (fuel n : ℕ) → n < 10 * 10 ^ fuel → read_decimal 0 (digits_from fuel n) ≡ n
read_decimal-digits_from zero n h = unfold digits_from read_decimal in omega arith
read_decimal-digits_from (suc fuel) n h = elim (Bool-cases (ltb n 10)) [
  | inl small ↦ rw (digits_small fuel n small) (unfold read_decimal in ground arith)
  | inr large ↦
      rw (digits_large fuel n large, read_decimal-append)
        (omega (arith, read_decimal-digits_from fuel (n / 10) (omega (arith, pow-suc 10 fuel))))
]

-- Reading the digits of a 64-bit number gives the number back.
pub read_decimal-decimal : (n : ℕ) → n < 2 ^ 64 → read_decimal 0 (decimal n) ≡ n
unfolding decimal
read_decimal-decimal n h = read_decimal-digits_from 20 n (omega arith)

abbrev pub IsDigits : Bytes → Type 0
IsDigits = All (λ c. (b'0' ≤ c) × (c ≤ b'9'))

digits_from-IsDigits : (fuel n : ℕ) → IsDigits (digits_from fuel n)
digits_from-IsDigits zero n = unfold digits_from in omega arith
digits_from-IsDigits (suc fuel) n = elim (Bool-cases (ltb n 10)) [
  | inl small ↦ rw (digits_small fuel n small) (omega arith)
  | inr large ↦ rw (digits_large fuel n large) (
      All-append _ (digits_from fuel (n / 10)) _ (digits_from-IsDigits fuel (n / 10)) (omega arith))
]

pub decimal-IsDigits : (n : ℕ) → IsDigits (decimal n)
unfolding decimal
decimal-IsDigits n = digits_from-IsDigits 20 n

length-digits_from :
    (fuel n : ℕ) → (0 < length (digits_from fuel n)) × (length (digits_from fuel n) < fuel + 2)
length-digits_from zero n = unfold digits_from in omega arith
length-digits_from (suc fuel) n = elim (Bool-cases (ltb n 10)) [
  | inl small ↦ rw (digits_small fuel n small) (omega arith)
  | inr large ↦ rw (digits_large fuel n large) (
      let ih = length-digits_from fuel (n / 10) in
      omega (arith, ih, length-append (digits_from fuel (n / 10)) ((b'0' + n % 10) ∷ [])))
]

-- There are at most 21 digits.
pub length-decimal : (n : ℕ) → (0 < length (decimal n)) × (length (decimal n) < 22)
unfolding decimal
length-decimal n = length-digits_from 20 n
