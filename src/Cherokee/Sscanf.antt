-- ===== src/Cherokee/Sscanf.antt =====
-- The conversions of `sscanf` that concurrency-bugs/cherokee-0.9.2/cherokee-client.c uses.
use benchamel.Base.{
  ℕ, zero, suc, ◌-◌, Bool, true, false, ◌&&◌, ◌||◌, Option, none, some, [], ◌∷◌, Bytes, leb, ◌==◌,
  if◌then◌else◌,
}
use benchamel.Libc.{is_digit}
use benchamel.Libc.Decimal.{read_decimal}
use benchamel.Httrack.Http.{scan_blank}

pub record Number : Type 0 where
  pub minus : Bool
  pub size : ℕ

unfoldable pub digits_within : ℕ → Bytes → Bytes × Bytes
digits_within zero s = ([], s)
digits_within (suc n) [] = ([], [])
digits_within (suc n) (c ∷ cs) =
    let (ds, rest) = digits_within n cs in if is_digit c then (c ∷ ds, rest) else ([], c ∷ cs)

abbrev pub int_of : Bool → Bytes × Bytes → Option (Number × Bytes)
int_of minus ([], rest) = none
int_of minus (d ∷ ds, rest) = some (record { minus = minus; size = read_decimal 0 (d ∷ ds) }, rest)

-- A sign counts towards the width.
unfoldable pub signed_within : ℕ → Bytes → Option (Number × Bytes)
signed_within width [] = none
signed_within width (c ∷ cs) =
    if c == b'-'
    then int_of true (digits_within (width - 1) cs)
    else (if c == b'+'
        then int_of false (digits_within (width - 1) cs)
        else int_of false (digits_within width (c ∷ cs)))

-- `%Nd`: white space is skipped first.
unfoldable pub scan_int : ℕ → Bytes → Option (Number × Bytes)
scan_int width s = signed_within width (scan_blank s)

-- a character of the format that must be there
unfoldable pub scan_char : ℕ → Bytes → Option Bytes
scan_char x [] = none
scan_char x (c ∷ cs) = if c == x then some cs else none

-- `%c`
abbrev pub scan_any : Bytes → Option (ℕ × Bytes)
scan_any [] = none
scan_any (c ∷ cs) = some (c, cs)

abbrev pub is_letter : ℕ → Bool
is_letter c = leb b'A' c && leb c b'Z' || leb b'a' c && leb c b'z'

unfoldable pub letters_within : ℕ → Bytes → Bytes × Bytes
letters_within zero s = ([], s)
letters_within (suc n) [] = ([], [])
letters_within (suc n) (c ∷ cs) =
    let (ls, rest) = letters_within n cs in if is_letter c then (c ∷ ls, rest) else ([], c ∷ cs)

abbrev pub some_letters : Bytes × Bytes → Option (Bytes × Bytes)
some_letters ([], rest) = none
some_letters (c ∷ cs, rest) = some (c ∷ cs, rest)

-- `%N[A-Za-z]`
unfoldable pub scan_letters : ℕ → Bytes → Option (Bytes × Bytes)
scan_letters n s = some_letters (letters_within n s)
