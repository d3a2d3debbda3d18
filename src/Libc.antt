-- ===== src/Libc.antt =====
-- The functions of the C library that the clients call on text, in the C locale. A C string is the
-- list of its bytes before the NUL; a pointer into a string is the part of the list from there on.
pub mod Search
pub mod Decimal
use benchamel.Base.{
  ℕ, zero, suc, Bool, true, false, ◌&&◌, ◌||◌, Option, none, some, List, [], ◌∷◌, Bytes, leb, ◌==◌,
  if◌then◌else◌,
}

unfoldable pub is_space : ℕ → Bool
is_space c = leb 9 c && leb c 13 || c == b' '

unfoldable pub is_digit : ℕ → Bool
is_digit c = leb b'0' c && leb c b'9'

-- Does the text begin with these bytes?
unfoldable pub is_prefix : Bytes → Bytes → Bool
is_prefix [] s = true
is_prefix (n ∷ ns) [] = false
is_prefix (n ∷ ns) (c ∷ cs) = n == c && is_prefix ns cs

unfoldable pub strstr : Bytes → Bytes → Option Bytes
strstr [] needle = if is_prefix needle [] then some [] else none
strstr (c ∷ cs) needle =
    let later = strstr cs needle in if is_prefix needle (c ∷ cs) then some (c ∷ cs) else later

unfoldable pub strchr : Bytes → ℕ → Option Bytes
strchr [] x = none
strchr (c ∷ cs) x = let later = strchr cs x in if c == x then some (c ∷ cs) else later

-- `strncmp(s, t, n) == 0`
unfoldable pub strncmp_eq : Bytes → Bytes → ℕ → Bool
strncmp_eq s t zero = true
strncmp_eq [] [] (suc n) = true
strncmp_eq [] (c ∷ t) (suc n) = false
strncmp_eq (c ∷ s) [] (suc n) = false
strncmp_eq (c ∷ s) (d ∷ t) (suc n) = c == d && strncmp_eq s t n

-- The C string that stands in raw memory: the bytes before the first NUL.
unfoldable pub c_str : Bytes → Bytes
c_str [] = []
c_str (c ∷ cs) = if c == 0 then [] else c ∷ c_str cs

-- `strcmp(s, t) == 0`
unfoldable pub strcmp_eq : Bytes → Bytes → Bool
strcmp_eq [] [] = true
strcmp_eq [] (d ∷ t) = false
strcmp_eq (c ∷ s) [] = false
strcmp_eq (c ∷ s) (d ∷ t) = c == d && strcmp_eq s t
