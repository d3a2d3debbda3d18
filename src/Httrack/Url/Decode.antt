-- ===== src/Httrack/Url/Decode.antt =====
-- A reader for percent encoding, as the server's side of a form would have it, independent of the
-- encoder: `+` is a space, `%` is followed by two hexadecimal digits.
use benchamel.Base.{
  ℕ, ◌+◌, ◌-◌, ◌*◌, ◌/◌, ◌%◌, ◌<◌, ◌≡◌, refl, Bool, true, false, inl, inr, ap, Bool-cases, ◌&&◌,
  Option, none, some, [], ◌∷◌, ◌++◌, arith, Bytes, length, ◌^◌, All, leb, ◌==◌, ==_iff,
  if◌then◌else◌, ◌>>=◌, all_below, all_below_sound,
}
use benchamel.Base.Outcome.{returns}
use benchamel.Httrack.Buffer.{Allocator, Buf}
use benchamel.Httrack.Buffer.Laws.{contents, IsBuf, IsGenerous}
use benchamel.Httrack.Url.{is_unreserved, k_hex, escaped, append_urlencoded}
use benchamel.Httrack.Url.Encode.{url_byte, url_text, append_urlencoded-Appended}

hex_value : ℕ → Option ℕ
hex_value c =
    if leb b'0' c && leb c b'9'
    then some (c - b'0')
    else if leb b'A' c && leb c b'F'
    then some (c - b'A' + 10)
    else if leb b'a' c && leb c b'f'
    then some (c - b'a' + 10)
    else none

pub data Mode : Type 0 where
  plain : Mode
  high : Mode
  low : ℕ → Mode

-- One byte of input: the mode after it, and the bytes that it completes.
read_byte : Mode → ℕ → Option (Mode × Bytes)
unfolding hex_value
read_byte plain c =
    if c == b'%' then some (high, []) else some (plain, (if c == b'+' then b' ' else c) ∷ [])
read_byte high c = do h ← hex_value c; some (low h, [])
read_byte (low h) c = do l ← hex_value c; some (plain, (h * 16 + l) ∷ [])

read_from : Mode → Bytes → Option Bytes
unfolding read_byte
read_from plain [] = some []
read_from high [] = none
read_from (low h) [] = none
read_from m (c ∷ cs) = do (m', out) ← read_byte m c; rest ← read_from m' cs; some (out ++ rest)

unfoldable pub url_decode : Bytes → Option Bytes
unfolding read_from
url_decode s = read_from plain s

is_value : Option ℕ → ℕ → Bool
is_value none n = false
is_value (some m) n = m == n

is_value_sound : (o : Option ℕ) (n : ℕ) → is_value o n ≡ true → o ≡ some n
unfolding is_value
is_value_sound none n h = cc
is_value_sound (some m) n h = ap some ((==_iff m n).0 h)

digits : ℕ → Bool
digits n = is_value (hex_value (k_hex n)) n

digits_table : all_below 16 digits ≡ true
unfolding digits is_value hex_value k_hex
digits_table = refl

hex_value-k_hex : (n : ℕ) → n < 16 → hex_value (k_hex n) ≡ some n
unfolding digits
hex_value-k_hex n h = is_value_sound _ n (all_below_sound 16 digits n digits_table h)

read_from-escaped :
    (c : ℕ) (rest out : Bytes)
    → c < 256
    → read_from plain rest ≡ some out
    → read_from plain (b'%' ∷ (escaped c ++ rest)) ≡ some (c ∷ out)
unfolding read_from
read_from-escaped c rest out h e =
    rw (hex_value-k_hex (c / 16 % 16) (omega arith), hex_value-k_hex (c % 16) (omega arith), e)
      (ap (λ d. some (d ∷ out)) (omega arith))

read_from-url_byte :
    (c : ℕ) (rest out : Bytes)
    → c < 256
    → read_from plain rest ≡ some out
    → read_from plain (url_byte c ++ rest) ≡ some (c ∷ out)
unfolding url_byte
read_from-url_byte c rest out h e = elim (Bool-cases (is_unreserved c)) [
  | inl keep ↦ rw keep (unfold read_from is_unreserved in ground arith)
  | inr other ↦ rw other (elim (Bool-cases (c == b' ')) [
    | inl space ↦ rw space (unfold read_from in ground arith)
    | inr odd ↦ rw odd (read_from-escaped c rest out h e)
  ])
]

-- Decoding undoes encoding.
pub url_decode-url_text : (s : Bytes) → All (λ c. c < 256) s → url_decode (url_text s) ≡ some s
unfolding url_decode url_text
url_decode-url_text [] h = refl
url_decode-url_text (c ∷ s) (h, hs) =
    read_from-url_byte c (url_text s) s h (url_decode-url_text s hs)

-- What `append_urlencoded` puts behind the text of a buffer decodes to the text that it was given,
-- whatever bytes that holds, if the allocator never refuses and the result is below 2^63 bytes.
pub append_urlencoded-Decodes :
    (a : Allocator) (b : Buf) (text : Bytes)
    → IsGenerous a
    → IsBuf b
    → All (λ c. c < 256) text
    → b.len + length (url_text text) < 2 ^ 63
    → (out : Buf) × (code : Bytes) × (append_urlencoded a b text ≡ returns out)
      × (contents out ≡ contents b ++ code)
      × (url_decode code ≡ some text)
append_urlencoded-Decodes a b text g v t h =
    let r = append_urlencoded-Appended a g b text v h in
    (r.out, url_text text, r.returned, r.text, url_decode-url_text text t)
