-- ===== src/Httrack/Forms/Decode.antt =====
-- A reader of `application/x-www-form-urlencoded` bodies, independent of the builders, and what it
-- reads from the bodies that the client posts.
use benchamel.Base.{
  ℕ, ◌/◌, ◌%◌, ◌<◌, ◌≡◌, ◌≢◌, refl, [], ◌∷◌, ◌++◌, Bool, not, ◌&&◌, true, false, arith, Option,
  none, some, List, Bytes, All, All-append, Lacks, all_below, all_below_sound, ◌==◌, if◌then◌else◌,
  ◌>>=◌, append-nil,
}
use benchamel.Httrack.Url.{is_unreserved, k_hex}
use benchamel.Httrack.Url.Encode.{url_byte, url_text}
use benchamel.Httrack.Url.Decode.{url_decode, url_decode-url_text}
use benchamel.Httrack.Forms.{Pair}
use benchamel.Httrack.Forms.Text.{field, more_fields, form_text}

-- A byte put in front of the first part.
onto : ℕ → List Bytes → List Bytes
onto c [] = (c ∷ []) ∷ []
onto c (p ∷ ps) = (c ∷ p) ∷ ps

split_at : ℕ → Bytes → List Bytes
split_at sep [] = [] ∷ []
split_at sep (c ∷ cs) = let rest = split_at sep cs in if c == sep then [] ∷ rest else onto c rest

-- Up to the first separator, and what stands behind it.
cut_at : ℕ → Bytes → Option (Bytes × Bytes)
cut_at sep [] = none
cut_at sep (c ∷ cs) = elim (c == sep) [
  | true ↦ some ([], cs)
  | false ↦ (do (l, r) ← cut_at sep cs; some (c ∷ l, r))
]

decode_field : Bytes → Option Pair
decode_field part = do
  (n, v) ← cut_at b'=' part
  name ← url_decode n
  value ← url_decode v
  some (name, value)

decode_fields : List Bytes → Option (List Pair)
decode_fields [] = some []
decode_fields (p ∷ ps) = do f ← decode_field p; fs ← decode_fields ps; some (f ∷ fs)

unfoldable pub decode_form : Bytes → Option (List Pair)
unfolding split_at onto cut_at decode_field decode_fields
decode_form body = decode_fields (split_at b'&' body)

-- C strings: bytes.
abbrev pub IsText : Bytes → Type 0
IsText = All (λ c. c < 256)

abbrev pub IsTextPair : Pair → Type 0
IsTextPair p = IsText p.0 × IsText p.1

split_at-Lacks :
    (sep : ℕ) (p rest : Bytes)
    → Lacks sep p
    → split_at sep (p ++ (sep ∷ rest)) ≡ p ∷ split_at sep rest
unfolding split_at onto
split_at-Lacks sep [] rest h = ground arith
split_at-Lacks sep (c ∷ p) rest (h, hs) = ground (arith, split_at-Lacks sep p rest hs)

split_at-Lacks_end : (sep : ℕ) (p : Bytes) → Lacks sep p → split_at sep p ≡ p ∷ []
unfolding split_at onto
split_at-Lacks_end sep [] h = refl
split_at-Lacks_end sep (c ∷ p) (h, hs) = ground (arith, split_at-Lacks_end sep p hs)

cut_at-Lacks :
    (sep : ℕ) (p rest : Bytes) → Lacks sep p → cut_at sep (p ++ (sep ∷ rest)) ≡ some (p, rest)
unfolding cut_at
cut_at-Lacks sep [] rest h = ground arith
cut_at-Lacks sep (c ∷ p) rest (h, hs) = ground (arith, cut_at-Lacks sep p rest hs)

-- The digits of an escape are no separators.
is_digit : ℕ → Bool
is_digit n = not (k_hex n == b'&') && not (k_hex n == b'=')

digits_table : all_below 16 is_digit ≡ true
unfolding is_digit k_hex
digits_table = refl

k_hex-ne : (n : ℕ) → n < 16 → (k_hex n ≢ b'&') × (k_hex n ≢ b'=')
unfolding is_digit
k_hex-ne n h = ground (arith, all_below_sound 16 is_digit n digits_table h)

abbrev IsClean : Bytes → Type 0
IsClean = All (λ c. (c ≢ b'&') × (c ≢ b'='))

url_byte-IsClean : (c : ℕ) → IsClean (url_byte c)
unfolding url_byte is_unreserved
url_byte-IsClean c =
    ground (arith, k_hex-ne (c / 16 % 16) (omega arith), k_hex-ne (c % 16) (omega arith))

url_text-IsClean : (s : Bytes) → IsClean (url_text s)
unfolding url_text
url_text-IsClean [] = tt
url_text-IsClean (c ∷ s) =
    All-append _ (url_byte c) (url_text s) (url_byte-IsClean c) (url_text-IsClean s)

IsClean-Lacks : (s : Bytes) → IsClean s → Lacks b'&' s × Lacks b'=' s
IsClean-Lacks [] h = (tt, tt)
IsClean-Lacks (c ∷ s) (h, hs) = let r = IsClean-Lacks s hs in ((h.0, r.0), (h.1, r.1))

field-Lacks : (p : Pair) → Lacks b'&' (field p)
unfolding field
field-Lacks (n, v) =
    All-append _ (url_text n) (b'=' ∷ url_text v) (IsClean-Lacks _ (url_text-IsClean n)).0
      (omega arith, (IsClean-Lacks _ (url_text-IsClean v)).0)

decode_field-field : (p : Pair) → IsTextPair p → decode_field (field p) ≡ some p
unfolding decode_field field
decode_field-field (n, v) (hn, hv) = rw (
  cut_at-Lacks b'=' (url_text n) (url_text v) (IsClean-Lacks _ (url_text-IsClean n)).1,
  url_decode-url_text n hn,
  url_decode-url_text v hv,
)

decode_fields-more :
    (p : Pair) (ps : List Pair)
    → All IsTextPair (p ∷ ps)
    → decode_fields (split_at b'&' (field p ++ more_fields ps)) ≡ some (p ∷ ps)
unfolding decode_fields more_fields
decode_fields-more p [] (h, _) =
    rw (append-nil, split_at-Lacks_end b'&' (field p) (field-Lacks p), decode_field-field p h)
decode_fields-more p (q ∷ ps) (h, hs) = rw (
  split_at-Lacks b'&' (field p) (field q ++ more_fields ps) (field-Lacks p),
  decode_field-field p h,
  decode_fields-more q ps hs,
)

-- A reader of forms gets back exactly the pairs that a non-empty form was built from.
pub decode_form-form_text :
    (p : Pair) (ps : List Pair)
    → All IsTextPair (p ∷ ps)
    → decode_form (form_text (p ∷ ps)) ≡ some (p ∷ ps)
unfolding decode_form form_text
decode_form-form_text p ps h = decode_fields-more p ps h
