-- ===== src/Httrack/Forms/Text.antt =====
-- The text that the builders produce: fields joined by `&`.
use benchamel.Base.{
  ◌+◌, ◌<◌, ◌^◌, [], ◌∷◌, ◌++◌, arith, List, Bytes, codes, length, lt→ltb, length-append,
}
use benchamel.Base.Outcome.{Outcome, ◌>>=◌}
use benchamel.Httrack.Buffer.{Allocator, Buf, null_buf, append_cstr}
use benchamel.Httrack.Buffer.Laws.{IsBuf, IsGenerous, Appended}
use benchamel.Httrack.Buffer.Chain.{
  null_buf-IsBuf, Appended-nil, Appended-bind, append_cstr-Appended,
}
use benchamel.Httrack.Url.{append_urlencoded}
use benchamel.Httrack.Url.Encode.{url_text, append_urlencoded-Appended}
use benchamel.Httrack.Forms.{Pair, append_form_pair, append_form_pairs}

unfoldable pub field : Pair → Bytes
field (name, value) = url_text name ++ (b'=' ∷ url_text value)

-- Every field behind an `&`.
unfoldable pub more_fields : List Pair → Bytes
more_fields [] = []
more_fields (p ∷ ps) = b'&' ∷ (field p ++ more_fields ps)

unfoldable pub form_text : List Pair → Bytes
form_text [] = []
form_text (p ∷ ps) = field p ++ more_fields ps

module _ (a : Allocator) (g : IsGenerous a) where
  -- the part of `append_form_pair` behind the separator
  append_field : Buf → Bytes → Bytes → Outcome Buf
  append_field b name value = do
    c ← append_urlencoded a b name
    d ← append_cstr a c (codes "=")
    append_urlencoded a d value

  append_field-Appended :
      (b : Buf) (p : Pair)
      → IsBuf b
      → b.len + length (field p) < 2 ^ 63
      → Appended b (field p) (append_field b p.0 p.1)
  unfolding append_field field
  append_field-Appended b (name, value) v h =
      let sizes = length-append (url_text name) (b'=' ∷ url_text value) in
      Appended-bind b (url_text name) (b'=' ∷ url_text value) _ _
        (append_urlencoded-Appended a g b name v (omega (arith, sizes)))
        (λ c w e.
          Appended-bind c (codes "=") (url_text value) _ _
            (append_cstr-Appended a c (codes "=") g w (omega (arith, sizes)))
            (λ d x f. append_urlencoded-Appended a g d value x (omega (arith, sizes))))

  first_pair-Appended :
      (p : Pair)
      → length (field p) < 2 ^ 63
      → Appended null_buf (field p) (append_form_pair a null_buf p.0 p.1)
  unfolding append_form_pair append_field
  first_pair-Appended p h = append_field-Appended null_buf p null_buf-IsBuf (omega arith)

  next_pair-Appended :
      (b : Buf) (p : Pair)
      → IsBuf b
      → 0 < b.len
      → b.len + length (b'&' ∷ field p) < 2 ^ 63
      → Appended b (b'&' ∷ field p) (append_form_pair a b p.0 p.1)
  unfolding append_form_pair append_field
  next_pair-Appended b p v z h = rw (lt→ltb 0 b.len z) (
      Appended-bind b (codes "&") (field p) _ _
        (append_cstr-Appended a b (codes "&") g v (omega arith))
        (λ c w e. append_field-Appended c p w (omega arith)))

  more_pairs-Appended :
      (b : Buf) (ps : List Pair)
      → IsBuf b
      → 0 < b.len
      → b.len + length (more_fields ps) < 2 ^ 63
      → Appended b (more_fields ps) (append_form_pairs a b ps)
  unfolding append_form_pairs more_fields
  more_pairs-Appended b [] v z h = Appended-nil b v
  more_pairs-Appended b (p ∷ ps) v z h =
      let sizes = length-append (field p) (more_fields ps) in
      Appended-bind b (b'&' ∷ field p) (more_fields ps) _ _
        (next_pair-Appended b p v z (omega (arith, sizes)))
        (λ c w e. more_pairs-Appended c ps w (omega arith) (omega (arith, sizes)))

  field-pos : (p : Pair) → 0 < length (field p)
  unfolding field
  field-pos (name, value) = omega (arith, length-append (url_text name) (b'=' ∷ url_text value))

  -- A row of pairs on an empty body builds the fields joined by `&`.
  pub append_form_pairs-Appended :
      (ps : List Pair)
      → length (form_text ps) < 2 ^ 63
      → Appended null_buf (form_text ps) (append_form_pairs a null_buf ps)
  unfolding append_form_pairs form_text
  append_form_pairs-Appended [] h = Appended-nil null_buf null_buf-IsBuf
  append_form_pairs-Appended (p ∷ ps) h =
      let sizes = length-append (field p) (more_fields ps) in
      Appended-bind null_buf (field p) (more_fields ps) _ _
        (first_pair-Appended p (omega (arith, sizes)))
        (λ c w e. more_pairs-Appended c ps w (omega (arith, field-pos p)) (omega (arith, sizes)))
