-- ===== src/Httrack/Url/Encode.antt =====
-- `append_urlencoded` appends the percent encoding of its text.
use benchamel.Base.{
  ℕ, ◌+◌, ◌<◌, ◌^◌, [], ◌∷◌, ◌++◌, inl, inr, arith, Bytes, codes, length, ◌==◌, if◌then◌else◌,
  Bool-cases, length-append,
}
use benchamel.Httrack.Buffer.{Allocator, Buf}
use benchamel.Httrack.Buffer.Laws.{IsBuf, IsGenerous, Appended, append_bytes-Appended}
use benchamel.Httrack.Buffer.Chain.{Appended-nil, Appended-bind, append_cstr-Appended}
use benchamel.Httrack.Url.{is_unreserved, escaped, append_urlbyte, append_urlencoded}

-- The encoding of one byte.
unfoldable pub url_byte : ℕ → Bytes
url_byte c = if is_unreserved c then c ∷ [] else if c == b' ' then b'+' ∷ [] else b'%' ∷ escaped c

unfoldable pub url_text : Bytes → Bytes
url_text [] = []
url_text (c ∷ text) = url_byte c ++ url_text text

module _ (a : Allocator) (g : IsGenerous a) where
  append_urlbyte-Appended :
      (b : Buf) (c : ℕ)
      → IsBuf b
      → b.len + length (url_byte c) < 2 ^ 63
      → Appended b (url_byte c) (append_urlbyte a b c)
  unfolding append_urlbyte url_byte
  append_urlbyte-Appended b c v = elim (Bool-cases (is_unreserved c)) [
    | inl keep ↦ rw keep (append_bytes-Appended a b (c ∷ []) g v)
    | inr other ↦ rw other (elim (Bool-cases (c == b' ')) [
      | inl space ↦ rw space (append_cstr-Appended a b (codes "+") g v)
      | inr odd ↦ rw odd λ h.
          Appended-bind b (codes "%") (escaped c) _ _
            (append_cstr-Appended a b (codes "%") g v (omega arith))
            (λ d w e. append_bytes-Appended a d (escaped c) g w (omega arith))
    ])
  ]

  pub append_urlencoded-Appended :
      (b : Buf) (text : Bytes)
      → IsBuf b
      → b.len + length (url_text text) < 2 ^ 63
      → Appended b (url_text text) (append_urlencoded a b text)
  unfolding append_urlencoded url_text
  append_urlencoded-Appended b [] v h = Appended-nil b v
  append_urlencoded-Appended b (c ∷ text) v h =
      let sizes = length-append (url_byte c) (url_text text) in
      Appended-bind b (url_byte c) (url_text text) _ _
        (append_urlbyte-Appended b c v (omega (arith, sizes)))
        (λ d w e. append_urlencoded-Appended d text w (omega (arith, sizes)))
