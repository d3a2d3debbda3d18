-- ===== src/Httrack/Url.antt =====
-- concurrency-bugs/httrack-3.43.9/httrack-client.c: percent encoding of form text.
pub mod Encode
pub mod Decode
use benchamel.Base.{
  ℕ, ◌/◌, ◌%◌, Bool, ◌&&◌, ◌||◌, [], ◌∷◌, Bytes, codes, get_or, leb, ◌==◌, if◌then◌else◌,
}
use benchamel.Base.Outcome.{Outcome, returns, ◌>>=◌}
use benchamel.Httrack.Buffer.{Allocator, Buf, append_bytes, append_cstr}

-- `isalnum` in the C locale
unfoldable pub is_alnum : ℕ → Bool
is_alnum c = leb b'0' c && leb c b'9' || leb b'A' c && leb c b'Z' || leb b'a' c && leb c b'z'

-- the bytes that are copied as they are
unfoldable pub is_unreserved : ℕ → Bool
unfolding is_alnum
is_unreserved c = is_alnum c || c == b'-' || c == b'_' || c == b'.' || c == b'~'

-- `k_hex[n]`
unfoldable pub k_hex : ℕ → ℕ
k_hex n = get_or (codes "0123456789ABCDEF") n 0

-- `*ptr >> 4 & 0x0F` and `*ptr & 0x0F`, as digits
abbrev pub escaped : ℕ → Bytes
escaped c = k_hex (c / 16 % 16) ∷ k_hex (c % 16) ∷ []

-- one round of the loop in `append_urlencoded`
pub append_urlbyte : Allocator → Buf → ℕ → Outcome Buf
append_urlbyte a b c =
    if is_unreserved c
    then append_bytes a b (c ∷ [])
    else if c == b' '
    then append_cstr a b (codes "+")
    else (do b' ← append_cstr a b (codes "%"); append_bytes a b' (escaped c))

pub append_urlencoded : Allocator → Buf → Bytes → Outcome Buf
append_urlencoded a b [] = returns b
append_urlencoded a b (c ∷ text) = do b' ← append_urlbyte a b c; append_urlencoded a b' text
