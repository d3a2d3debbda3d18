-- ===== src/Httrack/Buffer/Chain.antt =====
-- A row of appends builds one text.
use benchamel.Base.{
  ◌+◌, ◌<◌, ◌^◌, ◌≡◌, refl, sym, ◌∙◌, ap, [], ◌++◌, arith, Bytes, length, append_assoc, append-nil,
  length-append,
}
use benchamel.Base.Outcome.{Outcome, returns, ◌>>=◌}
use benchamel.Httrack.Buffer.{Allocator, Buf, null_buf, append_cstr}
use benchamel.Httrack.Buffer.Laws.{contents, IsBuf, IsGenerous, Appended, append_bytes-Appended}
use mathlib.Core.Logic.{inl}

pub null_buf-IsBuf : IsBuf null_buf
null_buf-IsBuf = record { block = refl; small = omega arith; room = inl (refl, refl) }

pub Appended-nil : (b : Buf) → IsBuf b → Appended b [] (returns b)
Appended-nil b v = record {
  out = b;
  returned = refl;
  valid = v;
  text = sym (append-nil (contents b));
  longer = omega arith;
}

pub append_cstr-Appended :
    (a : Allocator) (b : Buf) (src : Bytes)
    → IsGenerous a
    → IsBuf b
    → b.len + length src < 2 ^ 63
    → Appended b src (append_cstr a b src)
unfolding append_cstr
append_cstr-Appended a b src g v h = append_bytes-Appended a b src g v h

-- The second append starts from the buffer that the first returns.
pub Appended-bind :
    (b : Buf) (r s : Bytes) (m : Outcome Buf) (k : Buf → Outcome Buf)
    → Appended b r m
    → ((c : Buf) → IsBuf c → c.len ≡ b.len + length r → Appended c s (k c))
    → Appended b (r ++ s) (m >>= k)
Appended-bind b r s m k p q =
    let n = q p.out p.valid p.longer in
    record {
      out = n.out;
      returned = rw p.returned n.returned;
      valid = n.valid;
      text = n.text ∙ (ap (λ t. t ++ s) p.text ∙ append_assoc (contents b) r s);
      longer = omega (arith, n.longer, p.longer, length-append r s);
    }
