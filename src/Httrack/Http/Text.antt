-- ===== src/Httrack/Http/Text.antt =====
-- Texts that are built from a row of pieces, and read back as C strings.
use benchamel.Base.{
  ◌+◌, ◌<◌, ◌^◌, ◌≡◌, inl, inr, ◌⊎◌, get_or, [], ◌∷◌, ◌++◌, arith, List, Bytes, All, All-append,
  Lacks, length, length-append,
}
use benchamel.Libc.{c_str}
use benchamel.Libc.Search.{c_str-take}
use benchamel.Httrack.Buffer.{Allocator, Buf}
use benchamel.Httrack.Buffer.Laws.{contents, IsBuf, IsGenerous, Appended}
use benchamel.Httrack.Buffer.Chain.{Appended-nil, Appended-bind, append_cstr-Appended}
use benchamel.Httrack.Http.{append_cstrs}

unfoldable pub joined : List Bytes → Bytes
joined [] = []
joined (p ∷ ps) = p ++ joined ps

pub append_cstrs-Appended :
    (a : Allocator) (b : Buf) (pieces : List Bytes)
    → IsGenerous a
    → IsBuf b
    → b.len + length (joined pieces) < 2 ^ 63
    → Appended b (joined pieces) (append_cstrs a b pieces)
unfolding append_cstrs joined
append_cstrs-Appended a b [] g v h = Appended-nil b v
append_cstrs-Appended a b (p ∷ ps) g v h =
    let sizes = length-append p (joined ps) in
    Appended-bind b p (joined ps) _ _ (append_cstr-Appended a b p g v (omega (arith, sizes)))
      (λ c w e. append_cstrs-Appended a c ps g w (omega (arith, sizes)))

pub joined-Lacks : (pieces : List Bytes) → All (Lacks 0) pieces → Lacks 0 (joined pieces)
unfolding joined
joined-Lacks [] h = tt
joined-Lacks (p ∷ ps) (h, hs) = All-append _ p (joined ps) h (joined-Lacks ps hs)

-- Read as a C string, a buffer that is allocated holds its text up to the first NUL.
pub c_str-mem : (b : Buf) → IsBuf b → 0 < b.cap → c_str b.mem ≡ c_str (contents b)
c_str-mem b v pos = c_str-take b.len b.mem (ended v.room)
  where
    ended :
        ((b.cap ≡ 0) × (b.len ≡ 0)) ⊎ ((b.len < b.cap) × (get_or b.mem b.len 1 ≡ 0))
        → get_or b.mem b.len 1 ≡ 0
    ended (inl e) = absurd (omega arith)
    ended (inr e) = e.1
