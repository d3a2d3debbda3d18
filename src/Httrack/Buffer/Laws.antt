-- ===== src/Httrack/Buffer/Laws.antt =====
-- What `append_bytes` guarantees: the text grows by the new bytes, the block stays large enough.
use benchamel.Base.{
  ℕ, zero, suc, ◌+◌, ◌-◌, ◌*◌, ◌^◌, ◌≤◌, ◌<◌, ◌≡◌, refl, ap, ◌⊎◌, inr, true, ◌++◌, arith, Bytes,
  length, get_or, take, drop, lt→ltb, ◌==◌, ◌∙◌, if◌then◌else◌, append_assoc, length-append,
  length-take, length-drop, length-set, take-set, take-append_len, take-append_le, take-take,
  get_or-set_self,
}
use native.Mathlib.Decide.{dec_lt}
use native.Mathlib.Nat.{pow-suc}
use benchamel.Base.Outcome.{Outcome, returns}
use benchamel.Httrack.Buffer.{
  Allocator, Buf, size_t, fresh_bytes, xrealloc, xstrdup, grow, memcpy, store, append_bytes,
}

-- The text that the buffer holds.
abbrev pub contents : Buf → Bytes
contents b = take b.len b.mem

-- Either nothing is allocated, or the text and its NUL lie inside the block.
pub record IsBuf (b : Buf) : Type 0 where
  pub block : length b.mem ≡ b.cap
  pub small : b.cap < 2 ^ 64
  pub room : ((b.cap ≡ 0) × (b.len ≡ 0)) ⊎ ((b.len < b.cap) × (get_or b.mem b.len 1 ≡ 0))

-- The allocator never refuses.
abbrev pub IsGenerous : Allocator → Type 0
IsGenerous a = (n : ℕ) → a.grants n ≡ true

grow_again : (f need c : ℕ) → c < need → c * 2 < 2 ^ 64 → grow (suc f) need c ≡ grow f need (c * 2)
unfolding grow
grow_again f need c h w = rw (lt→ltb c need h, grow) (ap (grow f need) (omega arith))

grow_stop : (f need c : ℕ) → need ≤ c → grow (suc f) need c ≡ returns c
unfolding grow
grow_stop f need c h = ground arith

abbrev Grown : ℕ → ℕ → Outcome ℕ → Type 0
Grown need c o = (r : ℕ) × (o ≡ returns r) × (need ≤ r) × (c ≤ r) × (r < 2 ^ 64)

pub xstrdup_lem : (a : Allocator) (str : Bytes) → IsGenerous a → xstrdup a str ≡ returns str
unfolding xstrdup
xstrdup_lem a str g = rw (g _)

-- The loop that doubles the capacity ends, without a wrap, at a capacity that is large enough.
pub grow_lem :
    (f need c : ℕ)
    → need ≤ c * 2 ^ f
    → need ≤ 2 ^ 63
    → c < 2 ^ 64
    → Grown need c (grow (suc f) need c)
grow_lem zero need c h s w = (c, grow_stop zero need c (omega arith), omega arith, omega arith, w)
grow_lem (suc f) need c h s w = elim (dec_lt c need) [
  | no big ↦ (c, grow_stop (suc f) need c (omega arith), omega arith, omega arith, w)
  | yes less ↦
      let (r, e, n, l, k) =
        grow_lem f need (c * 2) (omega (arith, ap (λ t. c * t) (pow-suc 2 f))) s (omega arith) in
      (r, grow_again (suc f) need c less (omega arith) ∙ e, n, omega arith, k)
]

length-fresh_bytes : (junk : ℕ → ℕ) (i n : ℕ) → length (fresh_bytes junk i n) ≡ n
unfolding fresh_bytes
length-fresh_bytes junk i zero = refl
length-fresh_bytes junk i (suc n) = ap suc (length-fresh_bytes junk (i + 1) n)

-- `realloc` to a larger block keeps the bytes that were there.
xrealloc_lem :
    (a : Allocator) (mem : Bytes) (n : ℕ)
    → IsGenerous a
    → length mem ≤ n
    → (m : Bytes) × (xrealloc a mem n ≡ returns m)
      × (length m ≡ n)
      × ((k : ℕ) → k ≤ length mem → take k m ≡ take k mem)
unfolding xrealloc
xrealloc_lem a mem n g h = (
  take n mem ++ fresh_bytes a.junk (length mem) (n - length mem),
  rw (g n),
  omega (
    arith,
    length-append (take n mem) (fresh_bytes a.junk (length mem) (n - length mem)),
    length-take n mem,
    length-fresh_bytes a.junk (length mem) (n - length mem),
  ),
  λ k p.
      take-append_le k (take n mem) _ (omega (arith, length-take n mem))
      ∙ take-take k n mem (omega arith),
)

length-memcpy :
    (mem : Bytes) (at : ℕ) (src : Bytes)
    → at + length src ≤ length mem
    → length (memcpy mem at src) ≡ length mem
unfolding memcpy
length-memcpy mem at src h = omega (
  arith,
  length-append (take at mem) (src ++ drop (at + length src) mem),
  length-append src (drop (at + length src) mem),
  length-take at mem,
  length-drop (at + length src) mem,
)

take-memcpy :
    (mem : Bytes) (at : ℕ) (src : Bytes)
    → at ≤ length mem
    → take (at + length src) (memcpy mem at src) ≡ take at mem ++ src
unfolding memcpy
take-memcpy mem at src h = rw (← append_assoc (take at mem) src (drop (at + length src) mem)) (
    take-append_len (at + length src) (take at mem ++ src) _
      (omega (arith, length-append (take at mem) src, length-take at mem)))

-- Copying behind the text and ending it with a NUL extends the text.
module _ (b : Buf) (mem : Bytes) (cap : ℕ) (src : Bytes) where
  store_lem :
      length mem ≡ cap
      → cap < 2 ^ 64
      → b.len + length src < cap
      → take b.len mem ≡ contents b
      → IsBuf (store b mem cap src)
        × (contents (store b mem cap src) ≡ contents b ++ src)
        × ((store b mem cap src).len ≡ b.len + length src)
  unfolding store
  store_lem hm hc hl ht = rw exact (
    record {
      block = length-set copied end 0 ∙ copied_len ∙ hm;
      small = hc;
      room = inr (hl, get_or-set_self copied end 0 1 (omega (arith, copied_len)));
    },
    take-set end copied 0 ∙ (take-memcpy mem b.len src (omega arith) ∙ ap (λ t. t ++ src) ht),
    refl,
  )
    where
      end : ℕ
      end = b.len + length src

      exact : size_t (b.len + length src) ≡ b.len + length src
      exact = omega arith

      copied : Bytes
      copied = memcpy mem b.len src

      copied_len : length copied ≡ length mem
      copied_len = length-memcpy mem b.len src (omega arith)

-- `r` returns a buffer that holds the text of `b` and then `src`.
pub record Appended (b : Buf) (src : Bytes) (r : Outcome Buf) : Type 0 where
  pub out : Buf
  pub returned : r ≡ returns out
  pub valid : IsBuf out
  pub text : contents out ≡ contents b ++ src
  pub longer : out.len ≡ b.len + length src

-- A generous allocator and a text below 2^63 bytes: `append_bytes` returns, the new bytes stand
-- behind the old ones, and the block holds them and their NUL.
pub append_bytes-Appended :
    (a : Allocator) (b : Buf) (src : Bytes)
    → IsGenerous a
    → IsBuf b
    → b.len + length src < 2 ^ 63
    → Appended b src (append_bytes a b src)
unfolding append_bytes
append_bytes-Appended a b src g v h = elim (dec_lt b.cap need) [
  | no fits ↦
      let ok = store_lem b b.mem b.cap src v.block v.small (ground arith) refl in
      record {
        out = store b b.mem b.cap src;
        returned = ground arith;
        valid = ok.0;
        text = ok.1;
        longer = ok.2;
      }
  | yes small ↦
      let (c, e, n, k, w) =
        grow_lem 64 need first (ground arith) (omega arith) (ground (arith, v.small)) in
      let (m, e', l, keep) = xrealloc_lem a b.mem c g (ground arith) in
      let ok = store_lem b m c src l w (omega arith) (keep b.len (ground arith)) in
      record {
        out = store b m c src;
        returned = rw (lt→ltb b.cap need small, e, e');
        valid = ok.0;
        text = ok.1;
        longer = ok.2;
      }
]
  where
    need : ℕ
    need = size_t (b.len + length src + 1)

    first : ℕ
    first = if b.cap == 0 then 256 else b.cap
