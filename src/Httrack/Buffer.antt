-- ===== src/Httrack/Buffer.antt =====
-- concurrency-bugs/httrack-3.43.9/httrack-client.c: the growable byte buffer.
-- A C string is the list of its bytes before the NUL, so `strlen` is `length`. A buffer's block is
-- the list of all its bytes. The allocator is a parameter: which requests it grants, and what the
-- bytes that it adds to a block are.
pub mod Laws
pub mod Chain
use benchamel.Base.{
  ℕ, zero, suc, ◌+◌, ◌-◌, ◌*◌, ◌%◌, ◌^◌, Bool, true, false, List, [], ◌∷◌, ◌++◌, Bytes, length, set,
  take, drop, ltb, ◌==◌, if◌then◌else◌,
}
use benchamel.Base.Outcome.{Outcome, returns, aborts, unfinished, ◌>>=◌}

pub record Allocator : Type 0 where
  pub grants : ℕ → Bool
  pub junk : ℕ → ℕ

-- `*buf`, `*len` and `*cap`; the null pointer is the empty block.
pub record Buf : Type 0 where
  pub mem : Bytes
  pub len : ℕ
  pub cap : ℕ

abbrev pub null_buf : Buf
null_buf = record { mem = []; len = 0; cap = 0 }

-- arithmetic of `size_t`
abbrev pub size_t : ℕ → ℕ
size_t n = n % 2 ^ 64

-- `n` bytes of a block from `i` on that nobody has written
pub fresh_bytes : (ℕ → ℕ) → ℕ → ℕ → Bytes
fresh_bytes junk i zero = []
fresh_bytes junk i (suc n) = junk i ∷ fresh_bytes junk (i + 1) n

pub xrealloc : Allocator → Bytes → ℕ → Outcome Bytes
xrealloc a mem size =
    if a.grants size
    then returns (take size mem ++ fresh_bytes a.junk (length mem) (size - length mem))
    else aborts

unfoldable pub xstrdup : Allocator → Bytes → Outcome Bytes
xstrdup a str = if a.grants (size_t (length str + 1)) then returns str else aborts

-- `while (need > new_cap) new_cap *= 2;`
pub grow : ℕ → ℕ → ℕ → Outcome ℕ
grow zero need new_cap = unfinished
grow (suc fuel) need new_cap = elim (ltb new_cap need) [
  | true ↦ grow fuel need (size_t (new_cap * 2))
  | false ↦ returns new_cap
]

-- 65 rounds suffice: the capacity is at least 1 and doubles.
abbrev pub grow_fuel : ℕ
grow_fuel = 65

-- `memcpy(mem + at, src, n)`
pub memcpy : Bytes → ℕ → Bytes → Bytes
memcpy mem at src = take at mem ++ (src ++ drop (at + length src) mem)

-- the end of `append_bytes`, once the block is large enough
pub store : Buf → Bytes → ℕ → Bytes → Buf
store b mem cap src =
    let len' = size_t (b.len + length src) in
    record { mem = set (memcpy mem b.len src) len' 0; len = len'; cap = cap }

pub append_bytes : Allocator → Buf → Bytes → Outcome Buf
append_bytes a b src =
    let need = size_t (b.len + length src + 1) in
    if ltb b.cap need
    then (do
      new_cap ← grow grow_fuel need (if b.cap == 0 then 256 else b.cap)
      mem ← xrealloc a b.mem new_cap
      returns (store b mem new_cap src))
    else returns (store b b.mem b.cap src)

pub append_cstr : Allocator → Buf → Bytes → Outcome Buf
append_cstr a b text = append_bytes a b text
