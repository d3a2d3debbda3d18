-- ===== src/BufRing.antt =====
-- buf_ring/buf_ring.h and buf_ring/buf_ring.c: the ring buffer, with the switches BUGFIX1 and
-- BUGFIX2. `uint32_t` arithmetic is modulo 2^32. The cells are a function of the index; those below
-- the size exist. A pointer is a number, and no pointer that is put in is NULL, which is `none`
-- where it is returned.
pub mod Index
pub mod Threads
pub mod Invariant
pub mod Others
pub mod Guards
pub mod Moves
pub mod Safety
pub mod Queue
pub mod History
pub mod Refusals
pub mod Progress
pub mod Schedule
pub mod Bugs
pub mod Twice
pub mod Driver
mod Tests
use Prim.Native.Nat.{bit_and}
use benchamel.Base.{
  ℕ, ◌+◌, ◌-◌, ◌%◌, ◌^◌, Bool, true, false, ◌&&◌, Option, none, some, ◌==◌, if◌then◌else◌,
}

pub record Fixes : Type 0 where
  pub bugfix1 : Bool
  pub bugfix2 : Bool

-- `br_prod_size` and `br_cons_size` are one number, and so are the two masks.
pub record Ring : Type 0 where
  pub prod_head : ℕ
  pub prod_tail : ℕ
  pub cons_head : ℕ
  pub cons_tail : ℕ
  pub size : ℕ
  pub mask : ℕ
  pub ring : ℕ → ℕ

-- What `malloc` leaves in the cells is a parameter; `none` is a refused request. KASSERT never
-- fails, since powerof2 is 1 in utils.h. The count is not 0.
unfoldable pub buf_ring_alloc : ℕ → Option (ℕ → ℕ) → Option Ring
buf_ring_alloc count none = none
buf_ring_alloc count (some cells) = some (record {
  prod_head = 0;
  prod_tail = 0;
  cons_head = 0;
  cons_tail = 0;
  size = count;
  mask = count - 1;
  ring = cells;
})

-- `prod_next` and `cons_next`
unfoldable pub next_of : Fixes → Ring → ℕ → ℕ
next_of f m head = if f.bugfix1 then (head + 1) % 2 ^ 32 else bit_and ((head + 1) % 2 ^ 32) m.mask

-- the test before ENOBUFS
unfoldable pub is_full : Fixes → Ring → ℕ → ℕ → Bool
is_full f m head cons_tail =
    if f.bugfix1 && f.bugfix2
    then (head + 2 ^ 32 - cons_tail) % 2 ^ 32 == m.size
    else next_of f m head == cons_tail

-- the index into `br_ring`
unfoldable pub slot_of : Fixes → Ring → ℕ → ℕ
slot_of f m head = if f.bugfix1 then bit_and head m.mask else head
