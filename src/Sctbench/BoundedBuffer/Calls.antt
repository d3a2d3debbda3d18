-- ===== src/Sctbench/BoundedBuffer/Calls.antt =====
-- sctbench/inspect_examples/boundedBuffer.c: each part of a call on a buffer that holds known items.
use benchamel.Base.{
  ◌∙◌, ℕ, ◌+◌, ◌*◌, ◌/◌, ◌%◌, ◌<◌, ◌≡◌, refl, sym, arith, true, false, not, ◌&&◌, List, [], length,
  get_or, length-replicate, ltb, ◌==◌, if◌then◌else◌, inl, inr, Bool-cases,
}
use mathlib.Core.Path.{subst}
use native.Mathlib.Nat.{mod-eq_of_lt}
use benchamel.Sctbench.BoundedBuffer.{
  cells_max, word, bounded_buf_valid, BoundedBuf, InitCalls, Statuses, bounded_buf_init, allocate,
  full, empty_ring, increment, decrement, refused, waits, returned, put_finish, bounded_buf_put,
  put_woken, get_finish, bounded_buf_get, get_woken,
}
use benchamel.Sctbench.BoundedBuffer.Ring.{
  Holds, empty-true, empty-false, full-true, full-false, stored, taken,
}

-- The counts of the waiting threads are no part of the queue.
pub counted-Holds :
    (b : BoundedBuf) (l : List ℕ) (p c : ℕ)
    → Holds b l
    → Holds (record b { p_wait = p; c_wait = c }) l
counted-Holds b l p c v = record {
  is_valid = v.is_valid;
  size = v.size;
  block = v.block;
  head = v.head;
  rear = v.rear;
  room = v.room;
  cells = v.cells;
}

pub full_lem : (b : BoundedBuf) (l : List ℕ) → Holds b l → full b ≡ (length l + 1 == b.max_size)
full_lem b l v = elim (Bool-cases (full b)) [
  | inl e ↦ let all = full-true b l v e in ground (arith, e, all)
  | inr e ↦ let less = full-false b l v e in ground (arith, e, less)
]

pub empty_lem : (b : BoundedBuf) (l : List ℕ) → Holds b l → empty_ring b ≡ (length l == 0)
empty_lem b l v = elim (Bool-cases (empty_ring b)) [
  | inl e ↦ let all = empty-true b l v e in ground (arith, e, all)
  | inr e ↦ let less = empty-false b l v e in ground (arith, e, less)
]

module _ (c : Statuses) (b : BoundedBuf) (l : List ℕ) (v : Holds b l) where
  pub put_lem :
      (item : ℕ)
      → bounded_buf_put c b item ≡ (
          if not (c.lock == 0)
          then refused c.lock
          else if length l + 1 == b.max_size
          then waits (record b { p_wait = increment b.p_wait })
          else returned (stored b item) item (ltb 0 b.c_wait) c.unlock)
  unfolding bounded_buf_put put_finish
  put_lem item = ground (arith, v.is_valid, full_lem b l v)

  pub put_woken_lem :
      (item status : ℕ)
      → put_woken c b item status ≡ (
          if (status == 0) && (length l + 1 == b.max_size)
          then waits b
          else if status == 0
          then returned
              (stored (record b { p_wait = decrement b.p_wait }) item)
              item
              (ltb 0 b.c_wait)
              c.unlock
          else returned (record b { p_wait = decrement b.p_wait }) item false status)
  unfolding put_woken put_finish
  put_woken_lem item status = ground (arith, full_lem b l v)

  pub get_lem : bounded_buf_get c b ≡ (
      if not (c.lock == 0)
      then refused c.lock
      else if length l == 0
      then waits (record b { c_wait = increment b.c_wait })
      else returned
          (taken b)
          (get_or b.buf b.head 0)
          (ltb 0 b.p_wait)
          (if ltb 0 b.p_wait && not (c.signal == 0) then c.signal else c.unlock))
  unfolding bounded_buf_get get_finish
  get_lem = ground (arith, v.is_valid, empty_lem b l v)

  pub get_woken_lem :
      (status : ℕ)
      → get_woken c b status ≡ (
          if (status == 0) && (length l == 0)
          then waits b
          else if status == 0
          then returned
              (taken (record b { c_wait = decrement b.c_wait }))
              (get_or b.buf b.head 0)
              (ltb 0 b.p_wait)
              (if ltb 0 b.p_wait && not (c.signal == 0) then c.signal else c.unlock)
          else returned (record b { c_wait = decrement b.c_wait }) 0 false status)
  unfolding get_woken get_finish
  get_woken_lem status = ground (arith, empty_lem b l v)

-- What `bounded_buf_init` makes of a buffer, whatever it was.
pub init-Holds :
    (raw : BoundedBuf) (sz : ℕ) (c : InitCalls)
    → 0 < sz
    → sz < cells_max
    → c.mutex_status ≡ 0
    → c.full_status ≡ 0
    → c.empty_status ≡ 0
    → c.allocates ≡ true
    → Holds (bounded_buf_init c raw sz).bbuf []
unfolding bounded_buf_init allocate
init-Holds raw sz c pos fits m f e a =
    let done : bounded_buf_init c raw sz
        ≡ allocate (record raw { valid = bounded_buf_valid }) sz true =
      ground (arith, m, f, e, a) in
    subst (λ p. Holds p.bbuf []) (sym done)
      (record {
        is_valid = refl;
        size = omega (arith, fits);
        block = length-replicate (sz * 8 % word / 8) 0 ∙ omega (arith, fits);
        head = pos;
        rear = sym (mod-eq_of_lt {n = 0} {m = sz} pos);
        room = pos;
        cells = λ k lt. absurd (omega (arith, lt));
      })
