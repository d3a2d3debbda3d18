-- ===== src/Sctbench/Bbuf/Calls.antt =====
-- sctbench/inspect_examples/bbuf.c: the calls as those of a bounded queue of items.
use benchamel.Base.{
  ℕ, ◌+◌, ◌<◌, ◌≡◌, ◌∙◌, refl, arith, true, false, List, [], ◌∷◌, length, get_or, ◌==◌,
  if◌then◌else◌, inl, inr, Bool-cases,
}
use benchamel.Sctbench.BoundedBuffer.{
  cells_max, word, bounded_buf_valid, BoundedBuf, allocate, next_index, full, empty_ring, waits,
  returned, Statuses, answered, tested, freed_items,
}
use benchamel.Sctbench.BoundedBuffer.Ring.{
  Holds, stored, taken, stored-Holds, taken-Holds, first-Holds,
}
use benchamel.Sctbench.BoundedBuffer.Calls.{full_lem, empty_lem, init-Holds}
use benchamel.Sctbench.BoundedBuffer.Threads.{all_made}
use benchamel.Sctbench.BoundedBuffer
use benchamel.Sctbench.BoundedBuffer.Refines.{queue_put, queue_get, Represents}
use benchamel.Sctbench.BoundedBuffer.Teardown.{freed_items-eq}
use benchamel.Sctbench.Bbuf.{
  bounded_buf_init, bounded_buf_destroy, put_woken, bounded_buf_put, get_woken, bounded_buf_get,
  bounded_buf_is_empty, bounded_buf_is_full,
}

pub record IsRingQueue (b : BoundedBuf) (items : List ℕ) : Type 0 where
  pub puts : (item : ℕ) → Represents (bounded_buf_put b item) (queue_put b.max_size items item 0)
  pub puts_woken : (item : ℕ) → bounded_buf_put b item ≡ put_woken b item
  pub gets : Represents (bounded_buf_get b) (queue_get items 0)
  pub gets_woken : bounded_buf_get b ≡ get_woken b
  pub tests_empty :
      (c : Statuses)
      → c.lock ≡ 0
      → c.unlock ≡ 0
      → bounded_buf_is_empty c b ≡ answered (if length items == 0 then 1 else 0)
  pub tests_full :
      (c : Statuses)
      → c.lock ≡ 0
      → c.unlock ≡ 0
      → bounded_buf_is_full c b ≡ answered (if length items + 1 == b.max_size then 1 else 0)
  pub destroys : (bounded_buf_destroy b).status ≡ 0
  pub frees : (bounded_buf_destroy b).freed ≡ items

module _ (b : BoundedBuf) (l : List ℕ) (v : Holds b l) where
  pub put_woken_lem :
      (item : ℕ)
      → put_woken b item
        ≡ (if length l + 1 == b.max_size then waits b else returned (stored b item) item true 0)
  unfolding put_woken
  put_woken_lem item = ground (arith, full_lem b l v)

  pub put_lem : (item : ℕ) → bounded_buf_put b item ≡ put_woken b item
  unfolding bounded_buf_put
  put_lem item = ground (arith, v.is_valid)

  pub get_woken_lem :
      get_woken b
      ≡ (if length l == 0 then waits b else returned (taken b) (get_or b.buf b.head 0) true 0)
  unfolding get_woken
  get_woken_lem = ground (arith, empty_lem b l v)

  pub get_lem : bounded_buf_get b ≡ get_woken b
  unfolding bounded_buf_get
  get_lem = ground (arith, v.is_valid)

  put-queue : (item : ℕ) → Represents (bounded_buf_put b item) (queue_put b.max_size l item 0)
  put-queue item =
      rw (put_lem item, put_woken_lem item)
        (elim (Bool-cases (length l + 1 == b.max_size)) [
          | inl e ↦ rw e v
          | inr e ↦
              let free : length l + 1 < b.max_size = ground (arith, e, v.room) in
              rw e (stored-Holds b l item v free, refl, refl)
        ])

get-queue :
    (b : BoundedBuf) (l : List ℕ) → Holds b l → Represents (bounded_buf_get b) (queue_get l 0)
get-queue b [] v = rw (get_lem b [] v, get_woken_lem b [] v) v
get-queue b (x ∷ l) v =
    let some_ : (length (x ∷ l) == 0) ≡ false = ground arith in
    rw (get_lem b (x ∷ l) v, get_woken_lem b (x ∷ l) v, some_)
      (taken-Holds b l x v, first-Holds b l x v, refl)

module _ (b : BoundedBuf) (l : List ℕ) (v : Holds b l) where
  is_empty_lem :
      (c : Statuses)
      → c.lock ≡ 0
      → c.unlock ≡ 0
      → bounded_buf_is_empty c b ≡ answered (if length l == 0 then 1 else 0)
  unfolding bounded_buf_is_empty tested empty_ring
  is_empty_lem c locks unlocks = ground (arith, v.is_valid, locks, unlocks, empty_lem b l v)

  is_full_lem :
      (c : Statuses)
      → c.lock ≡ 0
      → c.unlock ≡ 0
      → bounded_buf_is_full c b ≡ answered (if length l + 1 == b.max_size then 1 else 0)
  unfolding bounded_buf_is_full tested
  is_full_lem c locks unlocks = ground (arith, v.is_valid, locks, unlocks, full_lem b l v)

  destroys_lem :
      ((bounded_buf_destroy b).status ≡ 0) × ((bounded_buf_destroy b).freed ≡ freed_items b)
  unfolding bounded_buf_destroy
  destroys_lem = (ground (arith, v.is_valid), ground (arith, v.is_valid))

-- On a buffer that holds known items: a put is a put of a bounded queue and a get is a get, each
-- waits exactly when the queue makes it wait and moves the right item, and a call that has waited
-- goes on like one that begins; if the mutex can be locked and unlocked, the two tests answer for
-- the queue; and, in a ring of fewer than 2^31 cells, `bounded_buf_destroy` returns 0 and frees the
-- items, once each and in order.
pub Holds-IsRingQueue :
    (b : BoundedBuf) (items : List ℕ) → Holds b items → b.max_size < cells_max → IsRingQueue b items
Holds-IsRingQueue b items v few = record {
  puts = put-queue b items v;
  puts_woken = put_lem b items v;
  gets = get-queue b items v;
  gets_woken = get_lem b items v;
  tests_empty = is_empty_lem b items v;
  tests_full = is_full_lem b items v;
  destroys = (destroys_lem b items v).0;
  frees = (destroys_lem b items v).1 ∙ freed_items-eq b items v;
}

-- The initialisation that succeeds is that of boundedBuffer.c.
pub bbuf-Holds :
    (buffer : BoundedBuf) (sz : ℕ)
    → 0 < sz
    → sz < cells_max
    → Holds (bounded_buf_init true buffer sz).bbuf []
unfolding bounded_buf_init BoundedBuffer.bounded_buf_init
bbuf-Holds buffer sz pos fits = init-Holds buffer sz all_made pos fits refl refl refl refl
