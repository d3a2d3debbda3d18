-- ===== src/Sctbench/BoundedBuffer.antt =====
-- sctbench/inspect_examples/boundedBuffer.c: a ring buffer that blocks, between the calls of the
-- POSIX threads. What those calls return is an argument. `size_t` and `unsigned long` have 64 bits.
-- The items, which the program casts to pointers, are numbers.
pub mod Ring
pub mod Calls
pub mod Prepare
pub mod Refines
pub mod Teardown
pub mod Threads
mod Tests
use benchamel.Base.{
  ℕ, ◌+◌, ◌-◌, ◌*◌, ◌/◌, ◌%◌, ◌≡◌, Bool, true, false, not, ◌&&◌, ◌||◌, List, [], ◌∷◌, ◌++◌, take,
  drop, get_or, set, replicate, leb, ltb, ◌==◌, if◌then◌else◌,
}

-- 0xACDEFA
abbrev pub bounded_buf_valid : ℕ
bounded_buf_valid = 11329274

abbrev pub einval : ℕ
einval = 22

abbrev pub enomem : ℕ
enomem = 12

-- 2 ^ 64
abbrev pub word : ℕ
word = 18446744073709551616

-- 2 ^ 31: an `int` counts the cells in bounded_buf_destroy.
abbrev pub cells_max : ℕ
cells_max = 2147483648

pub record BoundedBuf : Type 0 where
  pub valid : ℕ
  pub item_num : ℕ
  pub max_size : ℕ
  pub head : ℕ
  pub rear : ℕ
  pub p_wait : ℕ
  pub c_wait : ℕ
  pub buf : List ℕ

-- The mutex and the conditions of a buffer, and what is done to them.
pub data Object : Type 0 where
  mutex : Object
  not_full : Object
  not_empty : Object

pub data Action : Type 0 where
  inits : Object → Action
  destroys : Object → Action

pub record Prepared : Type 0 where
  pub bbuf : BoundedBuf
  pub actions : List Action
  pub status : ℕ

-- What the calls in `bounded_buf_init` return, and whether `malloc` returns a block.
pub record InitCalls : Type 0 where
  pub mutex_status : ℕ
  pub full_status : ℕ
  pub empty_status : ℕ
  pub allocates : Bool

-- The size in bytes that `malloc` is asked for may wrap.
unfoldable pub allocate : BoundedBuf → ℕ → Bool → Prepared
allocate b sz true = record {
  bbuf = record b {
    item_num = 0;
    max_size = sz;
    head = 0;
    rear = 0;
    buf = replicate (sz * 8 % word / 8) 0;
  };
  actions = inits mutex ∷ inits not_full ∷ inits not_empty ∷ [];
  status = 0;
}
allocate b sz false = record {
  bbuf = record b { item_num = 0; max_size = sz; head = 0; rear = 0; buf = [] };
  actions =
      inits mutex
      ∷ inits not_full
      ∷ inits not_empty
      ∷ destroys mutex
      ∷ destroys not_full
      ∷ destroys not_empty
      ∷ [];
  status = enomem;
}

unfoldable pub bounded_buf_init : InitCalls → BoundedBuf → ℕ → Prepared
bounded_buf_init c old sz =
    let b = record old { valid = bounded_buf_valid } in
    if not (c.mutex_status == 0)
    then record { bbuf = b; actions = []; status = c.mutex_status }
    else if not (c.full_status == 0)
    then record { bbuf = b; actions = inits mutex ∷ destroys mutex ∷ []; status = c.full_status }
    else if not (c.empty_status == 0)
    then record {
      bbuf = b;
      actions = inits mutex ∷ inits not_full ∷ destroys not_full ∷ destroys mutex ∷ [];
      status = c.empty_status;
    }
    else allocate b sz c.allocates

-- What the calls in the other functions return.
pub record Statuses : Type 0 where
  pub lock : ℕ
  pub unlock : ℕ
  pub signal : ℕ
  pub destroy_mutex : ℕ
  pub destroy_full : ℕ
  pub destroy_empty : ℕ

pub record Destroyed : Type 0 where
  pub bbuf : BoundedBuf
  pub freed : List ℕ
  pub status : ℕ

-- The elements of the array from `i` up to but not including `j`
unfoldable pub between : List ℕ → ℕ → ℕ → List ℕ
between buf i j = take (j - i) (drop i buf)

-- The arguments of the calls of `free` on items, where there are fewer than 2^31 cells
unfoldable pub freed_items : BoundedBuf → List ℕ
freed_items b =
    if leb b.head b.rear
    then between b.buf b.head b.rear
    else between b.buf b.head b.max_size ++ between b.buf 0 b.rear

unfoldable pub bounded_buf_destroy : Statuses → BoundedBuf → Destroyed
bounded_buf_destroy c b =
    if not (b.valid == bounded_buf_valid)
    then record { bbuf = b; freed = []; status = einval }
    else if not (c.lock == 0)
    then record { bbuf = b; freed = []; status = c.lock }
    else if not (c.unlock == 0)
    then record { bbuf = record b { valid = 0 }; freed = []; status = c.unlock }
    else record {
      bbuf = record b { valid = 0 };
      freed = freed_items b;
      status =
          if not (c.destroy_mutex == 0)
          then c.destroy_mutex
          else if not (c.destroy_full == 0)
          then c.destroy_full
          else c.destroy_empty;
    }

unfoldable pub next_index : ℕ → ℕ → ℕ
next_index i max_size = (i + 1) % word % max_size

unfoldable pub full : BoundedBuf → Bool
full b = next_index b.rear b.max_size == b.head

unfoldable pub empty_ring : BoundedBuf → Bool
empty_ring b = b.head == b.rear

abbrev pub increment : ℕ → ℕ
increment n = (n + 1) % word

abbrev pub decrement : ℕ → ℕ
decrement n = (n + word - 1) % word

-- Where a call of `bounded_buf_put` or `bounded_buf_get` leads before it is back or waits.
pub data Called : Type 0 where
  refused : (status : ℕ) → Called
  waits : BoundedBuf → Called  -- in pthread_cond_wait, which releases the mutex
  -- with the item that the call took or stored, and whether it has called pthread_cond_signal
  returned : BoundedBuf → (item : ℕ) (signals : Bool) (status : ℕ) → Called

-- `bounded_buf_put` after its wait, if any, has ended with this status
unfoldable pub put_finish : Statuses → BoundedBuf → ℕ → ℕ → Called
put_finish c b item status =
    if status == 0
    then returned (record b { buf = set b.buf b.rear item; rear = next_index b.rear b.max_size })
        item (ltb 0 b.c_wait) c.unlock
    else returned b item false status

unfoldable pub bounded_buf_put : Statuses → BoundedBuf → ℕ → Called
bounded_buf_put c b item =
    if not (b.valid == bounded_buf_valid)
    then refused einval
    else if not (c.lock == 0)
    then refused c.lock
    else if full b
    then waits (record b { p_wait = increment b.p_wait })
    else put_finish c b item 0

-- The same call when pthread_cond_wait has returned
unfoldable pub put_woken : Statuses → BoundedBuf → ℕ → ℕ → Called
put_woken c b item status =
    if (status == 0) && full b
    then waits b
    else put_finish c (record b { p_wait = decrement b.p_wait }) item status

-- The item is what `bounded_buf_get` stores for the caller; it stores none when its wait failed.
unfoldable pub get_finish : Statuses → BoundedBuf → ℕ → Called
get_finish c b status =
    if status == 0
    then returned (record b { head = next_index b.head b.max_size }) (get_or b.buf b.head 0)
        (ltb 0 b.p_wait) (if ltb 0 b.p_wait && not (c.signal == 0) then c.signal else c.unlock)
    else returned b 0 false status

unfoldable pub bounded_buf_get : Statuses → BoundedBuf → Called
bounded_buf_get c b =
    if not (b.valid == bounded_buf_valid)
    then refused einval
    else if not (c.lock == 0)
    then refused c.lock
    else if empty_ring b
    then waits (record b { c_wait = increment b.c_wait })
    else get_finish c b 0

unfoldable pub get_woken : Statuses → BoundedBuf → ℕ → Called
get_woken c b status =
    if (status == 0) && empty_ring b
    then waits b
    else get_finish c (record b { c_wait = decrement b.c_wait }) status

-- The answer of a test of the buffer; -1 is `failed`.
pub data Answer : Type 0 where
  answered : ℕ → Answer
  failed : Answer

unfoldable pub tested : Statuses → BoundedBuf → Bool → Answer
tested c b test =
    if not (b.valid == bounded_buf_valid)
    then failed
    else if not (c.lock == 0)
    then answered c.lock
    else if c.unlock == 0
    then answered (if test then 1 else 0)
    else failed

unfoldable pub bounded_buf_is_empty : Statuses → BoundedBuf → Answer
bounded_buf_is_empty c b = tested c b (b.rear == b.head)

unfoldable pub bounded_buf_is_full : Statuses → BoundedBuf → Answer
bounded_buf_is_full c b = tested c b (full b)
