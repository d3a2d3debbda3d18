-- ===== src/Sctbench/Bbuf.antt =====
-- sctbench/inspect_examples/bbuf.c: the ring buffer of boundedBuffer.c with other calls. They ignore
-- what the POSIX calls return, and signal after every item, whether or not a thread waits, so that
-- nothing counts the threads that do. One producer and one consumer move 10 items through a ring of 3
-- cells. The record, the index and the tests of the ring are those of boundedBuffer.c.
pub mod Calls
pub mod Laws
mod Tests
use benchamel.Base.{ℕ, ◌≡◌, Bool, true, false, not, List, [], ◌==◌, get_or, set, if◌then◌else◌}
use benchamel.Sctbench.BoundedBuffer.{
  bounded_buf_valid, einval, BoundedBuf, Prepared, allocate, Destroyed, freed_items, next_index,
  full, empty_ring, Called, refused, waits, returned, Statuses, Answer, tested,
}
use benchamel.Sctbench.BoundedBuffer.Threads.{RingCalls, State, started, SomeStep}

-- `allocates` says whether `malloc` returns a block. The status of the initialisations stays 0.
unfoldable pub bounded_buf_init : (allocates : Bool) → BoundedBuf → ℕ → Prepared
bounded_buf_init allocates old sz = allocate (record old { valid = bounded_buf_valid }) sz allocates

-- The three statuses stay 0.
unfoldable pub bounded_buf_destroy : BoundedBuf → Destroyed
bounded_buf_destroy b =
    if not (b.valid == bounded_buf_valid)
    then record { bbuf = b; freed = []; status = einval }
    else record { bbuf = record b { valid = 0 }; freed = freed_items b; status = 0 }

-- The test of the loop and what follows it, at the start and after each wait
unfoldable pub put_woken : BoundedBuf → ℕ → Called
put_woken b item =
    if full b
    then waits b
    else returned (record b { buf = set b.buf b.rear item; rear = next_index b.rear b.max_size })
        item true 0

unfoldable pub bounded_buf_put : BoundedBuf → ℕ → Called
bounded_buf_put b item =
    if not (b.valid == bounded_buf_valid) then refused einval else put_woken b item

unfoldable pub get_woken : BoundedBuf → Called
get_woken b =
    if empty_ring b
    then waits b
    else returned (record b { head = next_index b.head b.max_size }) (get_or b.buf b.head 0) true 0

unfoldable pub bounded_buf_get : BoundedBuf → Called
bounded_buf_get b = if not (b.valid == bounded_buf_valid) then refused einval else get_woken b

-- These two keep the statuses of the lock and of the unlock.
unfoldable pub bounded_buf_is_empty : Statuses → BoundedBuf → Answer
bounded_buf_is_empty c b = tested c b (b.rear == b.head)

unfoldable pub bounded_buf_is_full : Statuses → BoundedBuf → Answer
bounded_buf_is_full c b = tested c b (full b)

-- What `producer_routine` and `consumer_routine` call.
abbrev pub bbuf_calls : RingCalls
bbuf_calls = record {
  put = bounded_buf_put;
  put_woken = put_woken;
  get = bounded_buf_get;
  get_woken = get_woken;
}

abbrev pub main : BoundedBuf → ℕ → State
main buffer sz = started (bounded_buf_init true buffer sz).bbuf

-- `n` producers and `n` consumers that do so many rounds; the program has 1 and 10.
abbrev pub BbufStep : (n rounds : ℕ) → State → State → Type 0
BbufStep n rounds = SomeStep bbuf_calls n rounds
