-- ===== src/Sctbench/Queue.antt =====
-- sctbench/concurrent-software-benchmarks/queue_ok.c: one thread fills a queue, another empties it.
-- Each takes the mutex for all of its work, so that its work is one step. An access outside an
-- array has no result. A loop runs over the numbers that are left to count. `dequeue` is called
-- with an element in the queue, so that `amount` does not fall below 0.
pub mod Loops
pub mod Laws
use benchamel.Base.{
  ℕ, zero, suc, ◌+◌, ◌-◌, ◌<◌, ◌≡◌, Bool, true, false, Option, none, some, List, length, get_or,
  set, replicate, ltb, ◌==◌, ◌>>=◌, ◌&&◌, if◌then◌else◌,
}

abbrev pub size : ℕ
size = 40

pub record QType : Type 0 where
  pub element : List ℕ
  pub head : ℕ
  pub tail : ℕ
  pub amount : ℕ

abbrev pub init : QType → QType
init q = record q { head = 0; tail = 0; amount = 0 }

-- EMPTY or 0
abbrev pub empty : QType → Bool
empty q = q.head == q.tail

unfoldable pub enqueue : QType → ℕ → Option QType
enqueue q x =
    if ltb q.tail (length q.element)
    then some (record q {
      element = set q.element q.tail x;
      amount = q.amount + 1;
      tail = if q.tail == size then 1 else q.tail + 1;
    })
    else none

unfoldable pub dequeue : QType → Option (QType × ℕ)
dequeue q =
    if ltb q.head (length q.element)
    then some (
      record q { amount = q.amount - 1; head = if q.head == size then 1 else q.head + 1 },
      get_or q.element q.head 0,
    )
    else none

pub record State : Type 0 where
  pub queue : QType
  pub stored_elements : List ℕ
  pub enqueue_flag : Bool
  pub dequeue_flag : Bool
  pub asserted : Bool  -- no assertion has failed

-- `stored_elements[i]=value;`
unfoldable pub store_element : ℕ → ℕ → State → Option State
store_element i value s =
    if ltb i (length s.stored_elements)
    then some (record s { stored_elements = set s.stored_elements i value })
    else none

-- The loop of t1, from `i` on, for `n` rounds: `value` is i before it is increased.
unfoldable pub store_all : ℕ → ℕ → State → Option State
store_all zero i s = some s
store_all (suc n) i s = enqueue s.queue (i + 1) >>= λ q.
    (store_element i (i + 1) (record s { queue = q }) >>= store_all n (i + 1))

-- `stored_elements[i]`, against which t2 compares what it takes out
unfoldable pub compare_stored : ℕ → ℕ → State → Option State
compare_stored i x s =
    if ltb i (length s.stored_elements)
    then some (record s { asserted = s.asserted && x == get_or s.stored_elements i 0 })
    else none

-- The body of the loop of t2
unfoldable pub check_one : ℕ → State → Option State
check_one i s =
    if empty s.queue
    then some s
    else (dequeue s.queue >>= λ (q, x). compare_stored i x (record s { queue = q }))

unfoldable pub check_all : ℕ → ℕ → State → Option State
check_all zero i s = some s
check_all (suc n) i s = check_one i s >>= check_all n (i + 1)

unfoldable pub t1 : State → Option State
t1 s =
    if s.enqueue_flag
    then (store_all size 0 s >>= λ u. some (record u { enqueue_flag = false; dequeue_flag = true }))
    else some s

unfoldable pub t2 : State → Option State
t2 s =
    if s.dequeue_flag
    then (check_all size 0 s >>= λ u. some (record u { dequeue_flag = false; enqueue_flag = true }))
    else some s

-- The global arrays are zero.
abbrev pub main : State
main = record {
  queue = init (record { element = replicate size 0; head = 0; tail = 0; amount = 0 });
  stored_elements = replicate size 0;
  enqueue_flag = true;
  dequeue_flag = false;
  asserted = empty (init (record { element = replicate size 0; head = 0; tail = 0; amount = 0 }));
}
