-- ===== src/Sctbench/BoundedBuffer/Threads.antt =====
-- sctbench/inspect_examples/boundedBuffer.c: producers and consumers of one buffer. A step is the
-- code of a call from taking the mutex, or from waking up, to releasing it or waiting. The calls of
-- the POSIX threads succeed. `n` is how many producers and how many consumers there are, `rounds` how
-- often each of them calls; the program has 5 and 10, and a buffer of 3 cells. The threads of
-- inspect_examples/bbuf.c run the same loops around its own calls: `RingCalls`.
pub mod Crowd
pub mod Effort
pub mod Interface
pub mod Invariant
pub mod Runs
pub mod Moves
pub mod Unset
pub mod Laws
pub mod Cancel
use benchamel.Base.{
  ℕ, ◌+◌, ◌<◌, ◌≡◌, Bool, true, false, Option, none, some, List, [], ◌∷◌, ◌++◌, update,
}
use benchamel.Sctbench.BoundedBuffer.{
  BoundedBuf, Statuses, InitCalls, Called, refused, waits, returned, bounded_buf_init,
  bounded_buf_put, put_woken, bounded_buf_get, get_woken,
}

abbrev pub all_well : Statuses
all_well = record {
  lock = 0;
  unlock = 0;
  signal = 0;
  destroy_mutex = 0;
  destroy_full = 0;
  destroy_empty = 0;
}

abbrev pub all_made : InitCalls
all_made = record { mutex_status = 0; full_status = 0; empty_status = 0; allocates = true }

-- Where a thread stands: before a call of its loop, in pthread_cond_wait, or about to return from it.
pub data Place : Type 0 where
  calling : Place
  asleep : Place
  awake : Place

pub record Worker : Type 0 where
  pub place : Place
  pub i : ℕ

-- `sent` and `received` are the items of the calls that have returned 0, the first one first. The
-- program prints them.
pub record State : Type 0 where
  pub bbuf : BoundedBuf
  pub producers : ℕ → Worker
  pub consumers : ℕ → Worker
  pub sent : List ℕ
  pub received : List ℕ

-- The calls that the threads make: each from its start, and from the end of its wait.
pub record RingCalls : Type 0 where
  pub put : BoundedBuf → ℕ → Called
  pub put_woken : BoundedBuf → ℕ → Called
  pub get : BoundedBuf → Called
  pub get_woken : BoundedBuf → Called

abbrev pub ring_calls : RingCalls
ring_calls = record {
  put = bounded_buf_put all_well;
  put_woken = λ b item. put_woken all_well b item 0;
  get = bounded_buf_get all_well;
  get_woken = λ b. get_woken all_well b 0;
}

abbrev pub starting : Worker
starting = record { place = calling; i = 0 }

abbrev pub started : BoundedBuf → State
started b = record {
  bbuf = b;
  producers = λ i. starting;
  consumers = λ i. starting;
  sent = [];
  received = [];
}

-- `main` leaves its buffer uninitialised before bounded_buf_init.
abbrev pub main : BoundedBuf → ℕ → State
main raw sz = started (bounded_buf_init all_made raw sz).bbuf

-- What a producer does next with the mutex, if it can get it.
abbrev pub producer_routine : RingCalls → Place → BoundedBuf → ℕ → Option Called
producer_routine calls calling b item = some (calls.put b item)
producer_routine calls asleep b item = none
producer_routine calls awake b item = some (calls.put_woken b item)

abbrev pub consumer_routine : RingCalls → Place → BoundedBuf → Option Called
consumer_routine calls calling b = some (calls.get b)
consumer_routine calls asleep b = none
consumer_routine calls awake b = some (calls.get_woken b)

abbrev pub in_wait : Place → Bool
in_wait asleep = true
in_wait _ = false

abbrev pub is_asleep : Worker → Bool
is_asleep w = in_wait w.place

abbrev pub at : Place → Worker → Worker
at p w = record w { place = p }

-- The thread has ended a round of its loop.
abbrev pub done : Worker → Worker
done w = record { place = calling; i = w.i + 1 }

-- What pthread_cond_signal does, if it is called: it wakes one of the threads that wait, if any do.
pub data Signals (f : ℕ → Worker) : Bool → (ℕ → Worker) → Type 0 where
  uncalled : Signals f false f
  unheard : ((j : ℕ) → is_asleep (f j) ≡ false) → Signals f true f
  wakes : (j : ℕ) → is_asleep (f j) ≡ true → Signals f true (update f j (at awake (f j)))

pub data Step (calls : RingCalls) (n rounds : ℕ) (s : State) : State → Type 0 where
  put_waits :
      (k item : ℕ) {b : BoundedBuf}
      → k < n
      → (s.producers k).i < rounds
      → producer_routine calls (s.producers k).place s.bbuf item ≡ some (waits b)
      → Step calls n rounds s
          (record s { bbuf = b; producers = update s.producers k (at asleep (s.producers k)) })
  put_returns :
      (k item : ℕ) {b : BoundedBuf} {x : ℕ} {signals : Bool} {f : ℕ → Worker}
      → k < n
      → (s.producers k).i < rounds
      → producer_routine calls (s.producers k).place s.bbuf item ≡ some (returned b x signals 0)
      → Signals s.consumers signals f
      → Step calls n rounds s (record s {
        bbuf = b;
        producers = update s.producers k (done (s.producers k));
        consumers = f;
        sent = s.sent ++ x ∷ [];
      })
  get_waits :
      (k : ℕ) {b : BoundedBuf}
      → k < n
      → (s.consumers k).i < rounds
      → consumer_routine calls (s.consumers k).place s.bbuf ≡ some (waits b)
      → Step calls n rounds s
          (record s { bbuf = b; consumers = update s.consumers k (at asleep (s.consumers k)) })
  get_returns :
      (k : ℕ) {b : BoundedBuf} {x : ℕ} {signals : Bool} {f : ℕ → Worker}
      → k < n
      → (s.consumers k).i < rounds
      → consumer_routine calls (s.consumers k).place s.bbuf ≡ some (returned b x signals 0)
      → Signals s.producers signals f
      → Step calls n rounds s (record s {
        bbuf = b;
        consumers = update s.consumers k (done (s.consumers k));
        producers = f;
        received = s.received ++ x ∷ [];
      })

-- A wait may also end without a signal.
pub data SomeStep (calls : RingCalls) (n rounds : ℕ) (s : State) : State → Type 0 where
  step : {t : State} → Step calls n rounds s t → SomeStep calls n rounds s t
  wake_producer :
      (k : ℕ)
      → is_asleep (s.producers k) ≡ true
      → SomeStep calls n rounds s
          (record s { producers = update s.producers k (at awake (s.producers k)) })
  wake_consumer :
      (k : ℕ)
      → is_asleep (s.consumers k) ≡ true
      → SomeStep calls n rounds s
          (record s { consumers = update s.consumers k (at awake (s.consumers k)) })
