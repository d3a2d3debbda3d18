-- ===== src/Sctbench/Progression.antt =====
-- sctbench/concurrent-software-benchmarks/arithmetic_prog_ok.c: a producer and a consumer of one
-- item, with two condition variables; `n` stands for N. A step is the code from taking the mutex, or
-- from waking up, to releasing it or waiting, or it is the signal after that. `unsigned long` has 64
-- bits.
pub mod Invariant
pub mod Laws
use benchamel.Base.{
  ℕ, ◌+◌, ◌-◌, ◌*◌, ◌/◌, ◌%◌, ◌^◌, ◌<◌, ◌≤◌, ◌≡◌, Bool, true, false, ◌==◌, if◌then◌else◌,
}

-- Where a thread stands in a round of its loop.
pub data Phase : Type 0 where
  ready : Phase  -- before the mutex, or woken up
  waiting : Phase  -- in pthread_cond_wait
  changed : Phase  -- after the mutex, before the signal
  ended : Phase

pub record State : Type 0 where
  pub num : ℕ
  pub total : ℕ
  pub flag : Bool
  pub i : ℕ
  pub producer : Phase
  pub j : ℕ
  pub consumer : Phase

abbrev pub main : State
main = record { num = 0; total = 0; flag = false; i = 0; producer = ready; j = 0; consumer = ready }

-- What pthread_cond_signal does to the one thread that may wait.
abbrev pub woken : Phase → Phase
woken waiting = ready
woken p = p

unfoldable pub add_to : ℕ → ℕ → ℕ
add_to total j = (total + j) % 2 ^ 64

pub data Step (n : ℕ) (s : State) : State → Type 0 where
  wait_empty : s.i < n → s.producer ≡ ready → 0 < s.num → Step n s (record s { producer = waiting })
  produce :
      s.i < n
      → s.producer ≡ ready
      → s.num ≡ 0
      → Step n s (record s { num = s.num + 1; producer = changed })
  signal_full :
      s.producer ≡ changed
      → Step n s (record s { i = s.i + 1; producer = ready; consumer = woken s.consumer })
  end_producer : n ≤ s.i → s.producer ≡ ready → Step n s (record s { producer = ended })
  wait_full : s.j < n → s.consumer ≡ ready → s.num ≡ 0 → Step n s (record s { consumer = waiting })
  consume :
      s.j < n
      → s.consumer ≡ ready
      → 0 < s.num
      → Step n s (record s { total = add_to s.total s.j; num = s.num - 1; consumer = changed })
  signal_empty :
      s.consumer ≡ changed
      → Step n s (record s { j = s.j + 1; consumer = ready; producer = woken s.producer })
  end_consumer :
      n ≤ s.j
      → s.consumer ≡ ready
      → Step n s (record s { total = add_to s.total s.j; flag = true; consumer = ended })

-- A wait may also end without a signal.
pub data SomeStep (n : ℕ) (s : State) : State → Type 0 where
  step : {t : State} → Step n s t → SomeStep n s t
  wake_producer : s.producer ≡ waiting → SomeStep n s (record s { producer = ready })
  wake_consumer : s.consumer ≡ waiting → SomeStep n s (record s { consumer = ready })

-- The assertion at the end of `main`
unfoldable pub asserts : ℕ → State → Bool
asserts n s = if s.flag then s.total == n * (n + 1) / 2 else true
