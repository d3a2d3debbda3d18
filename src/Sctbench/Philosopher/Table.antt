-- ===== src/Sctbench/Philosopher/Table.antt =====
-- sctbench/inspect_examples/philosopher.c: the philosophers. A step is the code of a call from taking
-- the mutex of a fork, or from waking up, to releasing it or waiting. The calls of the POSIX threads
-- succeed. `n` stands for PHILOSOPHERS_SUM and FORKS_SUM, `rounds` for NUM_ITERATIONS.
pub mod Counts
pub mod Moves
pub mod Signals
pub mod Change
pub mod Invariant
pub mod Effort
pub mod Rest
pub mod Laws
use benchamel.Base.{
  ℕ, ◌+◌, ◌-◌, ◌%◌, ◌<◌, ◌≡◌, Bool, true, false, not, ◌&&◌, Option, none, some, ◌==◌, if◌then◌else◌,
  update,
}
use benchamel.Sctbench.Philosopher.{
  Fork, ForkStatuses, ForkCall, waits, returned, fork_init, fork_get, fork_woken, fork_putdown,
}

abbrev pub all_well : ForkStatuses
all_well = record {
  init_mutex = 0;
  init_cond = 0;
  lock = 0;
  unlock = 0;
  signal = 0;
  destroy_mutex = 0;
  destroy_cond = 0;
}

-- Where a philosopher stands in a round.
pub data Stage : Type 0 where
  begins : Stage  -- before the first fork_get, or, after the last round, ended
  sleeps_first : Stage  -- in the wait of the first fork_get
  wakes_first : Stage  -- about to return from that wait
  begins_second : Stage
  sleeps_second : Stage
  wakes_second : Stage
  eats : Stage  -- before fork_putdown of the left fork
  puts_right : Stage

pub record Philosopher : Type 0 where
  pub id : ℕ
  pub left : ℕ
  pub right : ℕ
  pub stage : Stage
  pub num : ℕ

pub record State : Type 0 where
  pub forks : ℕ → Fork
  pub philosophers : ℕ → Philosopher

abbrev pub seated : ℕ → ℕ → Philosopher
seated n i = record {
  id = i;
  left = i;
  right = if not (i == n - 1) then i + 1 else 0;
  stage = begins;
  num = 0;
}

-- `main` leaves its forks uninitialised before fork_init.
abbrev pub main : (ℕ → Fork) → ℕ → State
main raw n = record { forks = λ k. (fork_init all_well (raw k)).0; philosophers = seated n }

-- The philosophers with an odd id take the left fork first, the others the right one.
abbrev pub first : Philosopher → ℕ
first p = if p.id % 2 == 1 then p.left else p.right

abbrev pub second : Philosopher → ℕ
second p = if p.id % 2 == 1 then p.right else p.left

-- The fork that a philosopher needs next or waits for
abbrev pub next_fork : Philosopher → Stage → ℕ
next_fork p begins = first p
next_fork p sleeps_first = first p
next_fork p wakes_first = first p
next_fork p begins_second = second p
next_fork p sleeps_second = second p
next_fork p wakes_second = second p
next_fork p eats = p.left
next_fork p puts_right = p.right

-- What a philosopher does next with the mutex of that fork, if it can get it.
abbrev pub philosopher_thread : Stage → Fork → Option ForkCall
philosopher_thread begins f = some (fork_get all_well f)
philosopher_thread sleeps_first f = none
philosopher_thread wakes_first f = some (fork_woken all_well f 0)
philosopher_thread begins_second f = some (fork_get all_well f)
philosopher_thread sleeps_second f = none
philosopher_thread wakes_second f = some (fork_woken all_well f 0)
philosopher_thread eats f = some (fork_putdown all_well f)
philosopher_thread puts_right f = some (fork_putdown all_well f)

-- Where a call leaves a philosopher that has to wait, and where its return takes it.
abbrev pub waiting_stage : Stage → Stage
waiting_stage begins = sleeps_first
waiting_stage wakes_first = sleeps_first
waiting_stage begins_second = sleeps_second
waiting_stage wakes_second = sleeps_second
waiting_stage p = p

abbrev pub after : Philosopher → Stage → Philosopher
after p begins = record p { stage = begins_second }
after p wakes_first = record p { stage = begins_second }
after p begins_second = record p { stage = eats }
after p wakes_second = record p { stage = eats }
after p eats = record p { stage = puts_right }
after p puts_right = record p { stage = begins; num = p.num + 1 }
after p stage = p

abbrev pub wake : Stage → Stage
wake sleeps_first = wakes_first
wake sleeps_second = wakes_second
wake s = s

abbrev pub in_wait : Stage → Bool
in_wait sleeps_first = true
in_wait sleeps_second = true
in_wait s = false

abbrev pub sleeps_on : ℕ → Philosopher → Bool
sleeps_on k p = in_wait p.stage && (next_fork p p.stage == k)

abbrev pub at : Stage → Philosopher → Philosopher
at s p = record p { stage = s }

-- What pthread_cond_signal on the condition of a fork does, if it is called.
pub data ForkSignals (k : ℕ) (f : ℕ → Philosopher) : Bool → (ℕ → Philosopher) → Type 0 where
  uncalled : ForkSignals k f false f
  unheard : ((j : ℕ) → sleeps_on k (f j) ≡ false) → ForkSignals k f true f
  wakes :
      (j : ℕ)
      → sleeps_on k (f j) ≡ true
      → ForkSignals k f true (update f j (at (wake (f j).stage) (f j)))

pub data Step (n rounds : ℕ) (s : State) : State → Type 0 where
  sleeps :
      (i k : ℕ) {f : Fork}
      → i < n
      → (s.philosophers i).num < rounds
      → k ≡ next_fork (s.philosophers i) (s.philosophers i).stage
      → philosopher_thread (s.philosophers i).stage (s.forks k) ≡ some (waits f)
      → Step n rounds s (record {
        forks = update s.forks k f;
        philosophers =
            update s.philosophers i
              (at (waiting_stage (s.philosophers i).stage) (s.philosophers i));
      })
  goes_on :
      (i k : ℕ) {f : Fork} {signals : Bool} {g : ℕ → Philosopher}
      → i < n
      → (s.philosophers i).num < rounds
      → k ≡ next_fork (s.philosophers i) (s.philosophers i).stage
      → philosopher_thread (s.philosophers i).stage (s.forks k) ≡ some (returned f signals 0)
      → ForkSignals k s.philosophers signals g
      → Step n rounds s (record {
        forks = update s.forks k f;
        philosophers = update g i (after (s.philosophers i) (s.philosophers i).stage);
      })

-- A wait may also end without a signal.
pub data SomeStep (n rounds : ℕ) (s : State) : State → Type 0 where
  step : {t : State} → Step n rounds s t → SomeStep n rounds s t
  wake_up :
      (i : ℕ)
      → in_wait (s.philosophers i).stage ≡ true
      → SomeStep n rounds s (record s {
        philosophers =
            update s.philosophers i (at (wake (s.philosophers i).stage) (s.philosophers i));
      })
