-- ===== src/Sctbench/Philosopher/Table/Counts.antt =====
-- sctbench/inspect_examples/philosopher.c: how many philosophers hold, wait for or are about to take
-- a fork.
use benchamel.Base.{
  ℕ, ◌+◌, ◌%◌, ◌≤◌, ◌≡◌, ◌≢◌, refl, arith, Bool, true, false, ◌==◌, if◌then◌else◌, inl, inr,
  Bool-cases,
}
use benchamel.Sctbench.Philosopher.Table.{
  Stage, begins, sleeps_first, wakes_first, begins_second, sleeps_second, wakes_second, eats,
  puts_right, Philosopher, first, second, next_fork, waiting_stage, after, wake, in_wait,
}

abbrev pub same : ℕ → ℕ → ℕ
same a b = if a == b then 1 else 0

-- How often fork `k` is among those that a philosopher holds at this stage.
abbrev pub held : ℕ → Philosopher → Stage → ℕ
held k p begins = 0
held k p sleeps_first = 0
held k p wakes_first = 0
held k p begins_second = same (first p) k
held k p sleeps_second = same (first p) k
held k p wakes_second = same (first p) k
held k p eats = same p.left k + same p.right k
held k p puts_right = same p.right k

abbrev pub slept : ℕ → Philosopher → Stage → ℕ
slept k p sleeps_first = same (first p) k
slept k p sleeps_second = same (second p) k
slept k p s = 0

abbrev pub woken_for : ℕ → Philosopher → Stage → ℕ
woken_for k p wakes_first = same (first p) k
woken_for k p wakes_second = same (second p) k
woken_for k p s = 0

abbrev pub holding : ℕ → Philosopher → ℕ
holding k p = held k p p.stage

abbrev pub sleeping : ℕ → Philosopher → ℕ
sleeping k p = slept k p p.stage

abbrev pub waking : ℕ → Philosopher → ℕ
waking k p = woken_for k p p.stage

abbrev pub gets : Stage → Bool
gets begins = true
gets wakes_first = true
gets begins_second = true
gets wakes_second = true
gets s = false

abbrev pub puts : Stage → Bool
puts eats = true
puts puts_right = true
puts s = false

abbrev pub is_awake : Stage → Bool
is_awake wakes_first = true
is_awake wakes_second = true
is_awake s = false

pub same_self : (a b : ℕ) → a ≡ b → same a b ≡ 1
same_self a b e = ground (arith, e)

pub same_other : (a b : ℕ) → a ≢ b → same a b ≡ 0
same_other a b e = ground (arith, e)

pub same-le : (a b : ℕ) → same a b ≤ 1
same-le a b = ground arith

-- Both forks, in either order
both_forks :
    (p : Philosopher) (k : ℕ)
    → same (first p) k + same (second p) k ≡ same p.left k + same p.right k
both_forks p k = elim (Bool-cases (p.id % 2 == 1)) [
  | inl e ↦ rw e refl
  | inr e ↦ rw e (omega arith)
]

-- What a step changes, for each fork `j` and the fork `next_fork p s` of the step
module _ (p : Philosopher) (j : ℕ) where
  pub wait-held : (s : Stage) → gets s ≡ true → held j p (waiting_stage s) ≡ held j p s
  wait-held begins g = refl
  wait-held wakes_first g = refl
  wait-held begins_second g = refl
  wait-held wakes_second g = refl
  wait-held s g = cc g

  pub wait-slept :
      (s : Stage) → gets s ≡ true → slept j p (waiting_stage s) ≡ same (next_fork p s) j
  wait-slept begins g = refl
  wait-slept wakes_first g = refl
  wait-slept begins_second g = refl
  wait-slept wakes_second g = refl
  wait-slept s g = cc g

  pub wait-woken : (s : Stage) → gets s ≡ true → woken_for j p (waiting_stage s) ≡ 0
  wait-woken begins g = refl
  wait-woken wakes_first g = refl
  wait-woken begins_second g = refl
  wait-woken wakes_second g = refl
  wait-woken s g = cc g

  -- One who can go does not sleep.
  pub up-slept : (s : Stage) → in_wait s ≡ false → slept j p s ≡ 0
  up-slept sleeps_first u = cc u
  up-slept sleeps_second u = cc u
  up-slept s u = refl

  pub woken-eq :
      (s : Stage)
      → in_wait s ≡ false
      → woken_for j p s ≡ (if is_awake s then same (next_fork p s) j else 0)
  woken-eq sleeps_first u = cc u
  woken-eq wakes_first u = refl
  woken-eq wakes_second u = refl
  woken-eq s u = refl

  pub get-held :
      (s : Stage) → gets s ≡ true → holding j (after p s) ≡ held j p s + same (next_fork p s) j
  get-held begins g = omega arith
  get-held wakes_first g = omega arith
  get-held begins_second g = omega (arith, both_forks p j)
  get-held wakes_second g = omega (arith, both_forks p j)
  get-held s g = cc g

  pub put-held :
      (s : Stage) → puts s ≡ true → holding j (after p s) + same (next_fork p s) j ≡ held j p s
  put-held eats g = omega arith
  put-held puts_right g = omega arith
  put-held s g = cc g

  pub after-slept : (s : Stage) → in_wait s ≡ false → sleeping j (after p s) ≡ 0
  after-slept sleeps_first u = cc u
  after-slept begins u = refl
  after-slept wakes_first u = refl
  after-slept begins_second u = refl
  after-slept sleeps_second u = cc u
  after-slept wakes_second u = refl
  after-slept eats u = refl
  after-slept puts_right u = refl

  pub after-woken : (s : Stage) → in_wait s ≡ false → waking j (after p s) ≡ 0
  after-woken sleeps_first u = cc u
  after-woken begins u = refl
  after-woken wakes_first u = refl
  after-woken begins_second u = refl
  after-woken sleeps_second u = cc u
  after-woken wakes_second u = refl
  after-woken eats u = refl
  after-woken puts_right u = refl

  pub wake-held : (s : Stage) → held j p (wake s) ≡ held j p s
  wake-held sleeps_first = refl
  wake-held sleeps_second = refl
  wake-held s = refl

  pub wake-slept : (s : Stage) → in_wait s ≡ true → slept j p (wake s) ≡ 0
  wake-slept sleeps_first w = refl
  wake-slept sleeps_second w = refl
  wake-slept s w = cc w

  pub wake-woken :
      (s : Stage)
      → in_wait s ≡ true
      → (woken_for j p (wake s) ≡ same (next_fork p s) j)
        × (slept j p s ≡ same (next_fork p s) j)
        × (woken_for j p s ≡ 0)
  wake-woken sleeps_first w = (refl, refl, refl)
  wake-woken sleeps_second w = (refl, refl, refl)
  wake-woken s w = cc w
