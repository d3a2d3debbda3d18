-- ===== src/Sctbench/Philosopher/Table/Effort.antt =====
-- sctbench/inspect_examples/philosopher.c: how much the philosophers can still do.
use benchamel.Base.{
  ℕ, ◌+◌, ◌-◌, ◌*◌, ◌<◌, ◌≤◌, ◌≡◌, refl, ap, arith, Bool, true, false, if◌then◌else◌, ◌⊎◌, inl, inr,
  Bool-cases, some, Option, update, total, total-update, one_or_none,
}
use benchamel.Sctbench.Philosopher.{Fork, ForkCall, waits, returned}
use benchamel.Sctbench.Philosopher.Forks.{ForkOk, get_lem, woken_lem, put_lem}
use benchamel.Sctbench.Philosopher.Table.{
  Stage, begins, sleeps_first, wakes_first, begins_second, sleeps_second, wakes_second, eats,
  puts_right, Philosopher, philosopher_thread, waiting_stage, after, wake, in_wait, sleeps_on, at,
  ForkSignals, uncalled, unheard, wakes,
}
use benchamel.Sctbench.Philosopher.Table.Counts.{gets}
use benchamel.Sctbench.Philosopher.Table.Moves.{Fits}
use benchamel.Sctbench.Philosopher.Table.Signals.{waits_going}

-- Ten steps in a round at most, and fewer in the round that a philosopher is in.
abbrev pub effort_at : Stage → ℕ
effort_at begins = 9
effort_at wakes_first = 8
effort_at sleeps_first = 7
effort_at begins_second = 6
effort_at wakes_second = 5
effort_at sleeps_second = 4
effort_at eats = 3
effort_at puts_right = 1

abbrev pub effort : ℕ → Philosopher → ℕ
effort rounds p = 10 * (rounds - p.num) + effort_at p.stage

waiting_effort : (s : Stage) → gets s ≡ true → effort_at (waiting_stage s) < effort_at s
waiting_effort begins g = omega arith
waiting_effort wakes_first g = omega arith
waiting_effort begins_second g = omega arith
waiting_effort wakes_second g = omega arith
waiting_effort s g = cc g

after_effort :
    (rounds : ℕ) (p : Philosopher) (s : Stage)
    → p.num < rounds
    → in_wait s ≡ false
    → effort rounds (after p s) + 2 ≤ 10 * (rounds - p.num) + effort_at s
after_effort rounds p begins lt u = omega arith
after_effort rounds p wakes_first lt u = omega arith
after_effort rounds p begins_second lt u = omega arith
after_effort rounds p wakes_second lt u = omega arith
after_effort rounds p eats lt u = omega arith
after_effort rounds p puts_right lt u = omega (arith, lt)
after_effort rounds p sleeps_first lt u = cc u
after_effort rounds p sleeps_second lt u = cc u

wake_effort : (s : Stage) → effort_at (wake s) ≤ effort_at s + 1
wake_effort sleeps_first = omega arith
wake_effort sleeps_second = omega arith
wake_effort s = omega arith

module _ (n rounds : ℕ) (f : ℕ → Philosopher) (i : ℕ) (lt : i < n) where
  pub effort_waiting :
      gets (f i).stage ≡ true
      → total (effort rounds) n (update f i (at (waiting_stage (f i).stage) (f i)))
        < total (effort rounds) n f
  effort_waiting g = omega (
    arith,
    total-update (effort rounds) n f i (at (waiting_stage (f i).stage) (f i)) lt,
    waiting_effort (f i).stage g,
  )

  pub effort_after :
      (p : Philosopher)
      → f i ≡ p
      → p.num < rounds
      → in_wait p.stage ≡ false
      → total (effort rounds) n (update f i (after p p.stage)) + 2 ≤ total (effort rounds) n f
  effort_after p e go u = omega (
    arith,
    total-update (effort rounds) n f i (after p p.stage) lt,
    after_effort rounds p p.stage go u,
    ap (effort rounds) e,
  )

pub effort_heard :
    (n rounds k : ℕ) (f g : ℕ → Philosopher) (signals : Bool)
    → ((j : ℕ) → Fits n rounds j (f j))
    → ForkSignals k f signals g
    → total (effort rounds) n g ≤ total (effort rounds) n f + 1
effort_heard n rounds k f g signals v uncalled = omega arith
effort_heard n rounds k f g signals v (unheard none_) = omega arith
effort_heard n rounds k f g signals v (wakes j e) =
    let w : in_wait (f j).stage ≡ true = ground (arith, e) in
    let lt = ((v j).going (waits_going (f j).stage w)).1 in
    omega (
      arith,
      total-update (effort rounds) n f j (at (wake (f j).stage) (f j)) lt,
      wake_effort (f j).stage,
    )

-- A philosopher that gets the mutex of its fork waits, or its call returns 0.
abbrev pub Goes : Option ForkCall → Type 0
Goes r =
    ((c : Fork) × (r ≡ some (waits c)))
    ⊎ ((c : Fork) × (signals : Bool) × (r ≡ some (returned c signals 0)))

Goes-if :
    (test : Bool) (a c : Fork) (signals : Bool)
    → Goes (some (if test then waits a else returned c signals 0))
Goes-if true a c signals = inl (a, refl)
Goes-if false a c signals = inr (c, signals, refl)

module _ (f : Fork) (h s a : ℕ) (v : ForkOk f h s a) where
  pub up-Goes : (st : Stage) → in_wait st ≡ false → Goes (philosopher_thread st f)
  up-Goes begins u = rw (get_lem f h s a v) (Goes-if _ _ _ _)
  up-Goes wakes_first u = rw (woken_lem f h s a v) (Goes-if _ _ _ _)
  up-Goes begins_second u = rw (get_lem f h s a v) (Goes-if _ _ _ _)
  up-Goes wakes_second u = rw (woken_lem f h s a v) (Goes-if _ _ _ _)
  up-Goes eats u = rw (put_lem f h s a v) (inr (_, _, refl))
  up-Goes puts_right u = rw (put_lem f h s a v) (inr (_, _, refl))
  up-Goes sleeps_first u = cc u
  up-Goes sleeps_second u = cc u

-- A signal can be sent at any time.
pub can_signal :
    (n rounds k : ℕ) (f : ℕ → Philosopher) (signals : Bool)
    → ((j : ℕ) → Fits n rounds j (f j))
    → (g : ℕ → Philosopher) × ForkSignals k f signals g
can_signal n rounds k f false v = (f, uncalled)
can_signal n rounds k f true v = elim (one_or_none (sleeps_on k) n f) [
  | inl found ↦ (update f found.0 (at (wake (f found.0).stage) (f found.0)), wakes found.0 found.2)
  | inr none_ ↦ (
    f,
    unheard (λ j. elim (Bool-cases (sleeps_on k (f j))) [
      | inl e ↦
          let w : in_wait (f j).stage ≡ true = ground (arith, e) in
          let lt = ((v j).going (waits_going (f j).stage w)).1 in cc (e, none_ j lt)
      | inr e ↦ e
    ]),
  )
]
