-- ===== src/Sctbench/Philosopher/Table/Signals.antt =====
-- sctbench/inspect_examples/philosopher.c: what a signal and a step that puts a fork down change.
use benchamel.Base.{
  ℕ, ◌+◌, ◌<◌, ◌≤◌, ◌≡◌, ◌≢◌, refl, ap, arith, Bool, true, false, ◌&&◌, ◌==◌, update, update_other,
  total, total-update, total-zero,
}
use benchamel.Sctbench.Philosopher.Table.{
  Stage, begins, sleeps_first, sleeps_second, eats, puts_right, Philosopher, next_fork, after, wake,
  in_wait, at, ForkSignals, uncalled, unheard, wakes,
}
use benchamel.Sctbench.Philosopher.Table.Counts.{
  same, same_self, same_other, slept, woken_for, holding, sleeping, waking, puts, up-slept,
  put-held, after-slept, after-woken, wake-held, wake-slept, wake-woken,
}
use benchamel.Sctbench.Philosopher.Table.Moves.{Fits, wait-Fits, update-Fits, puts-up}

pub waits_going : (s : Stage) → in_wait s ≡ true → s ≢ begins
waits_going s w e = cc (ap in_wait e, w)

pub wake-Fits :
    (n rounds i : ℕ) (f : ℕ → Philosopher)
    → ((j : ℕ) → Fits n rounds j (f j))
    → in_wait (f i).stage ≡ true
    → (j : ℕ) → Fits n rounds j (update f i (at (wake (f i).stage) (f i)) j)
wake-Fits n rounds i f v w =
    let (go, lt) = (v i).going (waits_going (f i).stage w) in
    update-Fits n rounds i f (at (wake (f i).stage) (f i)) v
      (wait-Fits n rounds i (f i) (wake (f i).stage) lt go (v i))

-- A philosopher that wakes up, with a signal or without
module _ (n i : ℕ) (f : ℕ → Philosopher) (lt : i < n) (w : in_wait (f i).stage ≡ true) (j : ℕ) where
  pub wake_totals :
      let f₁ = update f i (at (wake (f i).stage) (f i)) in
      let k = next_fork (f i) (f i).stage in
      (total (holding j) n f₁ ≡ total (holding j) n f)
      × (total (sleeping j) n f₁ + same k j ≡ total (sleeping j) n f)
      × (total (waking j) n f₁ ≡ total (waking j) n f + same k j)
  wake_totals =
      let p₁ = at (wake (f i).stage) (f i) in
      let (woken, slept_, none_) = wake-woken (f i) j (f i).stage w in
      (
        omega (arith, total-update (holding j) n f i p₁ lt, wake-held (f i) j (f i).stage),
        omega (
          arith,
          total-update (sleeping j) n f i p₁ lt,
          wake-slept (f i) j (f i).stage w,
          slept_,
        ),
        omega (arith, total-update (waking j) n f i p₁ lt, woken, none_),
      )

slept_other :
    (k : ℕ) (p : Philosopher) (s : Stage)
    → (in_wait s && (next_fork p s == k)) ≡ false
    → slept k p s ≡ 0
slept_other k p sleeps_first e = same_other (next_fork p sleeps_first) k (ground (arith, e))
slept_other k p sleeps_second e = same_other (next_fork p sleeps_second) k (ground (arith, e))
slept_other k p s e = refl

pub record Heard (n rounds k i : ℕ) (signals : Bool) (f g : ℕ → Philosopher) : Type 0 where
  pub fits : (j : ℕ) → Fits n rounds j (g j)
  pub held : (j : ℕ) → total (holding j) n g ≡ total (holding j) n f
  pub others :
      (j : ℕ)
      → j ≢ k
      → (total (sleeping j) n g ≡ total (sleeping j) n f)
        × (total (waking j) n g ≡ total (waking j) n f)
  pub sum :
      total (sleeping k) n g + total (waking k) n g ≡ total (sleeping k) n f + total (waking k) n f
  pub called : signals ≡ true → 0 < total (sleeping k) n g → 1 ≤ total (waking k) n g
  pub self : in_wait (f i).stage ≡ false → g i ≡ f i

pub Signals-Heard :
    (n rounds k i : ℕ) (signals : Bool) (f g : ℕ → Philosopher)
    → ((j : ℕ) → Fits n rounds j (f j))
    → ForkSignals k f signals g
    → Heard n rounds k i signals f g
Signals-Heard n rounds k i signals f g v uncalled = record {
  fits = v;
  held = λ j. refl;
  others = λ j ne. (refl, refl);
  sum = refl;
  called = λ e. cc e;
  self = λ u. refl;
}
Signals-Heard n rounds k i signals f g v (unheard none_) =
    let zero_ = total-zero (sleeping k) n f (λ j lt. slept_other k (f j) (f j).stage (none_ j)) in
    record {
      fits = v;
      held = λ j. refl;
      others = λ j ne. (refl, refl);
      sum = refl;
      called = λ e pos. absurd (omega (arith, pos, zero_));
      self = λ u. refl;
    }
Signals-Heard n rounds k i signals f g v (wakes q e) =
    let w : in_wait (f q).stage ≡ true = ground (arith, e) in
    let here_ : next_fork (f q) (f q).stage ≡ k = ground (arith, e) in
    let lt = ((v q).going (waits_going (f q).stage w)).1 in
    let here_totals = wake_totals n q f lt w k in
    let one = same_self (next_fork (f q) (f q).stage) k here_ in
    record {
      fits = wake-Fits n rounds q f v w;
      held = λ j. (wake_totals n q f lt w j).0;
      others = λ j ne.
          let t = wake_totals n q f lt w j in
          let none_ =
            same_other (next_fork (f q) (f q).stage) j (λ z. ne (omega (arith, z, here_))) in
          (omega (arith, t.1, none_), omega (arith, t.2, none_));
      sum = omega (arith, here_totals.1, here_totals.2);
      called = λ s pos. omega (arith, here_totals.2, one);
      self = λ u.
          update_other f q i (at (wake (f q).stage) (f q))
            (λ z. cc (ap (λ x. in_wait (f x).stage) z, w, u));
    }

pub ForkSignals-false :
    (k : ℕ) (f g : ℕ → Philosopher) (signals : Bool)
    → signals ≡ false
    → ForkSignals k f signals g
    → g ≡ f
ForkSignals-false k f g signals e uncalled = refl
ForkSignals-false k f g signals e (unheard none_) = cc e
ForkSignals-false k f g signals e (wakes q s) = cc e

put-woken : (p : Philosopher) (j : ℕ) (s : Stage) → puts s ≡ true → woken_for j p s ≡ 0
put-woken p j eats c = refl
put-woken p j puts_right c = refl
put-woken p j s c = cc c

-- A philosopher that puts a fork down, after the signal
module _ (n i : ℕ) (p : Philosopher) (g : ℕ → Philosopher) (lt : i < n) (e : g i ≡ p)
    (c : puts p.stage ≡ true) (j : ℕ) where
  pub put_totals :
      let g₁ = update g i (after p p.stage) in
      let k = next_fork p p.stage in
      (total (holding j) n g₁ + same k j ≡ total (holding j) n g)
      × (total (sleeping j) n g₁ ≡ total (sleeping j) n g)
      × (total (waking j) n g₁ ≡ total (waking j) n g)
  put_totals =
      let p₁ = after p p.stage in
      let up = puts-up p.stage c in
      (
        omega
            (arith, total-update (holding j) n g i p₁ lt, put-held p j p.stage c, ap (holding j) e),
        omega (
          arith,
          total-update (sleeping j) n g i p₁ lt,
          after-slept p j p.stage up,
          up-slept p j p.stage up,
          ap (sleeping j) e,
        ),
        omega (
          arith,
          total-update (waking j) n g i p₁ lt,
          after-woken p j p.stage up,
          put-woken p j p.stage c,
          ap (waking j) e,
        ),
      )
