-- ===== src/Sctbench/Philosopher/Table/Moves.antt =====
-- sctbench/inspect_examples/philosopher.c: what a step changes in the counts of each fork.
use benchamel.Base.{
  ℕ, ◌+◌, ◌-◌, ◌<◌, ◌≤◌, ◌≡◌, ◌≢◌, refl, sym, arith, true, false, not, ◌==◌, if◌then◌else◌, update,
  update_same, update_other, total, total-update,
}
use mathlib.Core.Path.{subst}
use native.Mathlib.Decide.{ℕ_discrete}
use benchamel.Sctbench.Philosopher.Table.{
  Stage, begins, sleeps_first, wakes_first, begins_second, sleeps_second, wakes_second, eats,
  puts_right, Philosopher, next_fork, waiting_stage, after, in_wait, at,
}
use benchamel.Sctbench.Philosopher.Table.Counts.{
  same, holding, sleeping, waking, gets, puts, is_awake, wait-held, wait-slept, wait-woken,
  up-slept, woken-eq, get-held, after-slept, after-woken,
}

-- What holds of a philosopher alone.
pub record Fits (n rounds i : ℕ) (p : Philosopher) : Type 0 where
  pub id : p.id ≡ i
  pub left : p.left ≡ i
  pub right : p.right ≡ (if not (i == n - 1) then i + 1 else 0)
  pub num : p.num ≤ rounds
  pub going : p.stage ≢ begins → (p.num < rounds) × (i < n)

pub wait-Fits :
    (n rounds i : ℕ) (p : Philosopher) (s : Stage)
    → i < n
    → p.num < rounds
    → Fits n rounds i p
    → Fits n rounds i (at s p)
wait-Fits n rounds i p s lt go v = record {
  id = v.id;
  left = v.left;
  right = v.right;
  num = v.num;
  going = λ q. (go, lt);
}

pub after-Fits :
    (n rounds i : ℕ) (p : Philosopher) (s : Stage)
    → i < n
    → p.num < rounds
    → in_wait s ≡ false
    → Fits n rounds i p
    → Fits n rounds i (after p s)
after-Fits n rounds i p puts_right lt go u v = record {
  id = v.id;
  left = v.left;
  right = v.right;
  num = omega (arith, go);
  going = λ q. absurd (q refl);
}
after-Fits n rounds i p begins lt go u v = wait-Fits n rounds i p begins_second lt go v
after-Fits n rounds i p wakes_first lt go u v = wait-Fits n rounds i p begins_second lt go v
after-Fits n rounds i p begins_second lt go u v = wait-Fits n rounds i p eats lt go v
after-Fits n rounds i p wakes_second lt go u v = wait-Fits n rounds i p eats lt go v
after-Fits n rounds i p eats lt go u v = wait-Fits n rounds i p puts_right lt go v
after-Fits n rounds i p sleeps_first lt go u v = cc u
after-Fits n rounds i p sleeps_second lt go u v = cc u

pub update-Fits :
    (n rounds i : ℕ) (f : ℕ → Philosopher) (p : Philosopher)
    → ((j : ℕ) → Fits n rounds j (f j))
    → Fits n rounds i p
    → (j : ℕ) → Fits n rounds j (update f i p j)
update-Fits n rounds i f p v w j = elim (ℕ_discrete i j) [
  | yes e ↦
      subst (Fits n rounds j) (sym (update_same f i j p e)) (subst (λ k. Fits n rounds k p) e w)
  | no ne ↦ subst (Fits n rounds j) (sym (update_other f i j p ne)) (v j)
]

pub next_fork-lt :
    (n rounds i : ℕ) (p : Philosopher) (s : Stage) → i < n → Fits n rounds i p → next_fork p s < n
next_fork-lt n rounds i p s lt v =
    let left : p.left < n = omega (arith, v.left, lt) in
    let right : p.right < n = ground (arith, v.right, lt) in
    elim s as (λ t. next_fork p t < n) [
      | begins ↦ ground (arith, left, right)
      | sleeps_first ↦ ground (arith, left, right)
      | wakes_first ↦ ground (arith, left, right)
      | begins_second ↦ ground (arith, left, right)
      | sleeps_second ↦ ground (arith, left, right)
      | wakes_second ↦ ground (arith, left, right)
      | eats ↦ left
      | puts_right ↦ right
    ]

pub gets-up : (s : Stage) → gets s ≡ true → in_wait s ≡ false
gets-up begins g = refl
gets-up wakes_first g = refl
gets-up begins_second g = refl
gets-up wakes_second g = refl
gets-up s g = cc g

pub puts-up : (s : Stage) → puts s ≡ true → in_wait s ≡ false
puts-up eats g = refl
puts-up puts_right g = refl
puts-up s g = cc g

-- The fork that the philosopher was woken for, as a count
abbrev pub woken_at : Stage → ℕ → ℕ → ℕ
woken_at s k j = if is_awake s then same k j else 0

module _ (n i : ℕ) (f : ℕ → Philosopher) (lt : i < n) (j : ℕ) where
  pub wait_totals :
      gets (f i).stage ≡ true
      → let f₁ = update f i (at (waiting_stage (f i).stage) (f i)) in
        let k = next_fork (f i) (f i).stage in
        (total (holding j) n f₁ ≡ total (holding j) n f)
        × (total (sleeping j) n f₁ ≡ total (sleeping j) n f + same k j)
        × (total (waking j) n f₁ + woken_at (f i).stage k j ≡ total (waking j) n f)
  wait_totals g =
      let p₁ = at (waiting_stage (f i).stage) (f i) in
      let up = gets-up (f i).stage g in
      (
        omega (arith, total-update (holding j) n f i p₁ lt, wait-held (f i) j (f i).stage g),
        omega (
          arith,
          total-update (sleeping j) n f i p₁ lt,
          wait-slept (f i) j (f i).stage g,
          up-slept (f i) j (f i).stage up,
        ),
        omega (
          arith,
          total-update (waking j) n f i p₁ lt,
          wait-woken (f i) j (f i).stage g,
          woken-eq (f i) j (f i).stage up,
        ),
      )

  pub get_totals :
      gets (f i).stage ≡ true
      → let f₁ = update f i (after (f i) (f i).stage) in
        let k = next_fork (f i) (f i).stage in
        (total (holding j) n f₁ ≡ total (holding j) n f + same k j)
        × (total (sleeping j) n f₁ ≡ total (sleeping j) n f)
        × (total (waking j) n f₁ + woken_at (f i).stage k j ≡ total (waking j) n f)
  get_totals g =
      let p₁ = after (f i) (f i).stage in
      let up = gets-up (f i).stage g in
      (
        omega (arith, total-update (holding j) n f i p₁ lt, get-held (f i) j (f i).stage g),
        omega (
          arith,
          total-update (sleeping j) n f i p₁ lt,
          after-slept (f i) j (f i).stage up,
          up-slept (f i) j (f i).stage up,
        ),
        omega (
          arith,
          total-update (waking j) n f i p₁ lt,
          after-woken (f i) j (f i).stage up,
          woken-eq (f i) j (f i).stage up,
        ),
      )
