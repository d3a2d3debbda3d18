-- ===== src/Sctbench/Philosopher/Table/Change.antt =====
-- sctbench/inspect_examples/philosopher.c: how a change of one fork and of one philosopher
-- shows in the counts.
use benchamel.Base.{
  ℕ, ◌+◌, ◌<◌, ◌≤◌, ◌≡◌, ◌≢◌, refl, sym, arith, Bool, true, false, some, ◌⊎◌, inl, inr, update,
  update_same, update_other, total, total-le, total-plus,
}
use mathlib.Core.Path.{subst}
use native.Mathlib.Decide.{ℕ_discrete}
use benchamel.Sctbench.Philosopher.{Fork, waits, returned}
use benchamel.Sctbench.Philosopher.Forks.{ForkOk, awakes, put_lem}
use benchamel.Sctbench.Philosopher.Table.{
  Stage, begins, sleeps_first, wakes_first, begins_second, sleeps_second, wakes_second, eats,
  puts_right, Philosopher, next_fork, philosopher_thread, in_wait,
}
use benchamel.Sctbench.Philosopher.Table.Counts.{
  same_self, same-le, slept, woken_for, holding, sleeping, waking, gets, puts,
}
use benchamel.Sctbench.Philosopher.Table.Moves.{gets-up, puts-up, woken_at}

pub ForkOk-eq :
    (f g : Fork) (h s a h₁ s₁ a₁ : ℕ)
    → ForkOk f h s a
    → g ≡ f
    → h₁ ≡ h
    → s₁ ≡ s
    → a₁ ≡ a
    → ForkOk g h₁ s₁ a₁
ForkOk-eq f g h s a h₁ s₁ a₁ v ef eh es ea =
    subst (λ d. ForkOk d h₁ s₁ a₁) (sym ef)
      (record {
        is_valid = v.is_valid;
        used = omega (arith, v.used, eh);
        one = omega (arith, v.one, eh);
        waiting = omega (arith, v.waiting, es, ea);
        called = λ pos. omega (arith, v.called (omega (arith, pos, es)), eh, ea);
      })

-- One fork changes, and the counts of that fork alone.
pub forks-update :
    (n k : ℕ) (forks : ℕ → Fork) (c : Fork) (f g : ℕ → Philosopher)
    → ((j : ℕ)
        → j < n
        → ForkOk (forks j) (total (holding j) n f) (total (sleeping j) n f) (total (waking j) n f))
    → ForkOk c (total (holding k) n g) (total (sleeping k) n g) (total (waking k) n g)
    → ((j : ℕ)
        → j ≢ k
        → (total (holding j) n g ≡ total (holding j) n f)
          × (total (sleeping j) n g ≡ total (sleeping j) n f)
          × (total (waking j) n g ≡ total (waking j) n f))
    → (j : ℕ) → j < n
    → ForkOk
        (update forks k c j)
        (total (holding j) n g)
        (total (sleeping j) n g)
        (total (waking j) n g)
forks-update n k forks c f g v w others j lt = elim (ℕ_discrete k j) [
  | yes e ↦
      subst
        (λ x.
          ForkOk (update forks k c x) (total (holding x) n g) (total (sleeping x) n g)
            (total (waking x) n g))
        e
        (ForkOk-eq c (update forks k c k) _ _ _ _ _ _ w (update_same forks k k c refl) refl refl
          refl)
  | no ne ↦
      let (eh, es, ea) = others j (λ z. ne (sym z)) in
      ForkOk-eq (forks j) (update forks k c j) _ _ _ _ _ _ (v j lt) (update_other forks k j c ne) eh
        es ea
]

inside-le : (k : ℕ) (p : Philosopher) (s : Stage) → slept k p s + woken_for k p s ≤ 1
inside-le k p sleeps_first = omega (arith, same-le (next_fork p sleeps_first) k)
inside-le k p sleeps_second = omega (arith, same-le (next_fork p sleeps_second) k)
inside-le k p wakes_first = omega (arith, same-le (next_fork p wakes_first) k)
inside-le k p wakes_second = omega (arith, same-le (next_fork p wakes_second) k)
inside-le k p s = omega arith

pub few_inside : (n k : ℕ) (f : ℕ → Philosopher) → total (sleeping k) n f + total (waking k) n f ≤ n
few_inside n k f = omega (
  arith,
  total-plus (sleeping k) (waking k) n f,
  total-le (λ (p : Philosopher). sleeping k p + waking k p) 1 n f
      (λ i lt. inside-le k (f i) (f i).stage),
)

pub waits-gets :
    (f : Fork) (h s a : ℕ) (st : Stage) (c : Fork)
    → ForkOk f h s a
    → philosopher_thread st f ≡ some (waits c)
    → gets st ≡ true
waits-gets f h s a eats c v e = let p = put_lem f h s a v in cc (e, p)
waits-gets f h s a puts_right c v e = let p = put_lem f h s a v in cc (e, p)
waits-gets f h s a sleeps_first c v e = cc e
waits-gets f h s a sleeps_second c v e = cc e
waits-gets f h s a begins c v e = refl
waits-gets f h s a wakes_first c v e = refl
waits-gets f h s a begins_second c v e = refl
waits-gets f h s a wakes_second c v e = refl

pub returns-cases :
    (f : Fork) (st : Stage) (c : Fork) (signals : Bool)
    → philosopher_thread st f ≡ some (returned c signals 0)
    → (gets st ≡ true) ⊎ (puts st ≡ true)
returns-cases f begins c signals e = inl refl
returns-cases f wakes_first c signals e = inl refl
returns-cases f begins_second c signals e = inl refl
returns-cases f wakes_second c signals e = inl refl
returns-cases f eats c signals e = inr refl
returns-cases f puts_right c signals e = inr refl
returns-cases f sleeps_first c signals e = cc e
returns-cases f sleeps_second c signals e = cc e

pub woken_self : (s : Stage) (k : ℕ) → woken_at s k k ≡ awakes s
woken_self s k = ground (arith, same_self k k refl)

pub woken_other : (s : Stage) (k j : ℕ) → j ≢ k → woken_at s k j ≡ 0
woken_other s k j ne = ground (arith, ne)

pub returns-up :
    (f : Fork) (st : Stage) (c : Fork) (signals : Bool)
    → philosopher_thread st f ≡ some (returned c signals 0)
    → in_wait st ≡ false
returns-up f st c signals e = elim (returns-cases f st c signals e) [
  | inl g ↦ gets-up st g
  | inr g ↦ puts-up st g
]
