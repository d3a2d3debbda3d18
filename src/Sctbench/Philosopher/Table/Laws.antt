-- ===== src/Sctbench/Philosopher/Table/Laws.antt =====
-- sctbench/inspect_examples/philosopher.c: a fork is held by one philosopher at a time, and all
-- philosophers end.
use benchamel.Base.{
  ℕ, ◌+◌, ◌*◌, ◌<◌, ◌≤◌, ◌≡◌, ◌≢◌, refl, sym, ap, arith, true, false, ◌⊎◌, inl, inr, total,
  total-all, total-two, one_or_none, Reach, Terminates, kept-Terminates,
}
use benchamel.Sctbench.Philosopher.{Fork, fork_destroy}
use benchamel.Sctbench.Philosopher.Forks.{ForkOk}
use benchamel.Sctbench.Philosopher.Table.{
  all_well, begins, eats, puts_right, State, seated, main, next_fork, in_wait, Step, sleeps,
  goes_on, SomeStep,
}
use benchamel.Sctbench.Philosopher.Table.Counts.{same_self, held, holding, sleeping, waking}
use benchamel.Sctbench.Philosopher.Table.Moves.{next_fork-lt}
use benchamel.Sctbench.Philosopher.Table.Signals.{Signals-Heard}
use benchamel.Sctbench.Philosopher.Table.Change.{waits-gets, returns-up}
use benchamel.Sctbench.Philosopher.Table.Effort.{
  effort, effort_waiting, effort_after, effort_heard, up-Goes, can_signal,
}
use benchamel.Sctbench.Philosopher.Table.Rest.{can_go, all_ended, all_free}
use benchamel.Sctbench.Philosopher.Table.Invariant.{Inv, Step-Inv, Reach-Inv}

pub record IsExclusive (n : ℕ) (s : State) : Type 0 where
  pub held : (k : ℕ) → k < n → (s.forks k).being_used ≡ total (holding k) n s.philosophers
  pub one : (k : ℕ) → k < n → total (holding k) n s.philosophers ≤ 1
  pub waiting :
      (k : ℕ)
      → k < n
      → (s.forks k).waiting
        ≡ total (sleeping k) n s.philosophers + total (waking k) n s.philosophers
  pub neighbours :
      (i : ℕ)
      → i < n
      → (s.philosophers i).right ≢ i
      → (s.philosophers i).stage ≡ eats
      → (s.philosophers (s.philosophers i).right).stage ≢ eats

module _ (n rounds : ℕ) (s : State) (v : Inv n rounds s) where
  eaters_apart :
      (i : ℕ)
      → i < n
      → (s.philosophers i).right ≢ i
      → (s.philosophers i).stage ≡ eats
      → (s.philosophers (s.philosophers i).right).stage ≢ eats
  eaters_apart i lt ne here_ there =
      let p = s.philosophers i in
      let k = p.right in
      let k_lt = next_fork-lt n rounds i p puts_right lt (v.fits i) in
      let both = total-two (holding k) n s.philosophers i k lt k_lt (λ z. ne (sym z)) in
      let mine = ap (held k p) here_ in
      let yours = ap (held k (s.philosophers k)) there in
      let right_ = same_self p.right k refl in
      let left_ = same_self (s.philosophers k).left k (v.fits k).left in
      omega (arith, both, mine, yours, right_, left_, (v.forks k k_lt).one)

  Inv-IsExclusive : IsExclusive n s
  Inv-IsExclusive = record {
    held = λ k lt. (v.forks k lt).used;
    one = λ k lt. (v.forks k lt).one;
    waiting = λ k lt. (v.forks k lt).waiting;
    neighbours = eaters_apart;
  }

-- How many steps the philosophers can still take, if no wait ends without a signal.
abbrev pub steps_left : ℕ → ℕ → State → ℕ
steps_left n rounds s = total (effort rounds) n s.philosophers

pub record IsOver (n rounds : ℕ) (s : State) : Type 0 where
  pub ended :
      (i : ℕ) → i < n → ((s.philosophers i).stage ≡ begins) × ((s.philosophers i).num ≡ rounds)
  pub destroyed : (k : ℕ) → k < n → (fork_destroy all_well (s.forks k)).1 ≡ 0

destroy_free : (f : Fork) → ForkOk f 0 0 0 → (fork_destroy all_well f).1 ≡ 0
unfolding fork_destroy
destroy_free f v = ground (arith, v.is_valid, v.used, v.waiting)

module _ (n rounds : ℕ) (s : State) (v : Inv n rounds s) where
  Step-effort : (t : State) → Step n rounds s t → steps_left n rounds t < steps_left n rounds s
  Step-effort t (sleeps i k {f} lt go e h) =
      let p = s.philosophers i in
      let k_lt : k < n = omega (arith, e, next_fork-lt n rounds i p p.stage lt (v.fits i)) in
      effort_waiting n rounds s.philosophers i lt
        (waits-gets (s.forks k) _ _ _ p.stage f (v.forks k k_lt) h)
  Step-effort t (goes_on i k {f} {signals} {g} lt go e h sig) =
      let p = s.philosophers i in
      let up = returns-up (s.forks k) p.stage f signals h in
      let self = (Signals-Heard n rounds k i signals s.philosophers g v.fits sig).self up in
      omega (
        arith,
        effort_after n rounds g i lt p self go up,
        effort_heard n rounds k s.philosophers g signals v.fits sig,
      )

  go-Step :
      (i : ℕ) → i < n → can_go rounds (s.philosophers i) ≡ true → (t : State) × Step n rounds s t
  go-Step i lt e =
      let p = s.philosophers i in
      let k = next_fork p p.stage in
      let up : in_wait p.stage ≡ false = ground (arith, e) in
      let go : p.num < rounds = ground (arith, e) in
      elim (up-Goes (s.forks k) _ _ _ (v.forks k (next_fork-lt n rounds i p p.stage lt (v.fits i)))
        p.stage up) [
          | inl (c, h) ↦ (_, sleeps i k lt go refl h)
          | inr (c, signals, h) ↦
              let (g, sig) = can_signal n rounds k s.philosophers signals v.fits in
              (_, goes_on i k lt go refl h sig)
        ]

  rest-IsOver :
      2 ≤ n → ((i : ℕ) → i < n → can_go rounds (s.philosophers i) ≡ false) → IsOver n rounds s
  rest-IsOver two still = record {
    ended = all_ended n rounds two s v still;
    destroyed = λ k lt.
        let (h, a, w) = all_free n rounds two s v still k in
        destroy_free (s.forks k) (record {
          is_valid = (v.forks k lt).is_valid;
          used = omega (arith, (v.forks k lt).used, h);
          one = omega arith;
          waiting = omega (arith, (v.forks k lt).waiting, a, w);
          called = λ pos. absurd (omega (arith, pos));
        });
  }

main_effort :
    (raw : ℕ → Fork) (n rounds : ℕ) → steps_left n rounds (main raw n) ≡ n * (10 * rounds + 9)
main_effort raw n rounds =
    total-all (effort rounds) (10 * rounds + 9) n (seated n) (λ i lt. omega arith)

-- For fewer than 2^31 - 1 philosophers, any number of rounds and forks that hold anything before
-- `fork_init`, however the philosophers interleave and wake up, with or without a signal:
-- `being_used` of a fork is the number of the philosophers that hold it, which is 0 or 1;
-- `waiting` is the number of those that have begun to wait for it and have not gone on; and a
-- philosopher that eats has a right neighbour, if another one, that does not eat.
pub main-IsExclusive :
    (raw : ℕ → Fork) (n rounds : ℕ) (s : State)
    → n + 1 < 2147483648
    → Reach (SomeStep n rounds) (main raw n) s
    → IsExclusive n s
main-IsExclusive raw n rounds s few r = Inv-IsExclusive n rounds s (Reach-Inv raw n rounds s few r)

goes_or-IsOver :
    (n rounds : ℕ) (s : State)
    → 2 ≤ n
    → Inv n rounds s
    → IsOver n rounds s ⊎ ((t : State) × Step n rounds s t)
goes_or-IsOver n rounds s two v = elim (one_or_none (can_go rounds) n s.philosophers) [
  | inl (i, lt, e) ↦ inr (go-Step n rounds s v i lt e)
  | inr still ↦ inl (rest-IsOver n rounds s v two still)
]

-- For two philosophers or more and fewer than 2^31 - 1, in every state that they can reach: either
-- all of them have done all their rounds and `fork_destroy` returns 0 for every fork, or some
-- philosopher can take a step that is no wakeup without a signal; every such step leaves fewer of
-- them to take, of which there are `n * (10 * rounds + 9)` at the start; and some run of such steps
-- leads to the end.
pub all_eaten-IsOver :
    (raw : ℕ → Fork) (n rounds : ℕ) (s : State)
    → 2 ≤ n
    → n + 1 < 2147483648
    → Reach (SomeStep n rounds) (main raw n) s
    → Terminates (Step n rounds) (IsOver n rounds) (steps_left n rounds) s
      × (steps_left n rounds (main raw n) ≡ n * (10 * rounds + 9))
all_eaten-IsOver raw n rounds s two few r = (
  kept-Terminates (Step n rounds) (Inv n rounds) (IsOver n rounds) (steps_left n rounds)
      (λ t u v st. Step-Inv n rounds t u few st v) (λ t. goes_or-IsOver n rounds t two)
      (λ t u v st. Step-effort n rounds t v u st) s (Reach-Inv raw n rounds s few r),
  main_effort raw n rounds,
)
