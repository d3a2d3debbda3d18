-- ===== src/Sctbench/Progression/Laws.antt =====
-- sctbench/concurrent-software-benchmarks/arithmetic_prog_ok.c: its assertion, and its end.
use benchamel.Base.{
  ℕ, ◌+◌, ◌-◌, ◌*◌, ◌/◌, ◌<◌, ◌≤◌, ◌≡◌, refl, ap, sym, ◌∙◌, true, arith, Reach, Terminates,
  kept-Terminates, inl, inr, ◌⊎◌, Bool-cases,
}
use mathlib.Core.Path.{subst}
use native.Mathlib.Decide.{dec_lt, ℕ_discrete}
use benchamel.Sctbench.Progression.{
  Phase, ready, waiting, changed, ended, State, main, woken, Step, wait_empty, produce, signal_full,
  end_producer, wait_full, consume, signal_empty, end_consumer, SomeStep, asserts,
}
use benchamel.Sctbench.Progression.Invariant.{
  sum_below, twice_sum_below, pending, is_ended, Fits, Sums, Inv, Step-Inv, Reach-Inv,
}

Sums-is_ended :
    (n j total : ℕ) (p : Phase) → Sums n j total p → is_ended p ≡ true → total ≡ sum_below (n + 1)
Sums-is_ended n j total ended v e = v
Sums-is_ended n j total p v e = cc e

half : (n total : ℕ) → total ≡ sum_below (n + 1) → total ≡ n * (n + 1) / 2
half n total e = omega (arith, e, twice_sum_below n)

-- For N below 46341, so that N * (N + 1) is an `int`, and however the two threads interleave and
-- wake up: the assertion of `main` holds, and when the consumer has ended, it tests the total.
pub main-asserts :
    (n : ℕ) (s : State)
    → n < 46341
    → Reach (SomeStep n) main s
    → (asserts n s ≡ true) × (s.consumer ≡ ended → s.flag ≡ true)
unfolding asserts
main-asserts n s few r =
    let v = Reach-Inv n s few r in
    let ended_sum = Sums-is_ended n s.j s.total s.consumer v.sums in
    (
      elim (Bool-cases s.flag) [
        | inl over ↦ ground (arith, over, half n s.total (ended_sum (sym v.flagged ∙ over)))
        | inr going ↦ rw going refl
      ],
      λ e. v.flagged ∙ ap is_ended e,
    )

module _ (n : ℕ) (s : State) (few : n < 46341) (v : Inv n s) where
  producer_steps : (s.producer ≡ ready) ⊎ (s.producer ≡ changed) → (t : State) × Step n s t
  producer_steps (inr e) = (_, signal_full e)
  producer_steps (inl e) = elim (dec_lt s.i n) [
    | yes lt ↦ elim (ℕ_discrete s.num 0) [
      | yes is_zero ↦ (_, produce lt e is_zero)
      | no is_one ↦ (_, wait_empty lt e (omega (arith, is_one)))
    ]
    | no ge ↦ (_, end_producer (omega (arith, ge)) e)
  ]

  consumer_steps : (s.consumer ≡ ready) ⊎ (s.consumer ≡ changed) → (t : State) × Step n s t
  consumer_steps (inr e) = (_, signal_empty e)
  consumer_steps (inl e) = elim (dec_lt s.j n) [
    | yes lt ↦ elim (ℕ_discrete s.num 0) [
      | yes is_zero ↦ (_, wait_full lt e is_zero)
      | no is_one ↦ (_, consume lt e (omega (arith, is_one)))
    ]
    | no ge ↦ (_, end_consumer (omega (arith, ge)) e)
  ]

  -- Who can move, for each place of the two threads.
  one_steps :
      (p q : Phase)
      → s.producer ≡ p
      → s.consumer ≡ q
      → ((p ≡ ended) × (q ≡ ended)) ⊎ ((t : State) × Step n s t)
  one_steps ready q e f = inr (producer_steps (inl e))
  one_steps changed q e f = inr (producer_steps (inr e))
  one_steps waiting ready e f = inr (consumer_steps (inl f))
  one_steps waiting changed e f = inr (consumer_steps (inr f))
  one_steps waiting waiting e f =
      absurd (omega (arith, v.producer_waits e, v.consumer_waits f, ap pending e, ap pending f))
  one_steps waiting ended e f = absurd (
      omega (
        arith,
        v.items,
        ap pending e,
        ap pending f,
        v.producer_waits e,
        subst (Fits n s.i) e v.rounds.0,
        subst (Fits n s.j) f v.rounds.1,
      ))
  one_steps ended ready e f = inr (consumer_steps (inl f))
  one_steps ended changed e f = inr (consumer_steps (inr f))
  one_steps ended waiting e f = absurd (
      omega (
        arith,
        v.items,
        ap pending e,
        ap pending f,
        v.consumer_waits f,
        subst (Fits n s.i) e v.rounds.0,
        subst (Fits n s.j) f v.rounds.1,
      ))
  one_steps ended ended e f = inl (refl, refl)

abbrev weight : Phase → ℕ
weight ready = 2
weight ended = 0
weight _ = 1

-- How many steps are left at most, when no wait ends without a signal.
abbrev pub steps_left : ℕ → State → ℕ
steps_left n s = 3 * (n - s.i) + 3 * (n - s.j) + weight s.producer + weight s.consumer

weight-woken : (p : Phase) → weight (woken p) ≤ weight p + 1
weight-woken waiting = omega arith
weight-woken ready = omega arith
weight-woken changed = omega arith
weight-woken ended = omega arith

fewer_left : (n : ℕ) (s t : State) → Inv n s → Step n s t → steps_left n t < steps_left n s
fewer_left n s t v (wait_empty lt e is_one) = omega (arith, ap weight e)
fewer_left n s t v (produce lt e is_zero) = omega (arith, ap weight e)
fewer_left n s t v (signal_full e) =
    omega (arith, ap weight e, weight-woken s.consumer, subst (Fits n s.i) e v.rounds.0)
fewer_left n s t v (end_producer ge e) = omega (arith, ap weight e)
fewer_left n s t v (wait_full lt e is_zero) = omega (arith, ap weight e)
fewer_left n s t v (consume lt e is_one) = omega (arith, ap weight e)
fewer_left n s t v (signal_empty e) =
    omega (arith, ap weight e, weight-woken s.producer, subst (Fits n s.j) e v.rounds.1)
fewer_left n s t v (end_consumer ge e) = omega (arith, ap weight e)

pub record HaveEnded (s : State) : Type 0 where
  pub producer : s.producer ≡ ended
  pub consumer : s.consumer ≡ ended

-- For N below 46341, in every state that the threads can reach, also by wakeups without a signal:
-- either both threads have ended, or one of them can take a step that is no wakeup without a signal;
-- every such step leaves fewer of them to take, of which there are 6 * N + 4 at the start; and some
-- run of such steps leads to the end.
pub main_ends :
    (n : ℕ) (s : State)
    → n < 46341
    → Reach (SomeStep n) main s
    → Terminates (Step n) HaveEnded (steps_left n) s × (steps_left n main ≡ 6 * n + 4)
main_ends n s few r = (
  kept-Terminates (Step n) (Inv n) HaveEnded (steps_left n) (λ t u v st. Step-Inv n t u few st v)
      (λ t v. elim (one_steps n t few v t.producer t.consumer refl refl) [
        | inl (p, c) ↦ inl (record { producer = p; consumer = c })
        | inr goes ↦ inr goes
      ])
      (λ t u v st. fewer_left n t u v st) s (Reach-Inv n s few r),
  omega arith,
)
