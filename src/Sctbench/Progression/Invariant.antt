-- ===== src/Sctbench/Progression/Invariant.antt =====
-- sctbench/concurrent-software-benchmarks/arithmetic_prog_ok.c: what holds between the steps.
use benchamel.Base.{
  ℕ, zero, suc, ◌+◌, ◌*◌, ◌<◌, ◌≤◌, ◌≡◌, ◌≢◌, refl, ap, sym, ◌∙◌, Bool, true, false, arith, Reach,
  Reach-inv,
}
use mathlib.Core.Path.{subst}
use benchamel.Sctbench.Progression.{
  Phase, ready, waiting, changed, ended, State, main, woken, add_to, Step, wait_empty, produce,
  signal_full, end_producer, wait_full, consume, signal_empty, end_consumer, SomeStep, step,
  wake_producer, wake_consumer,
}

-- The sum of the numbers below `n`.
unfoldable pub sum_below : ℕ → ℕ
sum_below zero = 0
sum_below (suc n) = n + sum_below n

pub sum_below_next : (n : ℕ) → sum_below (n + 1) ≡ sum_below n + n
unfolding sum_below
sum_below_next n = ap sum_below {y = suc n} (omega arith) ∙ omega arith

pub sum_below-le : (n : ℕ) → n ≤ 46341 → sum_below n ≤ n * 46341
unfolding sum_below
sum_below-le zero le = omega arith
sum_below-le (suc n) le = omega (arith, sum_below-le n (omega (arith, le)))

pub twice_sum_below : (n : ℕ) → sum_below (n + 1) * 2 ≡ n * (n + 1)
twice_sum_below zero = omega (arith, sum_below_next 0, sum_below-le 0 (omega arith))
twice_sum_below (suc n) = grind (arith, twice_sum_below n, sum_below_next (suc n))

abbrev pub pending : Phase → ℕ
pending changed = 1
pending _ = 0

abbrev pub Fits : ℕ → ℕ → Phase → Type 0
Fits n k ready = k ≤ n
Fits n k ended = k ≡ n
Fits n k _ = k < n

abbrev pub Sums : ℕ → ℕ → ℕ → Phase → Type 0
Sums n j total changed = total ≡ sum_below (j + 1)
Sums n j total ended = total ≡ sum_below (n + 1)
Sums n j total _ = total ≡ sum_below j

abbrev pub is_ended : Phase → Bool
is_ended ended = true
is_ended _ = false

pub record Inv (n : ℕ) (s : State) : Type 0 where
  pub items : s.num + s.j + pending s.consumer ≡ s.i + pending s.producer
  pub one : s.num ≤ 1
  pub rounds : Fits n s.i s.producer × Fits n s.j s.consumer
  pub producer_waits : s.producer ≡ waiting → 1 ≤ s.num + pending s.consumer
  pub consumer_waits : s.consumer ≡ waiting → s.num ≤ pending s.producer
  pub sums : Sums n s.j s.total s.consumer
  pub flagged : s.flag ≡ is_ended s.consumer

add_to_sum : (total j : ℕ) → total ≡ sum_below j → j < 46341 → add_to total j ≡ sum_below (j + 1)
unfolding add_to
add_to_sum total j e lt =
    omega (arith, e, sum_below_next j, sum_below-le (j + 1) (omega (arith, lt)))

woken-pending : (p : Phase) → pending (woken p) ≡ pending p
woken-pending waiting = refl
woken-pending ready = refl
woken-pending changed = refl
woken-pending ended = refl

woken-Fits : (n k : ℕ) (p : Phase) → Fits n k p → Fits n k (woken p)
woken-Fits n k waiting v = omega (arith, v)
woken-Fits n k ready v = v
woken-Fits n k changed v = v
woken-Fits n k ended v = v

woken-Sums : (n j total : ℕ) (p : Phase) → Sums n j total p → Sums n j total (woken p)
woken-Sums n j total waiting v = v
woken-Sums n j total ready v = v
woken-Sums n j total changed v = v
woken-Sums n j total ended v = v

woken-is_ended : (p : Phase) → is_ended (woken p) ≡ is_ended p
woken-is_ended waiting = refl
woken-is_ended ready = refl
woken-is_ended changed = refl
woken-is_ended ended = refl

woken_awake : (p : Phase) → woken p ≢ waiting
woken_awake waiting e = cc e
woken_awake ready e = cc e
woken_awake changed e = cc e
woken_awake ended e = cc e

pub Step-Inv : (n : ℕ) (s t : State) → n < 46341 → Step n s t → Inv n s → Inv n t
Step-Inv n s t few (wait_empty lt e is_one) v = record {
  items = ground (arith, v.items, e);
  one = v.one;
  rounds = (lt, v.rounds.1);
  producer_waits = λ q. omega (arith, is_one);
  consumer_waits = λ q. ground (arith, v.consumer_waits q, e);
  sums = v.sums;
  flagged = v.flagged;
}
Step-Inv n s t few (produce lt e is_zero) v = record {
  items = ground (arith, v.items, e);
  one = omega (arith, is_zero);
  rounds = (lt, v.rounds.1);
  producer_waits = λ q. cc q;
  consumer_waits = λ q. omega (arith, is_zero);
  sums = v.sums;
  flagged = v.flagged;
}
Step-Inv n s t few (signal_full e) v = record {
  items = omega (arith, v.items, woken-pending s.consumer, ap pending e);
  one = v.one;
  rounds =
      (ground (arith, subst (Fits n s.i) e v.rounds.0), woken-Fits n s.j s.consumer v.rounds.1);
  producer_waits = λ q. cc q;
  consumer_waits = λ q. absurd (woken_awake s.consumer q);
  sums = woken-Sums n s.j s.total s.consumer v.sums;
  flagged = v.flagged ∙ sym (woken-is_ended s.consumer);
}
Step-Inv n s t few (end_producer ge e) v =
    let fit = subst (Fits n s.i) e v.rounds.0 in
    record {
      items = omega (arith, v.items, ap pending e);
      one = v.one;
      rounds = (omega (arith, ge, fit), v.rounds.1);
      producer_waits = λ q. cc q;
      consumer_waits = λ q. ground (arith, v.consumer_waits q, e);
      sums = v.sums;
      flagged = v.flagged;
    }
Step-Inv n s t few (wait_full lt e is_zero) v = record {
  items = omega (arith, v.items, ap pending e);
  one = v.one;
  rounds = (v.rounds.0, lt);
  producer_waits = λ q. ground (arith, v.producer_waits q, e);
  consumer_waits = λ q. omega (arith, is_zero);
  sums = subst (Sums n s.j s.total) e v.sums;
  flagged = v.flagged ∙ ap is_ended e;
}
Step-Inv n s t few (consume lt e is_one) v = record {
  items = omega (arith, v.items, ap pending e, is_one);
  one = omega (arith, v.one);
  rounds = (v.rounds.0, lt);
  producer_waits = λ q. omega arith;
  consumer_waits = λ q. cc q;
  sums = add_to_sum s.total s.j (subst (Sums n s.j s.total) e v.sums) (omega (arith, lt, few));
  flagged = v.flagged ∙ ap is_ended e;
}
Step-Inv n s t few (signal_empty e) v =
    let fit = subst (Fits n s.j) e v.rounds.1 in
    record {
      items = omega (arith, v.items, (woken-pending s.producer), ap pending e);
      one = v.one;
      rounds = (woken-Fits n s.i s.producer v.rounds.0, omega (arith, fit));
      producer_waits = λ q. absurd (woken_awake s.producer q);
      consumer_waits = λ q. cc q;
      sums = subst (Sums n s.j s.total) e v.sums;
      flagged = v.flagged ∙ ap is_ended e;
    }
Step-Inv n s t few (end_consumer ge e) v =
    let fit = subst (Fits n s.j) e v.rounds.1 in
    let last : s.j ≡ n = omega (arith, ge, fit) in
    record {
      items = omega (arith, v.items, ap pending e);
      one = v.one;
      rounds = (v.rounds.0, last);
      producer_waits = λ q. ground (arith, v.producer_waits q, e);
      consumer_waits = λ q. cc q;
      sums =
          add_to_sum s.total s.j (subst (Sums n s.j s.total) e v.sums) (omega (arith, last, few))
          ∙ ap (λ k. sum_below (k + 1)) last;
      flagged = refl;
    }

SomeStep-Inv : (n : ℕ) → n < 46341 → (s t : State) → SomeStep n s t → Inv n s → Inv n t
SomeStep-Inv n few s t (step st) v = Step-Inv n s t few st v
SomeStep-Inv n few s t (wake_producer e) v =
    let fit = subst (Fits n s.i) e v.rounds.0 in
    record {
      items = omega (arith, v.items, ap pending e);
      one = v.one;
      rounds = (omega (arith, fit), v.rounds.1);
      producer_waits = λ q. cc q;
      consumer_waits = λ q. ground (arith, v.consumer_waits q, e);
      sums = v.sums;
      flagged = v.flagged;
    }
SomeStep-Inv n few s t (wake_consumer e) v =
    let fit = subst (Fits n s.j) e v.rounds.1 in
    record {
      items = omega (arith, v.items, ap pending e);
      one = v.one;
      rounds = (v.rounds.0, omega (arith, fit));
      producer_waits = λ q. ground (arith, v.producer_waits q, e);
      consumer_waits = λ q. cc q;
      sums = subst (Sums n s.j s.total) e v.sums;
      flagged = v.flagged ∙ ap is_ended e;
    }

pub Reach-Inv : (n : ℕ) (s : State) → n < 46341 → Reach (SomeStep n) main s → Inv n s
unfolding sum_below
Reach-Inv n s few r =
    Reach-inv (SomeStep n) (Inv n) (SomeStep-Inv n few)
      (record {
        items = refl;
        one = omega arith;
        rounds = (omega arith, omega arith);
        producer_waits = λ q. cc q;
        consumer_waits = λ q. cc q;
        sums = refl;
        flagged = refl;
      })
      r
