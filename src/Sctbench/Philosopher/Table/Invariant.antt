-- ===== src/Sctbench/Philosopher/Table/Invariant.antt =====
-- sctbench/inspect_examples/philosopher.c: what holds between the steps.
use benchamel.Base.{
  ℕ, ◌+◌, ◌<◌, ◌≡◌, refl, sym, arith, Bool, some, inl, inr, update, total, total-zero, Reach,
  Reach-inv,
}
use mathlib.Core.Path.{subst}
use benchamel.Sctbench.Philosopher.{Fork, waits, returned, fork_init}
use benchamel.Sctbench.Philosopher.Forks.{ForkOk, sleep-ForkOk, get-ForkOk, put-ForkOk}
use benchamel.Sctbench.Philosopher.Table.{
  Philosopher, State, seated, main, next_fork, philosopher_thread, waiting_stage, after, at,
  ForkSignals, Step, sleeps, goes_on, SomeStep, step, wake_up,
}
use benchamel.Sctbench.Philosopher.Table.Counts.{same_self, same_other, holding, sleeping, waking}
use benchamel.Sctbench.Philosopher.Table.Moves.{
  Fits, wait-Fits, after-Fits, update-Fits, next_fork-lt, gets-up, puts-up, wait_totals, get_totals,
}
use benchamel.Sctbench.Philosopher.Table.Signals.{
  waits_going, wake-Fits, wake_totals, Signals-Heard, ForkSignals-false, put_totals,
}
use benchamel.Sctbench.Philosopher.Table.Change.{
  forks-update, few_inside, waits-gets, returns-cases, woken_self, woken_other,
}

pub record Inv (n rounds : ℕ) (s : State) : Type 0 where
  pub fits : (i : ℕ) → Fits n rounds i (s.philosophers i)
  pub forks :
      (k : ℕ)
      → k < n
      → ForkOk
          (s.forks k)
          (total (holding k) n s.philosophers)
          (total (sleeping k) n s.philosophers)
          (total (waking k) n s.philosophers)

module _ (n rounds : ℕ) (fits : n + 1 < 2147483648) (s : State) (v : Inv n rounds s) (i : ℕ) where
  sleeps-Inv :
      (c : Fork)
      → i < n
      → (s.philosophers i).num < rounds
      → let p = s.philosophers i in
        let k = next_fork p p.stage in
        philosopher_thread p.stage (s.forks k) ≡ some (waits c)
        → Inv n rounds (record {
          forks = update s.forks k c;
          philosophers = update s.philosophers i (at (waiting_stage p.stage) p);
        })
  sleeps-Inv c lt go e =
      let p = s.philosophers i in
      let k = next_fork p p.stage in
      let g = update s.philosophers i (at (waiting_stage p.stage) p) in
      let k_lt = next_fork-lt n rounds i p p.stage lt (v.fits i) in
      let old = v.forks k k_lt in
      let few = few_inside n k s.philosophers in
      let takes = waits-gets (s.forks k) _ _ _ p.stage c old e in
      let totals = wait_totals n i s.philosophers lt in
      let (th, ts, ta) = totals k takes in
      let one = same_self k k refl in
      let new =
        sleep-ForkOk (s.forks k) _ _ _ old (omega (arith, few, fits)) (total (holding k) n g)
          (total (sleeping k) n g) (total (waking k) n g) p.stage c th (omega (arith, ts, one))
          (omega (arith, ta, woken_self p.stage k)) e in
      record {
        fits =
            update-Fits n rounds i s.philosophers (at (waiting_stage p.stage) p) v.fits
              (wait-Fits n rounds i p (waiting_stage p.stage) lt go (v.fits i));
        forks = forks-update n k s.forks c s.philosophers g v.forks new.1 (λ j ne.
            let (jh, js, ja) = totals j takes in
            let none_ = same_other k j (λ z. ne (sym z)) in
            (jh, omega (arith, js, none_), omega (arith, ja, woken_other p.stage k j ne)));
      }

  goes_on-Inv :
      (c : Fork) (signals : Bool) (g : ℕ → Philosopher)
      → i < n
      → (s.philosophers i).num < rounds
      → let p = s.philosophers i in
        let k = next_fork p p.stage in
        philosopher_thread p.stage (s.forks k) ≡ some (returned c signals 0)
        → ForkSignals k s.philosophers signals g
        → Inv n rounds
            (record { forks = update s.forks k c; philosophers = update g i (after p p.stage) })
  goes_on-Inv c signals g lt go e sig =
      let p = s.philosophers i in
      let k = next_fork p p.stage in
      let k_lt = next_fork-lt n rounds i p p.stage lt (v.fits i) in
      let old = v.forks k k_lt in
      let few : total (sleeping k) n s.philosophers + total (waking k) n s.philosophers + 1
          < 2147483648 =
        omega (arith, few_inside n k s.philosophers, fits) in
      let one = same_self k k refl in
      let heard = Signals-Heard n rounds k i signals s.philosophers g v.fits sig in
      elim (returns-cases (s.forks k) p.stage c signals e) [
        | inl takes ↦
            let f₁ = update s.philosophers i (after p p.stage) in
            let totals = get_totals n i s.philosophers lt in
            let (th, ts, ta) = totals k takes in
            let new =
              get-ForkOk (s.forks k) _ _ _ old few (total (holding k) n f₁)
                (total (sleeping k) n f₁) (total (waking k) n f₁) p.stage c signals takes
                (omega (arith, th, one)) ts (omega (arith, ta, woken_self p.stage k)) e in
            let unchanged = ForkSignals-false k s.philosophers g signals new.0 sig in
            subst
              (λ h. Inv n rounds (record {
                forks = update s.forks k c;
                philosophers = update h i (after p p.stage);
              }))
              (sym unchanged)
              (record {
                fits =
                    update-Fits n rounds i s.philosophers (after p p.stage) v.fits
                      (after-Fits n rounds i p p.stage lt go (gets-up p.stage takes) (v.fits i));
                forks = forks-update n k s.forks c s.philosophers f₁ v.forks new.1 (λ j ne.
                    let (jh, js, ja) = totals j takes in
                    let none_ = same_other k j (λ z. ne (sym z)) in
                    (omega (arith, jh, none_), js, omega (arith, ja, woken_other p.stage k j ne)));
              })
        | inr gives ↦
            let up = puts-up p.stage gives in
            let g₁ = update g i (after p p.stage) in
            let totals = put_totals n i p g lt (heard.self up) gives in
            let (th, ts, ta) = totals k in
            let new =
              put-ForkOk (s.forks k) _ _ _ old few (total (holding k) n g₁)
                (total (sleeping k) n g₁) (total (waking k) n g₁) p.stage c signals gives
                (omega (arith, th, one, heard.held k)) (omega (arith, ts, ta, heard.sum))
                (λ pos called. omega (arith, ta, heard.called called (omega (arith, pos, ts)))) e in
            record {
              fits =
                  update-Fits n rounds i g (after p p.stage) heard.fits
                    (after-Fits n rounds i p p.stage lt go up (v.fits i));
              forks = forks-update n k s.forks c s.philosophers g₁ v.forks new.1 (λ j ne.
                  let (jh, js, ja) = totals j in
                  let none_ = same_other k j (λ z. ne (sym z)) in
                  (
                    omega (arith, jh, none_, heard.held j),
                    omega (arith, js, (heard.others j ne).0),
                    omega (arith, ja, (heard.others j ne).1),
                  ));
            }
      ]

pub Step-Inv :
    (n rounds : ℕ) (s t : State)
    → n + 1 < 2147483648
    → Step n rounds s t
    → Inv n rounds s
    → Inv n rounds t
Step-Inv n rounds s t fits (sleeps i k {f} lt go e h) v =
    let p = s.philosophers i in
    subst
      (λ j.
        philosopher_thread p.stage (s.forks j) ≡ some (waits f)
        → Inv n rounds (record {
          forks = update s.forks j f;
          philosophers = update s.philosophers i (at (waiting_stage p.stage) p);
        }))
      (sym e) (sleeps-Inv n rounds fits s v i f lt go) h
Step-Inv n rounds s t fits (goes_on i k {f} {signals} {g} lt go e h sig) v =
    let p = s.philosophers i in
    subst
      (λ j.
        philosopher_thread p.stage (s.forks j) ≡ some (returned f signals 0)
        → ForkSignals j s.philosophers signals g
        → Inv n rounds
            (record { forks = update s.forks j f; philosophers = update g i (after p p.stage) }))
      (sym e) (goes_on-Inv n rounds fits s v i f signals g lt go) h sig

-- A wakeup without a signal
wake_up-ForkOk :
    (f : Fork) (h s a h₁ s₁ a₁ x : ℕ)
    → ForkOk f h s a
    → h₁ ≡ h
    → s₁ + x ≡ s
    → a₁ ≡ a + x
    → ForkOk f h₁ s₁ a₁
wake_up-ForkOk f h s a h₁ s₁ a₁ x v eh es ea = record {
  is_valid = v.is_valid;
  used = omega (arith, v.used, eh);
  one = omega (arith, v.one, eh);
  waiting = omega (arith, v.waiting, es, ea);
  called = λ pos. omega (arith, v.called (omega (arith, pos, es)), eh, ea);
}

SomeStep-Inv :
    (n rounds : ℕ)
    → n + 1 < 2147483648
    → (s t : State) → SomeStep n rounds s t
    → Inv n rounds s
    → Inv n rounds t
SomeStep-Inv n rounds fits s t (step st) v = Step-Inv n rounds s t fits st v
SomeStep-Inv n rounds fits s t (wake_up i w) v =
    let (go, lt) = (v.fits i).going (waits_going (s.philosophers i).stage w) in
    record {
      fits = wake-Fits n rounds i s.philosophers v.fits w;
      forks = λ k k_lt.
          let (th, ts, ta) = wake_totals n i s.philosophers lt w k in
          wake_up-ForkOk (s.forks k) _ _ _ _ _ _ _ (v.forks k k_lt) th ts ta;
    }

main-Inv : (raw : ℕ → Fork) (n rounds : ℕ) → Inv n rounds (main raw n)
unfolding fork_init
main-Inv raw n rounds = record {
  fits = λ i. record {
    id = refl;
    left = refl;
    right = refl;
    num = omega arith;
    going = λ q. absurd (q refl);
  };
  forks = λ k lt.
      let zero_ = λ (w : Philosopher → ℕ) (e : (i : ℕ) → i < n → w (seated n i) ≡ 0).
        total-zero w n (seated n) e in
      record {
        is_valid = refl;
        used = sym (zero_ (holding k) (λ i l. refl));
        one = omega (arith, zero_ (holding k) (λ i l. refl));
        waiting = omega (arith, zero_ (sleeping k) (λ i l. refl), zero_ (waking k) (λ i l. refl));
        called = λ pos. absurd (omega (arith, pos, zero_ (sleeping k) (λ i l. refl)));
      };
}

pub Reach-Inv :
    (raw : ℕ → Fork) (n rounds : ℕ) (s : State)
    → n + 1 < 2147483648
    → Reach (SomeStep n rounds) (main raw n) s
    → Inv n rounds s
Reach-Inv raw n rounds s fits r =
    Reach-inv (SomeStep n rounds) (Inv n rounds) (SomeStep-Inv n rounds fits)
      (main-Inv raw n rounds) r
