-- ===== src/Sctbench/Philosopher/Forks.antt =====
-- sctbench/inspect_examples/philosopher.c: what the calls do to a fork that some philosophers hold,
-- wait for or are about to take.
use benchamel.Base.{
  ℕ, ◌+◌, ◌<◌, ◌≤◌, ◌≡◌, ◌≢◌, arith, Bool, true, false, ltb, some, ◌==◌, if◌then◌else◌,
}
use mathlib.Core.Path.{subst}
use benchamel.Sctbench.Philosopher.{
  fork_valid, Fork, waits, returned, is_positive, int_plus, int_minus, get_finish, fork_get,
  fork_woken, fork_putdown,
}
use benchamel.Sctbench.Philosopher.Table.{
  all_well, Stage, begins, sleeps_first, wakes_first, begins_second, sleeps_second, wakes_second,
  eats, puts_right, philosopher_thread,
}
use benchamel.Sctbench.Philosopher.Table.Counts.{gets, puts, is_awake}

-- Of the philosophers, `h` hold the fork, `s` sleep in its wait and `a` have been woken from it.
pub record ForkOk (f : Fork) (h s a : ℕ) : Type 0 where
  pub is_valid : f.valid ≡ fork_valid
  pub used : f.being_used ≡ h
  pub one : h ≤ 1
  pub waiting : f.waiting ≡ s + a
  -- Where some sleep, the fork is held or one of them has been woken.
  pub called : 0 < s → 1 ≤ h + a

abbrev pub awakes : Stage → ℕ
awakes s = if is_awake s then 1 else 0

module _ (f : Fork) (h s a : ℕ) (v : ForkOk f h s a) where
  used_lem : is_positive f.being_used ≡ (h == 1)
  used_lem = ground (arith, v.used, v.one)

  pub get_lem : fork_get all_well f ≡ (
      if h == 1
      then waits (record f { waiting = int_plus f.waiting })
      else returned (record f { being_used = 1 }) false 0)
  unfolding fork_get get_finish
  get_lem = ground (arith, v.is_valid, used_lem)

  pub woken_lem : fork_woken all_well f 0 ≡ (
      if h == 1
      then waits f
      else returned (record f { waiting = int_minus f.waiting; being_used = 1 }) false 0)
  unfolding fork_woken get_finish
  woken_lem = ground (arith, used_lem)

  pub put_lem :
      fork_putdown all_well f ≡ returned (record f { being_used = 0 }) (is_positive f.waiting) 0
  unfolding fork_putdown
  put_lem = ground (arith, v.is_valid)

  -- `h₁`, `s₁` and `a₁` count after the step.
  module _ (few : s + a + 1 < 2147483648) (h₁ s₁ a₁ : ℕ) where
    get_waits :
        (c : Fork)
        → h₁ ≡ h
        → s₁ ≡ s + 1
        → a₁ ≡ a
        → fork_get all_well f ≡ waits c
        → (h ≡ 1) × ForkOk c h₁ s₁ a₁
    get_waits c eh es ea e =
        let g = get_lem in
        let busy : h ≡ 1 = ground (arith, e, g) in
        let same : record f { waiting = int_plus f.waiting } ≡ c = ground (arith, e, g) in
        (
          busy,
          subst (λ d. ForkOk d h₁ s₁ a₁) same
              (record {
                is_valid = v.is_valid;
                used = omega (arith, v.used, eh);
                one = omega (arith, v.one, eh);
                waiting = omega (arith, v.waiting, few, es, ea);
                called = λ pos. omega (arith, busy, eh);
              }),
        )

    woken_waits :
        (c : Fork)
        → h₁ ≡ h
        → s₁ ≡ s + 1
        → a₁ + 1 ≡ a
        → fork_woken all_well f 0 ≡ waits c
        → (h ≡ 1) × ForkOk c h₁ s₁ a₁
    woken_waits c eh es ea e =
        let g = woken_lem in
        let busy : h ≡ 1 = ground (arith, e, g) in
        let same : f ≡ c = ground (arith, e, g) in
        (
          busy,
          subst (λ d. ForkOk d h₁ s₁ a₁) same
              (record {
                is_valid = v.is_valid;
                used = omega (arith, v.used, eh);
                one = omega (arith, v.one, eh);
                waiting = omega (arith, v.waiting, es, ea);
                called = λ pos. omega (arith, busy, eh);
              }),
        )

    get_returns :
        (c : Fork) (signals : Bool)
        → h₁ ≡ h + 1
        → s₁ ≡ s
        → a₁ ≡ a
        → fork_get all_well f ≡ returned c signals 0
        → (signals ≡ false) × ForkOk c h₁ s₁ a₁
    get_returns c signals eh es ea e =
        let g = get_lem in
        let free : h ≢ 1 = ground (arith, e, g) in
        let same : record f { being_used = 1 } ≡ c = ground (arith, e, g) in
        (
          ground (arith, e, g),
          subst (λ d. ForkOk d h₁ s₁ a₁) same
              (record {
                is_valid = v.is_valid;
                used = omega (arith, v.one, free, eh);
                one = omega (arith, v.one, free, eh);
                waiting = omega (arith, v.waiting, es, ea);
                called = λ pos. omega (arith, eh);
              }),
        )

    woken_returns :
        (c : Fork) (signals : Bool)
        → h₁ ≡ h + 1
        → s₁ ≡ s
        → a₁ + 1 ≡ a
        → fork_woken all_well f 0 ≡ returned c signals 0
        → (signals ≡ false) × ForkOk c h₁ s₁ a₁
    woken_returns c signals eh es ea e =
        let g = woken_lem in
        let free : h ≢ 1 = ground (arith, e, g) in
        let same : record f { waiting = int_minus f.waiting; being_used = 1 } ≡ c =
          ground (arith, e, g) in
        (
          ground (arith, e, g),
          subst (λ d. ForkOk d h₁ s₁ a₁) same
              (record {
                is_valid = v.is_valid;
                used = omega (arith, v.one, free, eh);
                one = omega (arith, v.one, free, eh);
                waiting = omega (arith, v.waiting, few, es, ea);
                called = λ pos. omega (arith, eh);
              }),
        )

    -- Some who slept may have been woken by the signal.
    put_returns :
        (c : Fork) (signals : Bool)
        → h₁ + 1 ≡ h
        → s₁ + a₁ ≡ s + a
        → (0 < s₁ → signals ≡ true → 1 ≤ a₁)
        → fork_putdown all_well f ≡ returned c signals 0
        → (signals ≡ ltb 0 (s + a)) × ForkOk c h₁ s₁ a₁
    put_returns c signals eh esa call e =
        let p = put_lem in
        let flag : signals ≡ ltb 0 (s + a) = ground (arith, e, p, v.waiting, few) in
        let same : record f { being_used = 0 } ≡ c = ground (arith, e, p) in
        (
          flag,
          subst (λ d. ForkOk d h₁ s₁ a₁) same
              (record {
                is_valid = v.is_valid;
                used = omega (arith, v.one, eh);
                one = omega (arith, v.one, eh);
                waiting = omega (arith, v.waiting, esa);
                called = λ pos.
                    let some_ : signals ≡ true = ground (arith, flag, pos, esa) in
                    omega (arith, call pos some_);
              }),
        )

    pub sleep-ForkOk :
        (st : Stage) (c : Fork)
        → h₁ ≡ h
        → s₁ ≡ s + 1
        → a₁ + awakes st ≡ a
        → philosopher_thread st f ≡ some (waits c)
        → (h ≡ 1) × ForkOk c h₁ s₁ a₁
    sleep-ForkOk begins c eh es ea e = get_waits c eh es (omega (arith, ea)) (cc e)
    sleep-ForkOk sleeps_first c eh es ea e = cc e
    sleep-ForkOk wakes_first c eh es ea e = woken_waits c eh es ea (cc e)
    sleep-ForkOk begins_second c eh es ea e = get_waits c eh es (omega (arith, ea)) (cc e)
    sleep-ForkOk sleeps_second c eh es ea e = cc e
    sleep-ForkOk wakes_second c eh es ea e = woken_waits c eh es ea (cc e)
    sleep-ForkOk eats c eh es ea e = let p = put_lem in cc (e, p)
    sleep-ForkOk puts_right c eh es ea e = let p = put_lem in cc (e, p)

    pub get-ForkOk :
        (st : Stage) (c : Fork) (signals : Bool)
        → gets st ≡ true
        → h₁ ≡ h + 1
        → s₁ ≡ s
        → a₁ + awakes st ≡ a
        → philosopher_thread st f ≡ some (returned c signals 0)
        → (signals ≡ false) × ForkOk c h₁ s₁ a₁
    get-ForkOk begins c signals g eh es ea e =
        get_returns c signals eh es (omega (arith, ea)) (cc e)
    get-ForkOk wakes_first c signals g eh es ea e = woken_returns c signals eh es ea (cc e)
    get-ForkOk begins_second c signals g eh es ea e =
        get_returns c signals eh es (omega (arith, ea)) (cc e)
    get-ForkOk wakes_second c signals g eh es ea e = woken_returns c signals eh es ea (cc e)
    get-ForkOk st c signals g eh es ea e = cc g

    pub put-ForkOk :
        (st : Stage) (c : Fork) (signals : Bool)
        → puts st ≡ true
        → h₁ + 1 ≡ h
        → s₁ + a₁ ≡ s + a
        → (0 < s₁ → signals ≡ true → 1 ≤ a₁)
        → philosopher_thread st f ≡ some (returned c signals 0)
        → (signals ≡ ltb 0 (s + a)) × ForkOk c h₁ s₁ a₁
    put-ForkOk eats c signals g eh esa call e = put_returns c signals eh esa call (cc e)
    put-ForkOk puts_right c signals g eh esa call e = put_returns c signals eh esa call (cc e)
    put-ForkOk st c signals g eh esa call e = cc g
