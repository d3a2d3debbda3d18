-- ===== src/Sctbench/Philosopher/Table/Rest.antt =====
-- sctbench/inspect_examples/philosopher.c: why the philosophers never wait in a circle.
use benchamel.Base.{
  ℕ, zero, suc, ◌+◌, ◌%◌, ◌<◌, ◌≤◌, ◌≡◌, ◌≢◌, refl, ap, arith, Bool, true, false, not, ◌&&◌, ltb,
  ◌==◌, if◌then◌else◌, ◌⊎◌, inl, inr, Bool-cases, total, total-zero, total-member, one_or_none,
}
use benchamel.Sctbench.Philosopher.Table.{
  Stage, begins, sleeps_first, wakes_first, begins_second, sleeps_second, wakes_second, eats,
  puts_right, Philosopher, State, first, second, next_fork, in_wait,
}
use benchamel.Sctbench.Philosopher.Table.Counts.{
  same_self, held, slept, woken_for, holding, sleeping, waking, wake-woken,
}
use benchamel.Sctbench.Philosopher.Table.Moves.{Fits, next_fork-lt}
use benchamel.Sctbench.Philosopher.Table.Invariant.{Inv}

-- The order in which everyone takes the forks: the odd ones, fork 0, the other even ones.
abbrev rank : ℕ → ℕ
rank k = if k % 2 == 1 then 0 else if k == 0 then 1 else 2

rank-le : (k : ℕ) → rank k ≤ 2
rank-le k = ground arith

rank-lt :
    (n rounds i : ℕ) (p : Philosopher)
    → i < n
    → 2 ≤ n
    → Fits n rounds i p
    → rank (first p) < rank (second p)
rank-lt n rounds i p lt two v = ground (arith, v.id, v.left, v.right, lt, two)

abbrev pub can_go : ℕ → Philosopher → Bool
can_go rounds p = not (in_wait p.stage) && ltb p.num rounds

begins_or_not : (s : Stage) → (s ≡ begins) ⊎ (s ≢ begins)
begins_or_not begins = inl refl
begins_or_not sleeps_first = inr (λ e. cc e)
begins_or_not wakes_first = inr (λ e. cc e)
begins_or_not begins_second = inr (λ e. cc e)
begins_or_not sleeps_second = inr (λ e. cc e)
begins_or_not wakes_second = inr (λ e. cc e)
begins_or_not eats = inr (λ e. cc e)
begins_or_not puts_right = inr (λ e. cc e)

-- One who cannot go sleeps, or has ended.
at_rest :
    (n rounds i : ℕ) (p : Philosopher)
    → Fits n rounds i p
    → can_go rounds p ≡ false
    → (in_wait p.stage ≡ true) ⊎ ((p.stage ≡ begins) × (p.num ≡ rounds))
at_rest n rounds i p v e = elim (Bool-cases (in_wait p.stage)) [
  | inl w ↦ inl w
  | inr u ↦
      let over : rounds ≤ p.num = ground (arith, e, u) in
      elim (begins_or_not p.stage) [
        | inl b ↦ inr (b, omega (arith, over, v.num))
        | inr ne ↦ absurd (omega (arith, over, (v.going ne).0))
      ]
]

begins-held : (k : ℕ) (p : Philosopher) (s : Stage) → s ≡ begins → held k p s ≡ 0
begins-held k p s e = ap (held k p) e

begins-slept :
    (k : ℕ) (p : Philosopher) (s : Stage) → s ≡ begins → (slept k p s ≡ 0) × (woken_for k p s ≡ 0)
begins-slept k p s e = (ap (slept k p) e, ap (woken_for k p) e)

asleep-woken : (k : ℕ) (p : Philosopher) (s : Stage) → in_wait s ≡ true → woken_for k p s ≡ 0
asleep-woken k p s w = (wake-woken p k s w).2

-- One who sleeps and holds a fork holds its first one and waits for the second.
asleep-held :
    (k : ℕ) (p : Philosopher) (s : Stage)
    → in_wait s ≡ true
    → 0 < held k p s
    → (first p ≡ k) × (next_fork p s ≡ second p)
asleep-held k p sleeps_first w pos = absurd (omega (arith, pos))
asleep-held k p sleeps_second w pos = (ground (arith, pos), refl)
asleep-held k p s w pos = cc w

module _ (n rounds : ℕ) (two : 2 ≤ n) (s : State) (v : Inv n rounds s)
    (still : (i : ℕ) → i < n → can_go rounds (s.philosophers i) ≡ false) where
  rest :
      (i : ℕ)
      → i < n
      → (in_wait (s.philosophers i).stage ≡ true)
        ⊎ (((s.philosophers i).stage ≡ begins) × ((s.philosophers i).num ≡ rounds))
  rest i lt = at_rest n rounds i (s.philosophers i) (v.fits i) (still i lt)

  none_wakes : (k : ℕ) → total (waking k) n s.philosophers ≡ 0
  none_wakes k = total-zero (waking k) n s.philosophers (λ i lt. elim (rest i lt) [
    | inl w ↦ asleep-woken k (s.philosophers i) (s.philosophers i).stage w
    | inr b ↦ (begins-slept k (s.philosophers i) (s.philosophers i).stage b.0).1
  ])

  -- A held fork has a holder, who sleeps.
  holder :
      (k : ℕ)
      → 0 < total (holding k) n s.philosophers
      → (i : ℕ) × (i < n)
        × (in_wait (s.philosophers i).stage ≡ true)
        × (first (s.philosophers i) ≡ k)
        × (next_fork (s.philosophers i) (s.philosophers i).stage ≡ second (s.philosophers i))
  holder k pos = elim (one_or_none (λ (p : Philosopher). ltb 0 (holding k p)) n s.philosophers) [
    | inr none_ ↦
        let zero_ = total-zero (holding k) n s.philosophers (λ i lt. ground (arith, none_ i lt)) in
        absurd (omega (arith, pos, zero_))
    | inl (i, lt, e) ↦
        let some_ : 0 < holding k (s.philosophers i) = ground (arith, e) in
        elim (rest i lt) [
          | inl w ↦
              let h = asleep-held k (s.philosophers i) (s.philosophers i).stage w some_ in
              (i, lt, w, h.0, h.1)
          | inr b ↦
              let none_ = begins-held k (s.philosophers i) (s.philosophers i).stage b.0 in
              absurd (omega (arith, some_, none_))
        ]
  ]

  -- Each fork that is waited for is held by one who waits for a fork of higher rank.
  blocked :
      (fuel i : ℕ)
      → i < n
      → in_wait (s.philosophers i).stage ≡ true
      → 3 ≤ rank (next_fork (s.philosophers i) (s.philosophers i).stage) + fuel
      → ⊥
  blocked zero i lt w le =
      omega (arith, le, rank-le (next_fork (s.philosophers i) (s.philosophers i).stage))
  blocked (suc fuel) i lt w le =
      let p = s.philosophers i in
      let k = next_fork p p.stage in
      let fork = v.forks k (next_fork-lt n rounds i p p.stage lt (v.fits i)) in
      let here_ = total-member (sleeping k) n s.philosophers i lt in
      let one = (wake-woken p k p.stage w).1 in
      let unit = same_self k k refl in
      let called = fork.called (omega (arith, here_, one, unit)) in
      let (j, j_lt, j_w, fst, snd) = holder k (omega (arith, called, none_wakes k)) in
      let q = s.philosophers j in
      let higher = rank-lt n rounds j q j_lt two (v.fits j) in
      let same_rank : rank (first q) ≡ rank k = ap rank fst in
      let waits_rank : rank (next_fork q q.stage) ≡ rank (second q) = ap rank snd in
      blocked fuel j j_lt j_w (omega (arith, le, higher, same_rank, waits_rank))

  pub all_ended :
      (i : ℕ) → i < n → ((s.philosophers i).stage ≡ begins) × ((s.philosophers i).num ≡ rounds)
  all_ended i lt = elim (rest i lt) [ inl w ↦ absurd (blocked 3 i lt w (omega arith)) | inr b ↦ b ]

  pub all_free :
      (k : ℕ)
      → (total (holding k) n s.philosophers ≡ 0)
        × (total (sleeping k) n s.philosophers ≡ 0)
        × (total (waking k) n s.philosophers ≡ 0)
  all_free k = (
    total-zero (holding k) n s.philosophers
        (λ i lt. begins-held k (s.philosophers i) (s.philosophers i).stage (all_ended i lt).0),
    total-zero (sleeping k) n s.philosophers
        (λ i lt. (begins-slept k (s.philosophers i) (s.philosophers i).stage (all_ended i lt).0).0),
    none_wakes k,
  )
