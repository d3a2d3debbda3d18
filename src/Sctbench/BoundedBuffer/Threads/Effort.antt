-- ===== src/Sctbench/BoundedBuffer/Threads/Effort.antt =====
-- sctbench/inspect_examples/boundedBuffer.c, bbuf.c: how much the threads of one side can still do.
use benchamel.Base.{
  ℕ, ◌+◌, ◌-◌, ◌*◌, ◌<◌, ◌≤◌, ◌≡◌, ◌≢◌, refl, ap, arith, Bool, true, false, not, ◌&&◌, inl, inr,
  ltb, update, total, total-update, total-plus, total-le, total-zero, total-all, total-member,
  one_or_none,
}
use native.Mathlib.Decide.{dec_lt}
use benchamel.Sctbench.BoundedBuffer.Threads.{
  Place, calling, asleep, awake, Worker, in_wait, is_asleep, at, done, Signals, uncalled, unheard,
  wakes,
}
use benchamel.Sctbench.BoundedBuffer.Threads.Crowd.{
  sleeps, stirs, sleeping, stirring, rounds_of, Crowd, asleep-lt, is_asleep_lem,
}

-- How much a thread can still do: three steps in a round, and fewer in the round that it is in.
abbrev pub effort_at : Place → ℕ
effort_at calling = 2
effort_at asleep = 0
effort_at awake = 1

abbrev pub effort : ℕ → Worker → ℕ
effort rounds w = 3 * (rounds - w.i) + effort_at w.place

abbrev pub can_go : ℕ → Worker → Bool
can_go rounds w = not (is_asleep w) && ltb w.i rounds

up_effort : (p : Place) → p ≢ asleep → 0 < effort_at p
up_effort calling ne = omega arith
up_effort asleep ne = absurd (ne refl)
up_effort awake ne = omega arith

-- The thread that takes a step, and the one that a signal wakes.
module _ (n rounds : ℕ) (f : ℕ → Worker) (k : ℕ) (lt : k < n) where
  pub effort_asleep :
      (f k).place ≢ asleep
      → total (effort rounds) n (update f k (at asleep (f k))) < total (effort rounds) n f
  effort_asleep ne =
      omega
        (arith, total-update (effort rounds) n f k (at asleep (f k)) lt, up_effort (f k).place ne)

  pub effort-done :
      (f k).place ≢ asleep
      → (f k).i < rounds
      → total (effort rounds) n (update f k (done (f k))) + 2 ≤ total (effort rounds) n f
  effort-done ne go =
      omega
        (arith, total-update (effort rounds) n f k (done (f k)) lt, up_effort (f k).place ne, go)

pub effort_heard :
    (n rounds calls : ℕ) (f g : ℕ → Worker) (signals : Bool)
    → Crowd n rounds calls f
    → Signals f signals g
    → total (effort rounds) n g ≤ total (effort rounds) n f + 1
effort_heard n rounds calls f g signals v uncalled = omega arith
effort_heard n rounds calls f g signals v (unheard none_) = omega arith
effort_heard n rounds calls f g signals v (wakes j a) =
    let here_ = is_asleep_lem (f j).place a in
    let lt = asleep-lt n rounds calls f v j (λ q. cc (here_, q)) in
    omega (arith, total-update (effort rounds) n f j (at awake (f j)) lt)

-- A signal can be sent at any time.
pub can_signal :
    (n rounds calls : ℕ) (f : ℕ → Worker) (signals : Bool)
    → Crowd n rounds calls f
    → (g : ℕ → Worker) × Signals f signals g
can_signal n rounds calls f false v = (f, uncalled)
can_signal n rounds calls f true v = elim (one_or_none is_asleep n f) [
  | inl found ↦ (update f found.0 (at awake (f found.0)), wakes found.0 found.2)
  | inr none_ ↦ (
    f,
    unheard (λ j. elim (dec_lt j n) [
      | yes lt ↦ none_ j lt
      | no ge ↦ ap in_wait (v.few j (omega (arith, ge)))
    ]),
  )
]

still_at :
    (p : Place) (i rounds : ℕ)
    → i ≤ rounds
    → (p ≢ calling → i < rounds)
    → (not (in_wait p) && ltb i rounds) ≡ false
    → (stirs p ≡ 0) × (sleeps p ≡ 0 → i ≡ rounds)
still_at calling i rounds le lt no_ = (refl, λ e. ground (arith, no_, le))
still_at asleep i rounds le lt no_ = (refl, λ e. absurd (omega (arith, e)))
still_at awake i rounds le lt no_ = let go = lt (λ q. cc q) in absurd (ground (arith, no_, go))

going-le :
    (p : Place) (i rounds : ℕ) → i ≤ rounds → (p ≢ calling → i < rounds) → i + sleeps p ≤ rounds
going-le calling i rounds le lt = omega (arith, le)
going-le asleep i rounds le lt = let go = lt (λ q. cc q) in omega (arith, go)
going-le awake i rounds le lt = omega (arith, le)

module _ (n rounds calls : ℕ) (f : ℕ → Worker) (v : Crowd n rounds calls f) where
  -- One who sleeps has not done all the rounds.
  pub calls-le : calls + total sleeping n f ≤ n * rounds
  calls-le =
      let all =
        total-le (λ (w : Worker). rounds_of w + sleeping w) rounds n f
          (λ k lt. going-le (f k).place (f k).i rounds (v.going k lt).0 (v.going k lt).1) in
      omega (arith, all, v.counted, total-plus rounds_of sleeping n f)

  -- A crowd of which no thread can go.
  module _ (still : (k : ℕ) → k < n → can_go rounds (f k) ≡ false) where
    at_rest : (k : ℕ) → k < n → (stirring (f k) ≡ 0) × (sleeping (f k) ≡ 0 → (f k).i ≡ rounds)
    at_rest k lt =
        still_at (f k).place (f k).i rounds (v.going k lt).0 (v.going k lt).1 (still k lt)

    pub none_stirs : total stirring n f ≡ 0
    none_stirs = total-zero stirring n f (λ k lt. (at_rest k lt).0)

    pub all_ended : total sleeping n f ≡ 0 → (k : ℕ) → k < n → (f k).i ≡ rounds
    all_ended e k lt = (at_rest k lt).1 (omega (arith, e, total-member sleeping n f k lt))

    pub calls-eq : total sleeping n f ≡ 0 → calls ≡ n * rounds
    calls-eq e = omega (arith, v.counted, total-all rounds_of rounds n f (all_ended e))
