-- ===== src/Sctbench/BoundedBuffer/Threads/Crowd.antt =====
-- sctbench/inspect_examples/boundedBuffer.c, bbuf.c: the threads of one side, and how many of them
-- have begun to wait and have not gone on.
use benchamel.Base.{
  ℕ, ◌+◌, ◌<◌, ◌≤◌, ◌≡◌, ◌≢◌, refl, sym, ap, ◌∙◌, arith, Bool, true, false, update, update_same,
  update_other, total, total-update, total-plus, total-le, total-zero,
}
use mathlib.Core.Path.{subst}
use native.Mathlib.Decide.{dec_lt, ℕ_discrete}
use benchamel.Sctbench.BoundedBuffer.Threads.{
  Place, calling, asleep, awake, Worker, in_wait, starting, at, done, Signals, uncalled, unheard,
  wakes,
}

abbrev pub sleeps : Place → ℕ
sleeps asleep = 1
sleeps _ = 0

abbrev pub stirs : Place → ℕ
stirs awake = 1
stirs _ = 0

abbrev pub sleeping : Worker → ℕ
sleeping w = sleeps w.place

abbrev pub stirring : Worker → ℕ
stirring w = stirs w.place

abbrev pub inside : Worker → ℕ
inside w = sleeping w + stirring w

abbrev pub rounds_of : Worker → ℕ
rounds_of w = w.i

-- Where and how far a thread can be.
abbrev pub Going : ℕ → Worker → Type 0
Going rounds w = (w.i ≤ rounds) × (w.place ≢ calling → w.i < rounds)

-- `calls` is the number of rounds that all the threads have done.
pub record Crowd (n rounds calls : ℕ) (f : ℕ → Worker) : Type 0 where
  pub few : (k : ℕ) → n ≤ k → (f k).place ≡ calling
  pub going : (k : ℕ) → k < n → Going rounds (f k)
  pub counted : calls ≡ total rounds_of n f

inside-le : (p : Place) → sleeps p + stirs p ≤ 1
inside-le calling = omega arith
inside-le asleep = omega arith
inside-le awake = omega arith

not_asleep : (p : Place) → in_wait p ≡ false → sleeps p ≡ 0
not_asleep calling e = refl
not_asleep asleep e = cc e
not_asleep awake e = refl

pub is_asleep_lem : (p : Place) → in_wait p ≡ true → p ≡ asleep
is_asleep_lem calling e = cc e
is_asleep_lem asleep e = refl
is_asleep_lem awake e = cc e

pub stirs-le : (p : Place) → stirs p ≤ 1
stirs-le calling = omega arith
stirs-le asleep = omega arith
stirs-le awake = omega arith

pub awake_or-calling : (p : Place) → p ≢ asleep → sleeps p ≡ 0
awake_or-calling calling ne = refl
awake_or-calling asleep ne = absurd (ne refl)
awake_or-calling awake ne = refl

pub total_inside-le : (n : ℕ) (f : ℕ → Worker) → total inside n f ≤ n
total_inside-le n f = omega (arith, total-le inside 1 n f (λ j h. inside-le (f j).place))

pub starting-Crowd : (n rounds : ℕ) → Crowd n rounds 0 (λ k. starting)
starting-Crowd n rounds = record {
  few = λ k le. refl;
  going = λ k lt. (omega arith, λ q. absurd (q refl));
  counted = sym (total-zero rounds_of n (λ k. starting) (λ k lt. refl));
}

module _ (n rounds calls : ℕ) (f : ℕ → Worker) (v : Crowd n rounds calls f) where
  pub Crowd-update :
      (k : ℕ) (w : Worker) (calls₁ : ℕ)
      → k < n
      → Going rounds w
      → calls₁ + (f k).i ≡ calls + w.i
      → Crowd n rounds calls₁ (update f k w)
  Crowd-update k w calls₁ lt go d = record {
    few = λ j le.
        ap (λ (x : Worker). x.place) (update_other f k j w (omega (arith, lt, le))) ∙ v.few j le;
    going = λ j small. elim (ℕ_discrete k j) [
      | yes same ↦ subst (Going rounds) (sym (update_same f k j w same)) go
      | no other ↦ subst (Going rounds) (sym (update_other f k j w other)) (v.going j small)
    ];
    counted = omega (arith, v.counted, d, total-update rounds_of n f k w lt);
  }

  pub asleep-lt : (k : ℕ) → (f k).place ≢ calling → k < n
  asleep-lt k ne = elim (dec_lt k n) [
    | yes lt ↦ lt
    | no ge ↦ absurd (ne (v.few k (omega (arith, ge))))
  ]

  pub wake-Crowd :
      (k : ℕ) → (f k).place ≡ asleep → Crowd n rounds calls (update f k (at awake (f k)))
  wake-Crowd k e =
      let lt = asleep-lt k (λ q. cc (e, q)) in
      let going = v.going k lt in
      Crowd-update k (at awake (f k)) calls lt (going.0, λ q. going.1 (λ r. cc (e, r))) refl

  -- A thread that begins to wait or waits again, and one that ends a round.
  module _ (k : ℕ) (lt : k < n) (ongoing : (f k).i < rounds) where
    pub sleep-Crowd : Crowd n rounds calls (update f k (at asleep (f k)))
    sleep-Crowd =
        Crowd-update k (at asleep (f k)) calls lt (omega (arith, ongoing), λ q. ongoing) refl

    pub done-Crowd : Crowd n rounds (calls + 1) (update f k (done (f k)))
    done-Crowd =
        Crowd-update k (done (f k)) (calls + 1) lt (omega (arith, ongoing), λ q. absurd (q refl))
          (omega arith)

-- How those steps change the number of the threads that wait.
module _ (n : ℕ) (f : ℕ → Worker) (k : ℕ) (lt : k < n) (up : (f k).place ≢ asleep) where
  pub inside-sleep :
      total inside n (update f k (at asleep (f k))) + stirs (f k).place ≡ total inside n f + 1
  inside-sleep =
      omega (arith, total-update inside n f k (at asleep (f k)) lt, awake_or-calling (f k).place up)

  pub inside-done : total inside n (update f k (done (f k))) + stirs (f k).place ≡ total inside n f
  inside-done =
      omega (arith, total-update inside n f k (done (f k)) lt, awake_or-calling (f k).place up)

-- What a signal to the threads of a crowd does.
pub record Heard (n rounds calls : ℕ) (f g : ℕ → Worker) : Type 0 where
  pub crowd : Crowd n rounds calls g
  pub same : total inside n g ≡ total inside n f
  pub fewer : total sleeping n g ≤ total sleeping n f
  pub kept : total stirring n f ≤ total stirring n g
  pub more : 0 < total sleeping n f → total stirring n f + 1 ≤ total stirring n g

-- The caller signals unless no thread of the crowd waits.
pub Signals-Heard :
    (n rounds calls : ℕ) (f g : ℕ → Worker) (signals : Bool)
    → Crowd n rounds calls f
    → (signals ≡ false → total inside n f ≡ 0)
    → Signals f signals g
    → Heard n rounds calls f g
Signals-Heard n rounds calls f g signals v quiet uncalled = record {
  crowd = v;
  same = refl;
  fewer = omega arith;
  kept = omega arith;
  more = λ pos. absurd (omega (arith, pos, quiet refl, total-plus sleeping stirring n f));
}
Signals-Heard n rounds calls f g signals v quiet (unheard none_) =
    let zero_ = total-zero sleeping n f (λ j h. not_asleep (f j).place (none_ j)) in
    record {
      crowd = v;
      same = refl;
      fewer = omega arith;
      kept = omega arith;
      more = λ pos. absurd (omega (arith, pos, zero_));
    }
Signals-Heard n rounds calls f g signals v quiet (wakes j a) =
    let here_ = is_asleep_lem (f j).place a in
    let lt = asleep-lt n rounds calls f v j (λ q. cc (here_, q)) in
    let less = total-update sleeping n f j (at awake (f j)) lt in
    let more = total-update stirring n f j (at awake (f j)) lt in
    record {
      crowd = wake-Crowd n rounds calls f v j here_;
      same =
          omega
            (arith, total-update inside n f j (at awake (f j)) lt, ap sleeps here_, ap stirs here_);
      fewer = omega (arith, less);
      kept = omega (arith, more, ap stirs here_);
      more = λ pos. omega (arith, more, ap stirs here_);
    }
