-- ===== src/Sctbench/ThreadPool/Find.antt =====
-- sctbench/inspect_examples/thread-pool.example.c: the search for an entry of the array.
use benchamel.Base.{
  ℕ, zero, suc, ◌+◌, ◌<◌, ◌≤◌, ◌≡◌, refl, ap, ◌∙◌, arith, Bool, true, false, none, some, List, [],
  ◌∷◌, length, get_or, set, ◌⊎◌, inl, inr, Bool-cases,
}
use benchamel.Sctbench.ThreadPool.{ThreadInfo, Pool, no_info, put_info, find_thread}

-- `d` is the first of the first `left` entries that passes the test.
pub record IsFirst (test : ThreadInfo → Bool) (left : ℕ) (infos : List ThreadInfo) (d : ℕ)
    : Type 0 where
  pub inside : d < left
  pub passes : test (get_or infos d no_info) ≡ true
  pub before : (j : ℕ) → j < d → test (get_or infos j no_info) ≡ false

abbrev pub NoneOf : (ThreadInfo → Bool) → ℕ → List ThreadInfo → Type 0
NoneOf test left infos = (j : ℕ) → j < left → test (get_or infos j no_info) ≡ false

later :
    (test : ThreadInfo → Bool) (x : ThreadInfo) (xs : List ThreadInfo) (n : ℕ)
    → test x ≡ false
    → NoneOf test n xs
    → NoneOf test (suc n) (x ∷ xs)
later test x xs n no_ rest zero lt = no_
later test x xs n no_ rest (suc j) lt = rest j (omega (arith, lt))

pub find-cases :
    (test : ThreadInfo → Bool) (left i : ℕ) (infos : List ThreadInfo)
    → left ≤ length infos
    → ((find_thread test left i infos ≡ none) × NoneOf test left infos)
      ⊎ ((d : ℕ) × (find_thread test left i infos ≡ some (i + d)) × IsFirst test left infos d)
unfolding find_thread
find-cases test zero i infos le = inl (refl, λ j lt. absurd (omega (arith, lt)))
find-cases test (suc left) i [] le = absurd (omega (arith, le))
find-cases test (suc left) i (info ∷ infos) le = elim (Bool-cases (test info)) [
  | inl e ↦ inr (
    0,
    rw e (ap some (omega arith)),
    record { inside = omega arith; passes = e; before = λ j lt. absurd (omega (arith, lt)) },
  )
  | inr e ↦ elim (find-cases test left (i + 1) infos (omega (arith, le))) [
    | inl (rest, nobody) ↦ inl (rw e rest, later test info infos left e nobody)
    | inr (d, rest, v) ↦ inr (
      suc d,
      rw e (rest ∙ ap some (omega arith)),
      record {
        inside = omega (arith, v.inside);
        passes = v.passes;
        before = λ j lt. later test info infos d e v.before j (omega (arith, lt));
      },
    )
  ]
]

pub put_info-some :
    (pool : Pool) (i : ℕ) (info : ThreadInfo)
    → i < length pool.thread_info
    → put_info pool i info ≡ some (record pool { thread_info = set pool.thread_info i info })
unfolding put_info
put_info-some pool i info lt = ground (arith, lt)

-- Two writes to one entry
pub set-set :
    (infos : List ThreadInfo) (i : ℕ) (a b : ThreadInfo) → set (set infos i a) i b ≡ set infos i b
set-set [] i a b = refl
set-set (x ∷ infos) zero a b = refl
set-set (x ∷ infos) (suc i) a b = ap (λ t. x ∷ t) (set-set infos i a b)
