-- ===== src/Base/Steps.antt =====
-- Runs of a step relation: the states that interleaved threads can reach.
use Prim.Native.Nat.{ℕ, zero, suc, ◌+◌, ◌<◌}
use mathlib.Core.Logic.{◌⊎◌, inl, inr}
use native.Mathlib.Omega.{arith}

module _ {ℓ κ} {S : Type ℓ} (Step : S → S → Type κ) where
  pub data Reach (s : S) : S → Type (ℓ ⊔ κ) where
    here : Reach s s
    next : {t u : S} → Reach s t → Step t u → Reach s u

  -- What holds at the start and is kept by every step holds wherever a run leads.
  pub Reach-inv {μ} :
      (P : S → Type μ) {s t : S} → ((u v : S) → Step u v → P u → P v) → P s → Reach s t → P t
  Reach-inv P keep p here = p
  Reach-inv P keep p (next {t = t} {u = u} r st) = keep t u st (Reach-inv P keep p r)

  -- From here the steps lead to the end, whichever are taken: there is always one until all is over,
  -- and each leaves less to do. So one run at least ends.
  pub record Terminates {ν} (Over : S → Type ν) (left : S → ℕ) (s : S) : Type (ℓ ⊔ κ ⊔ ν) where
    pub goes : Over s ⊎ ((t : S) × Step s t)
    pub less : (t : S) → Step s t → left t < left s
    pub finishes : (t : S) × Reach s t × Over t

  module _ {μ ν} (P : S → Type μ) (Over : S → Type ν) (left : S → ℕ)
      (keep : (u v : S) → P u → Step u v → P v)
      (goes : (u : S) → P u → Over u ⊎ ((v : S) × Step u v))
      (less : (u v : S) → P u → Step u v → left v < left u) where
    runs_on : (fuel : ℕ) (s u : S) → left u < fuel → P u → Reach s u → (t : S) × Reach s t × Over t
    runs_on zero s u few p r = absurd (omega (arith, few))
    runs_on (suc fuel) s u few p r = elim (goes u p) [
      | inl over ↦ (u, r, over)
      | inr (v, st) ↦
          runs_on fuel s v (omega (arith, few, less u v p st)) (keep u v p st) (next r st)
    ]

    pub kept-Terminates : (s : S) → P s → Terminates Over left s
    kept-Terminates s p = record {
      goes = goes s p;
      less = λ t. less s t p;
      finishes = runs_on (left s + 1) s s (omega arith) p here;
    }
