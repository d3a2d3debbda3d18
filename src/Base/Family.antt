-- ===== src/Base/Family.antt =====
-- A state for each thread of a program, as a function of the thread's number, and sums over them.
use Prim.Native.Nat.{ℕ, zero, suc, ◌+◌, ◌*◌, ◌≤◌, ◌<◌}
use mathlib.Core.Path.{◌≡◌, refl, ap, ◌∙◌}
use mathlib.Core.Logic.{◌≢◌, ◌⊎◌, inl, inr}
use mathlib.Core.Bool.{Bool, true, false}
use native.Mathlib.Omega.{arith}
use native.Mathlib.Decide.{ℕ_discrete}
use benchamel.Base.Tests.{◌==◌, if◌then◌else◌, Bool-cases}

abbrev pub update {ℓ} : {A : Type ℓ} → (ℕ → A) → ℕ → A → ℕ → A
update f i a j = if i == j then a else f j

module _ {ℓ} {A : Type ℓ} where
  pub update_same : (f : ℕ → A) (i j : ℕ) (a : A) → i ≡ j → update f i a j ≡ a
  update_same f i j a e = ground (arith, e)

  pub update_other : (f : ℕ → A) (i j : ℕ) (a : A) → i ≢ j → update f i a j ≡ f j
  update_other f i j a ne = ground (arith, ne)

  -- The sum of the weights of the first `n` threads.
  abbrev pub total : (A → ℕ) → ℕ → (ℕ → A) → ℕ
  total weight zero f = 0
  total weight (suc n) f = weight (f n) + total weight n f

  total_others :
      (weight : A → ℕ) (n : ℕ) (f : ℕ → A) (i : ℕ) (a : A)
      → n ≤ i
      → total weight n (update f i a) ≡ total weight n f
  total_others weight zero f i a le = refl
  total_others weight (suc n) f i a le = omega (
    arith,
    ap weight (update_other f i n a (λ e. omega (arith, e, le))),
    total_others weight n f i a (omega (arith, le)),
  )

  pub total-update :
      (weight : A → ℕ) (n : ℕ) (f : ℕ → A) (i : ℕ) (a : A)
      → i < n
      → total weight n (update f i a) + weight (f i) ≡ total weight n f + weight a
  total-update weight zero f i a lt = absurd (omega (arith, lt))
  total-update weight (suc n) f i a lt = elim (ℕ_discrete i n) [
    | yes e ↦ omega (
      arith,
      ap weight (update_same f i n a e),
      ap (λ k. weight (f k)) e,
      total_others weight n f i a (omega (arith, e)),
    )
    | no ne ↦ omega (
      arith,
      ap weight (update_other f i n a ne),
      total-update weight n f i a (omega (arith, lt, ne)),
    )
  ]

  pub total-le :
      (weight : A → ℕ) (b n : ℕ) (f : ℕ → A)
      → ((i : ℕ) → i < n → weight (f i) ≤ b)
      → total weight n f ≤ n * b
  total-le weight b zero f v = omega arith
  total-le weight b (suc n) f v =
      let before = total-le weight b n f (λ i lt. v i (omega (arith, lt))) in
      grind (arith, v n (omega arith), before)

  -- One weight below the bound leaves the sum below it.
  pub total-le_but :
      (weight : A → ℕ) (b n : ℕ) (f : ℕ → A) (i : ℕ)
      → ((j : ℕ) → j < n → weight (f j) ≤ b)
      → i < n
      → total weight n f + b ≤ n * b + weight (f i)
  total-le_but weight b zero f i v lt = absurd (omega (arith, lt))
  total-le_but weight b (suc n) f i v lt = elim (ℕ_discrete i n) [
    | yes e ↦
        let rest = total-le weight b n f (λ j h. v j (omega (arith, h))) in
        grind (arith, rest, ap (λ k. weight (f k)) e)
    | no ne ↦
        let rest =
          total-le_but weight b n f i (λ j h. v j (omega (arith, h))) (omega (arith, lt, ne)) in
        grind (arith, rest, v n (omega arith))
  ]

  pub total-all :
      (weight : A → ℕ) (b n : ℕ) (f : ℕ → A)
      → ((i : ℕ) → i < n → weight (f i) ≡ b)
      → total weight n f ≡ n * b
  total-all weight b zero f v = omega arith
  total-all weight b (suc n) f v =
      let rest = total-all weight b n f (λ i lt. v i (omega (arith, lt))) in
      grind (arith, v n (omega arith), rest)

  pub total-zero :
      (weight : A → ℕ) (n : ℕ) (f : ℕ → A)
      → ((i : ℕ) → i < n → weight (f i) ≡ 0)
      → total weight n f ≡ 0
  total-zero weight n f v = omega (arith, total-all weight 0 n f v)

  pub total-plus :
      (v w : A → ℕ) (n : ℕ) (f : ℕ → A) → total (λ a. v a + w a) n f ≡ total v n f + total w n f
  total-plus v w zero f = refl
  total-plus v w (suc n) f = omega (arith, total-plus v w n f)

  pub total-member :
      (weight : A → ℕ) (n : ℕ) (f : ℕ → A) (i : ℕ) → i < n → weight (f i) ≤ total weight n f
  total-member weight zero f i lt = absurd (omega (arith, lt))
  total-member weight (suc n) f i lt = elim (ℕ_discrete i n) [
    | yes e ↦ omega (arith, ap (λ k. weight (f k)) e)
    | no ne ↦ omega (arith, total-member weight n f i (omega (arith, lt, ne)))
  ]

  pub total-two :
      (weight : A → ℕ) (n : ℕ) (f : ℕ → A) (i j : ℕ)
      → i < n
      → j < n
      → i ≢ j
      → weight (f i) + weight (f j) ≤ total weight n f
  total-two weight zero f i j i_lt j_lt ne = absurd (omega (arith, i_lt))
  total-two weight (suc n) f i j i_lt j_lt ne = elim (ℕ_discrete i n) [
    | yes e ↦
        omega
          (arith, ap (λ k. weight (f k)) e, total-member weight n f j (omega (arith, e, j_lt, ne)))
    | no i_ne ↦ elim (ℕ_discrete j n) [
      | yes e ↦
          omega
            (arith, ap (λ k. weight (f k)) e, total-member weight n f i (omega (arith, i_lt, i_ne)))
      | no j_ne ↦ omega (
        arith,
        total-two weight n f i j (omega (arith, i_lt, i_ne)) (omega (arith, j_lt, j_ne)) ne,
      )
    ]
  ]

  -- One of the first `n` threads passes a test, or none does.
  pub one_or_none :
      (p : A → Bool) (n : ℕ) (f : ℕ → A)
      → ((i : ℕ) × (i < n) × (p (f i) ≡ true)) ⊎ ((i : ℕ) → i < n → p (f i) ≡ false)
  one_or_none p zero f = inr (λ i lt. absurd (omega (arith, lt)))
  one_or_none p (suc n) f = elim (Bool-cases (p (f n))) [
    | inl yes_ ↦ inl (n, omega arith, yes_)
    | inr no_ ↦ elim (one_or_none p n f) [
      | inl found ↦ inl (found.0, omega (arith, found.1), found.2)
      | inr none_ ↦ inr (λ i lt. elim (ℕ_discrete i n) [
        | yes e ↦ ap (λ k. p (f k)) e ∙ no_
        | no ne ↦ none_ i (omega (arith, lt, ne))
      ])
    ]
  ]
