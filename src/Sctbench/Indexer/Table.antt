-- ===== src/Sctbench/Indexer/Table.antt =====
-- sctbench/concurrent-software-benchmarks/indexer_ok.c: a table in which cells are only filled.
use benchamel.Base.{
  ℕ, zero, suc, ◌+◌, ◌-◌, ◌%◌, ◌<◌, ◌≡◌, ◌≢◌, refl, ap, ◌∙◌, arith, List, [], ◌∷◌, length, get_or,
  set, get_or-set_other, ◌==◌, if◌then◌else◌,
}

-- How many cells are not 0.
abbrev pub used : List ℕ → ℕ
used [] = 0
used (x ∷ xs) = if x == 0 then used xs else used xs + 1

pub used-set :
    (t : List ℕ) (h w : ℕ) → h < length t → get_or t h 0 ≡ 0 → w ≢ 0 → used (set t h w) ≡ used t + 1
used-set [] h w lt e ne = absurd (omega (arith, lt))
used-set (x ∷ xs) zero w lt e ne = ground (arith, e, ne)
used-set (x ∷ xs) (suc h) w lt e ne = ground (arith, used-set xs h w (omega (arith, lt)) e ne)

pub used_all : (t : List ℕ) → ((j : ℕ) → j < length t → get_or t j 0 ≢ 0) → used t ≡ length t
used_all [] every = refl
used_all (x ∷ xs) every =
    let first = every 0 (omega arith) in
    ground (arith, first, used_all xs (λ j lt. every (suc j) (omega (arith, lt))))

-- Filling an empty cell changes none that is filled.
pub set_keeps :
    (t : List ℕ) (h j w : ℕ)
    → get_or t h 0 ≡ 0
    → get_or t j 0 ≢ 0
    → get_or (set t h w) j 0 ≡ get_or t j 0
set_keeps t h j w e ne = get_or-set_other t h j w 0 (λ q. ne (ap (λ k. get_or t k 0) q ∙ e))

-- A walk of as many steps as there are cells meets them all.
pub walk_all :
    (t : List ℕ) (c : ℕ)
    → length t ≡ 128
    → ((e : ℕ) → e < 128 → get_or t ((c + e) % 128) 0 ≢ 0)
    → used t ≡ 128
walk_all t c block met =
    used_all t (λ j lt q.
      met ((j + 128 - c % 128) % 128) (omega arith)
        (ap (λ k. get_or t k 0) (omega (arith, lt, block)) ∙ q))
    ∙ block
