-- ===== src/Sctbench/Indexer/Invariant.antt =====
-- sctbench/concurrent-software-benchmarks/indexer_ok.c: what holds between the steps.
use benchamel.Base.{
  ℕ, ◌+◌, ◌-◌, ◌*◌, ◌%◌, ◌<◌, ◌≤◌, ◌≡◌, ◌≢◌, sym, ◌∙◌, true, false, arith, List, length, get_or,
  set, update, update_same, update_other, total, total-update, total-le,
}
use mathlib.Core.Path.{subst}
use native.Mathlib.Decide.{dec_lt, ℕ_discrete}
use benchamel.Sctbench.Indexer.{
  size, max, num_threads, cas, Routine, created, looking, probing, ended, State, entry,
}
use benchamel.Sctbench.Indexer.Table.{used, set_keeps}

-- The first `m` entries of a thread are in the table.
abbrev pub Holds : List ℕ → ℕ → ℕ → Type 0
Holds t tid m = (k : ℕ) → 0 < k → k ≤ m → (h : ℕ) × (get_or t h 0 ≡ entry tid k)

-- The cells that a search has met are taken.
abbrev pub Met : List ℕ → ℕ → ℕ → Type 0
Met t w tries = (e : ℕ) → e < tries → get_or t ((w * 7 + e) % size) 0 ≢ 0

abbrev pub Fine : List ℕ → Routine → Type 0
Fine t created = Unit
Fine t (looking tid m) = (m ≤ max) × Holds t tid m
Fine t (probing tid m w h tries) =
    (0 < m)
    × (m ≤ max)
    × (w ≡ entry tid m)
    × (h ≡ (w * 7 + tries) % size)
    × (tries < size)
    × Met t w tries
    × Holds t tid (m - 1)
Fine t (ended tid) = Holds t tid max

-- How many entries of a thread are in the table.
abbrev pub placed : Routine → ℕ
placed created = 0
placed (looking tid m) = m
placed (probing tid m w h tries) = m - 1
placed (ended tid) = max

pub record Inv (s : State) : Type 0 where
  pub block : length s.table ≡ size
  pub threads : (i : ℕ) → Fine s.table (s.threads i)
  pub few : (i : ℕ) → num_threads ≤ i → s.threads i ≡ created
  pub filled : used s.table ≡ total placed num_threads s.threads

placed-le : (t : List ℕ) (r : Routine) → Fine t r → placed r ≤ max
placed-le t created v = omega arith
placed-le t (looking tid m) v = v.0
placed-le t (probing tid m w h tries) v = omega (arith, v)
placed-le t (ended tid) v = omega arith

pub used-le : (s : State) → Inv s → used s.table ≤ 52
used-le s v = omega (
  arith,
  v.filled,
  total-le placed max num_threads s.threads (λ i lt. placed-le s.table (s.threads i) (v.threads i)),
)

pub active : (s : State) (i : ℕ) → Inv s → s.threads i ≢ created → i < num_threads
active s i v ne = elim (dec_lt i num_threads) [
  | yes lt ↦ lt
  | no ge ↦ absurd (ne (v.few i (omega (arith, ge))))
]

pub update-Fine :
    (t : List ℕ) (f : ℕ → Routine) (i : ℕ) (r : Routine)
    → ((j : ℕ) → Fine t (f j))
    → Fine t r
    → (j : ℕ) → Fine t (update f i r j)
update-Fine t f i r v w j = elim (ℕ_discrete i j) [
  | yes e ↦ subst (Fine t) (sym (update_same f i j r e)) w
  | no ne ↦ subst (Fine t) (sym (update_other f i j r ne)) (v j)
]

-- A step of one thread that puts nothing into the table.
pub moved-Inv :
    (s : State) (i : ℕ) (r : Routine)
    → Inv s
    → i < num_threads
    → Fine s.table r
    → placed r ≡ placed (s.threads i)
    → Inv (record s { threads = update s.threads i r })
moved-Inv s i r v lt w e = record {
  block = v.block;
  threads = update-Fine s.table s.threads i r v.threads w;
  few = λ j le. update_other s.threads i j r (omega (arith, lt, le)) ∙ v.few j le;
  filled = omega (arith, v.filled, e, total-update placed num_threads s.threads i r lt);
}

module _ (t : List ℕ) (h w : ℕ) (e : get_or t h 0 ≡ 0) where
  pub set-Holds : (tid m : ℕ) → Holds t tid m → Holds (set t h w) tid m
  set-Holds tid m v k lo hi =
      let (j, q) = v k lo hi in (j, set_keeps t h j w e (λ z. omega (arith, z, q, lo)) ∙ q)

  set-Met : (x tries : ℕ) → Met t x tries → Met (set t h w) x tries
  set-Met x tries v k lt z = v k lt (sym (set_keeps t h ((x * 7 + k) % size) w e (v k lt)) ∙ z)

  pub set-Fine : (r : Routine) → Fine t r → Fine (set t h w) r
  set-Fine created v = tt
  set-Fine (looking tid m) v = (v.0, set-Holds tid m v.1)
  set-Fine (probing tid m x j tries) v =
      (v.0, v.1, v.2, v.3, v.4, set-Met x tries v.5, set-Holds tid (m - 1) v.6)
  set-Fine (ended tid) v = set-Holds tid max v

pub cas_empty : (t : List ℕ) (h w : ℕ) → get_or t h 0 ≡ 0 → cas t h 0 w ≡ (set t h w, true)
unfolding cas
cas_empty t h w e = ground (arith, e)

pub cas_taken : (t : List ℕ) (h w : ℕ) → get_or t h 0 ≢ 0 → cas t h 0 w ≡ (t, false)
unfolding cas
cas_taken t h w e = ground (arith, e)
