-- ===== src/Sctbench/Indexer.antt =====
-- sctbench/concurrent-software-benchmarks/indexer_ok.c: threads that put entries into a shared hash
-- table. `cas` takes the mutex of its cell, so that a call of it is one step. All threads are given
-- the address of one variable, so that the number that a thread reads there is a parameter of its
-- start.
pub mod Table
pub mod Invariant
pub mod Laws
use benchamel.Base.{
  ℕ, ◌+◌, ◌*◌, ◌%◌, ◌<◌, ◌≤◌, ◌≡◌, ◌≢◌, Bool, true, false, List, get_or, set, replicate, ltb, ◌==◌,
  if◌then◌else◌, update,
}

abbrev pub size : ℕ
size = 128

abbrev pub max : ℕ
max = 4

abbrev pub num_threads : ℕ
num_threads = 13

unfoldable pub cas : List ℕ → ℕ → ℕ → ℕ → List ℕ × Bool
cas tab h val new_val = if get_or tab h 0 == val then (set tab h new_val, true) else (tab, false)

-- Where a thread stands. `tries` counts the calls of `cas` that have failed for this entry, and
-- `ended` keeps the number that the thread had; the program has no variable for either.
pub data Routine : Type 0 where
  created : Routine
  looking : (tid m : ℕ) → Routine  -- before the test of m
  probing : (tid m w h : ℕ) (tries : ℕ) → Routine  -- before the call of cas
  ended : (tid : ℕ) → Routine

abbrev pub after_cas : ℕ → ℕ → ℕ → ℕ → ℕ → Bool → Routine
after_cas tid m w h tries true = looking tid m
after_cas tid m w h tries false = probing tid m w ((h + 1) % size) (tries + 1)

pub record State : Type 0 where
  pub table : List ℕ
  pub threads : ℕ → Routine

abbrev pub main : State
main = record { table = replicate size 0; threads = λ i. created }

abbrev pub entry : ℕ → ℕ → ℕ
entry tid m = m * 11 + tid

pub data Step (s : State) : State → Type 0 where
  read_tid :
      (i tid : ℕ)
      → i < num_threads
      → tid < num_threads
      → s.threads i ≡ created
      → Step s (record s { threads = update s.threads i (looking tid 0) })
  next_entry :
      (i : ℕ) {tid m : ℕ}
      → s.threads i ≡ looking tid m
      → m < max
      → Step s (record s {
        threads =
            update s.threads i
              (probing tid (m + 1) (entry tid (m + 1)) (entry tid (m + 1) * 7 % size) 0);
      })
  exit_thread :
      (i : ℕ) {tid m : ℕ}
      → s.threads i ≡ looking tid m
      → max ≤ m
      → Step s (record s { threads = update s.threads i (ended tid) })
  probe :
      (i : ℕ) {tid m w h tries : ℕ}
      → s.threads i ≡ probing tid m w h tries
      → Step s (record {
        table = (cas s.table h 0 w).0;
        threads = update s.threads i (after_cas tid m w h tries (cas s.table h 0 w).1);
      })
