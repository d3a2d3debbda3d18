-- ===== src/Sctbench/ThreadPool/Jobs.antt =====
-- sctbench/inspect_examples/thread-pool.example.c: who gets a job.
use benchamel.Base.{ℕ, ◌+◌, ◌<◌, ◌≤◌, ◌≡◌, true, Option, none, some, length, set}
use benchamel.Sctbench.ThreadPool.{ThreadInfo, Pool, info_at, Posted, given, is_idle}
use benchamel.Sctbench.ThreadPool.Find.{IsFirst, NoneOf}

-- The bounds on the number of threads
pub record PoolOk (pool : Pool) : Type 0 where
  pub low : pool.min_th_num ≤ pool.cur_th_num
  pub high : pool.cur_th_num ≤ pool.max_th_num
  pub block : length pool.thread_info ≡ pool.max_th_num

abbrev pub AllBusy : Pool → Type 0
AllBusy pool = NoneOf is_idle pool.cur_th_num pool.thread_info

-- The entry of the thread that gets the job, and the pool around it
abbrev pub posted_to : Pool → ℕ → ThreadInfo → Posted
posted_to pool i info = record {
  pool = record pool { thread_info = set pool.thread_info i info };
  signalled = i;
}

-- What becomes of a job.
pub data Fate (create : Option ℕ) (pool : Pool) (worker job : ℕ) : Option Posted → Type 0 where
  to_idle :
      (i : ℕ) {r : Option Posted}
      → IsFirst is_idle pool.cur_th_num pool.thread_info i
      → r ≡ some (posted_to pool i (given (info_at pool i) worker job))
      → Fate create pool worker job r
  to_new :
      (id : ℕ) {r : Option Posted}
      → AllBusy pool
      → pool.cur_th_num < pool.max_th_num
      → create ≡ some id
      → r
        ≡ some (
            posted_to
              (record pool { cur_th_num = pool.cur_th_num + 1 })
              pool.cur_th_num
              (record (given (info_at pool pool.cur_th_num) worker job) { thread_id = id }))
      → Fate create pool worker job r
  bad_free :
      {r : Option Posted}
      → AllBusy pool
      → pool.cur_th_num < pool.max_th_num
      → create ≡ none
      → r ≡ none
      → Fate create pool worker job r
  beyond_array :
      {r : Option Posted}
      → AllBusy pool
      → pool.cur_th_num ≡ pool.max_th_num
      → r ≡ none
      → Fate create pool worker job r

module _ (create : Option ℕ) (pool : Pool) (worker job : ℕ) (v : PoolOk pool) where
  abbrev grown : Pool
  grown = record pool { cur_th_num = pool.cur_th_num + 1 }

  abbrev new_info : ℕ → ThreadInfo
  new_info id = record (info_at pool pool.cur_th_num) { is_busy = true; thread_id = id }

  abbrev added : ℕ → Pool
  added id = record grown { thread_info = set pool.thread_info pool.cur_th_num (new_info id) }
