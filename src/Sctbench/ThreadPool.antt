-- ===== src/Sctbench/ThreadPool.antt =====
-- sctbench/inspect_examples/thread-pool.example.c: the functions of the pool, each run by one thread
-- while no other changes what it reads. An access outside the array, or a `free` of a pointer into
-- it, is undefined: the function is then `none`. What pthread_create stores, or that it fails, is an
-- argument, and so is what `malloc` leaves in the array. A call of pthread_join is taken to return.
pub mod Find
pub mod Jobs
pub mod Start
pub mod Worker
mod Tests
use benchamel.Base.{
  ℕ, zero, suc, ◌+◌, ◌-◌, ◌*◌, ◌≡◌, Bool, true, false, not, Option, none, some, List, [], ◌∷◌,
  length, get_or, set, leb, ltb, ◌==◌, if◌then◌else◌, ◌>>=◌,
}

pub record ThreadInfo : Type 0 where
  pub thread_id : ℕ
  pub is_busy : Bool
  pub th_work : ℕ
  pub th_job : ℕ
  pub stop : ℕ

pub record Pool : Type 0 where
  pub min_th_num : ℕ
  pub cur_th_num : ℕ
  pub max_th_num : ℕ
  pub stop : ℕ
  pub thread_info : List ThreadInfo

abbrev pub no_info : ThreadInfo
no_info = record { thread_id = 0; is_busy = false; th_work = 0; th_job = 0; stop = 0 }

abbrev pub info_at : Pool → ℕ → ThreadInfo
info_at pool i = get_or pool.thread_info i no_info

-- A write into the array
unfoldable pub put_info : Pool → ℕ → ThreadInfo → Option Pool
put_info pool i info =
    if ltb i (length pool.thread_info)
    then some (record pool { thread_info = set pool.thread_info i info })
    else none

-- `malloc` gives the array `raw`, of `max_num` entries.
abbrev pub creat_thread_pool : ℕ → ℕ → List ThreadInfo → Pool
creat_thread_pool min_num max_num raw = record {
  min_th_num = min_num;
  cur_th_num = min_num;
  max_th_num = max_num;
  stop = 0;
  thread_info = raw;
}

-- The loop of `tp_init` from `i`, with `left` threads to create. The Boolean is what it returns.
unfoldable pub init_threads : (ℕ → Option ℕ) → ℕ → ℕ → Pool → Option (Pool × Bool)
init_threads create zero i pool = some (pool, true)
init_threads create (suc left) i pool = elim (create i) [
  | none ↦
      put_info (record pool { stop = 0 }) i (record (info_at pool i) { stop = 0 })
      >>= (λ p. some (p, false))
  | some id ↦
      put_info (record pool { stop = 0 }) i (record (info_at pool i) { stop = 0; thread_id = id })
      >>= (λ p. init_threads create left (i + 1) p)
]

-- `manager` tells whether the manage thread is created.
unfoldable pub tp_init : (ℕ → Option ℕ) → Bool → Pool → Option (Pool × Bool)
tp_init create manager pool =
    init_threads create pool.min_th_num 0 pool
    >>= (λ (p, created). some (p, if created then manager else false))

-- The first `left` entries, of which the first has the number `i`; -1 is `none`.
unfoldable pub find_thread : (ThreadInfo → Bool) → ℕ → ℕ → List ThreadInfo → Option ℕ
find_thread test zero i infos = none
find_thread test (suc left) i [] = none
find_thread test (suc left) i (info ∷ infos) =
    let rest = find_thread test left (i + 1) infos in if test info then some i else rest

unfoldable pub tp_get_thread_by_id : Pool → ℕ → Option ℕ
tp_get_thread_by_id pool id =
    find_thread (λ info. info.thread_id == id) pool.cur_th_num 0 pool.thread_info

unfoldable pub tp_add_thread : Option ℕ → Pool → Option (Pool × Bool)
tp_add_thread create pool =
    if leb pool.max_th_num pool.cur_th_num then some (pool, false) else elim create [
      | none ↦ none
      | some id ↦
          put_info (record pool { cur_th_num = pool.cur_th_num + 1 }) pool.cur_th_num
            (record (info_at pool pool.cur_th_num) { is_busy = true; thread_id = id })
          >>= (λ p. some (p, true))
    ]

-- The pool after a call of `tp_process_job`, and the thread that it has signalled
pub record Posted : Type 0 where
  pub pool : Pool
  pub signalled : ℕ

abbrev pub given : ThreadInfo → ℕ → ℕ → ThreadInfo
given info worker job = record info { is_busy = true; th_work = worker; th_job = job }

-- The last part of `tp_process_job`, in which the loop has left `i` at the number of threads.
unfoldable pub post_to_new : ℕ → ℕ → ℕ → Pool × Bool → Option Posted
post_to_new worker job i (pool, true) =
    put_info pool (pool.cur_th_num - 1)
      (record (info_at pool (pool.cur_th_num - 1)) { th_work = worker; th_job = job })
    >>= (λ p. some (record { pool = p; signalled = pool.cur_th_num - 1 }))
post_to_new worker job i (pool, false) =
    if ltb i (length pool.thread_info) then some (record { pool = pool; signalled = i }) else none

abbrev pub is_idle : ThreadInfo → Bool
is_idle info = not info.is_busy

-- With what the loop has found
unfoldable pub post_job : Option ℕ → Pool → ℕ → ℕ → Option ℕ → Option Posted
post_job create pool worker job (some i) =
    put_info pool i (given (info_at pool i) worker job)
    >>= (λ p. some (record { pool = p; signalled = i }))
post_job create pool worker job none =
    tp_add_thread create pool >>= post_to_new worker job pool.cur_th_num

unfoldable pub tp_process_job : Option ℕ → Pool → ℕ → ℕ → Option Posted
tp_process_job create pool worker job =
    post_job create pool worker job (find_thread is_idle pool.cur_th_num 0 pool.thread_info)

-- The loop of `tp_close` from `i`, with `left` threads to stop
unfoldable pub close_threads : ℕ → ℕ → Pool → Option Pool
close_threads zero i pool = some (record pool { stop = 1 })
close_threads (suc left) i pool =
    put_info pool i (record (info_at pool i) { stop = 1 }) >>= close_threads left (i + 1)

unfoldable pub tp_close : Pool → Option Pool
tp_close pool = close_threads pool.cur_th_num 0 pool
