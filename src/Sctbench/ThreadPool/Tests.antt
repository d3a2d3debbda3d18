-- ===== src/Sctbench/ThreadPool/Tests.antt =====
-- The theorems about sctbench/inspect_examples/thread-pool.example.c at concrete inputs.
use benchamel.Base.{ℕ, refl, true, false, [], ◌∷◌, Reach}
use benchamel.Sctbench.ThreadPool.{ThreadInfo, Pool}
use benchamel.Sctbench.ThreadPool.Worker.{Slot, arrives, absent, SomeStep, IsLost, post_to-IsLost}

abbrev entry_of : ℕ → ThreadInfo
entry_of id = record { thread_id = id; is_busy = true; th_work = 1; th_job = 2; stop = 0 }

abbrev idle_of : ℕ → ThreadInfo
idle_of id = record { thread_id = id; is_busy = false; th_work = 1; th_job = 2; stop = 0 }

-- Both threads are busy, and there is no room for a third one.
abbrev crowded : Pool
crowded = record {
  min_th_num = 1;
  cur_th_num = 2;
  max_th_num = 2;
  stop = 0;
  thread_info = entry_of 7 ∷ entry_of 8 ∷ [];
}

-- The thread has not yet begun to wait.
post_to-IsLost_example :
    (s : Slot) × Reach SomeStep
      (record { info = idle_of 8; spot = arrives; giver = absent; jobs = [] })
      s
    × IsLost 4 s
post_to-IsLost_example = post_to-IsLost (idle_of 8) 3 4 refl refl
