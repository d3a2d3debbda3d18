-- ===== src/Sctbench/BoundedBuffer/Tests.antt =====
-- The theorems about sctbench/inspect_examples/boundedBuffer.c at concrete inputs.
use benchamel.Base.{
  ℕ, zero, suc, get_or, ◌%◌, ◌+◌, ◌*◌, ◌<◌, ◌≡◌, Terminates, refl, arith, false, [], ◌∷◌, Reach,
  here, next, update,
}
use benchamel.Sctbench.BoundedBuffer.{
  BoundedBuf, InitCalls, Statuses, bounded_buf_init, allocate, bounded_buf_put, put_finish,
  bounded_buf_get, get_finish, get_woken, full, empty_ring, next_index, bounded_buf_destroy,
}
use benchamel.Sctbench.BoundedBuffer.Ring.{Holds}
use benchamel.Sctbench.BoundedBuffer.Prepare.{IsPrepared, init-IsPrepared}
use benchamel.Sctbench.BoundedBuffer.Refines.{IsQueue, Holds-IsQueue}
use benchamel.Sctbench.BoundedBuffer.Teardown.{IsDestroyed, destroy-IsDestroyed}
use benchamel.Sctbench.BoundedBuffer.Threads.{
  awake, asleep, ring_calls, State, main, starting, at, done, Step, put_returns, get_waits,
  get_returns, SomeStep, step, wakes, uncalled,
}
use benchamel.Sctbench.BoundedBuffer.Threads.Laws.{IsFifo, main-IsFifo, main_ends-IsOver}
use benchamel.Sctbench.BoundedBuffer.Threads.Runs.{IsOver, steps_left}
use benchamel.Sctbench.BoundedBuffer.Threads.Unset.{IsMissed, unset_c_wait-IsMissed}

abbrev raw : BoundedBuf
raw = record {
  valid = 7;
  item_num = 0;
  max_size = 0;
  head = 0;
  rear = 0;
  p_wait = 0;
  c_wait = 0;
  buf = [];
}

-- malloc fails.
abbrev no_memory : InitCalls
no_memory = record { mutex_status = 0; full_status = 0; empty_status = 0; allocates = false }

init-IsPrepared_example : IsPrepared no_memory raw 3
init-IsPrepared_example = init-IsPrepared no_memory raw 3 (omega arith) (omega arith)

-- The ring is wrapped: 97 is in the last cell, 98 in the first.
abbrev wrapped : BoundedBuf
wrapped = record {
  valid = 11329274;
  item_num = 0;
  max_size = 3;
  head = 2;
  rear = 1;
  p_wait = 1;
  c_wait = 0;
  buf = 98 ∷ 0 ∷ 97 ∷ [];
}

wrapped_cells : (k : ℕ) → k < 2 → get_or wrapped.buf ((2 + k) % 3) 0 ≡ get_or (97 ∷ 98 ∷ []) k 0
wrapped_cells zero lt = refl
wrapped_cells (suc zero) lt = refl
wrapped_cells (suc (suc k)) lt = absurd (omega (arith, lt))

wrapped-Holds : Holds wrapped (97 ∷ 98 ∷ [])
wrapped-Holds = record {
  is_valid = refl;
  size = omega arith;
  block = refl;
  head = omega arith;
  rear = refl;
  room = omega arith;
  cells = wrapped_cells;
}

abbrev statuses : Statuses
statuses = record {
  lock = 0;
  unlock = 0;
  signal = 22;
  destroy_mutex = 0;
  destroy_full = 0;
  destroy_empty = 0;
}

Holds-IsQueue_example : IsQueue statuses wrapped (97 ∷ 98 ∷ [])
Holds-IsQueue_example = Holds-IsQueue statuses wrapped (97 ∷ 98 ∷ []) wrapped-Holds

destroy-IsDestroyed_example :
    IsDestroyed
      (bounded_buf_destroy statuses wrapped).bbuf
      (97 ∷ 98 ∷ [])
      (bounded_buf_destroy statuses wrapped).freed
destroy-IsDestroyed_example =
    destroy-IsDestroyed statuses wrapped (97 ∷ 98 ∷ []) wrapped-Holds (omega arith) refl refl

-- Consumer 0 has waited, producer 1 has put in an item and woken it, and it has taken the item.
abbrev one_waits : State
one_waits = record (main raw 3) {
  bbuf = record (main raw 3).bbuf { c_wait = 1 };
  consumers = update (main raw 3).consumers 0 (at asleep starting);
}

abbrev one_sent : State
one_sent = record one_waits {
  bbuf = record one_waits.bbuf { rear = 1; buf = 97 ∷ 0 ∷ 0 ∷ [] };
  producers = update one_waits.producers 1 (done starting);
  consumers = update one_waits.consumers 0 (at awake (one_waits.consumers 0));
  sent = 97 ∷ [];
}

abbrev one_received : State
one_received = record one_sent {
  bbuf = record one_sent.bbuf { c_wait = 0; head = 1 };
  consumers = update one_sent.consumers 0 (done (one_sent.consumers 0));
  received = 97 ∷ [];
}

one_received_reached : Reach (SomeStep ring_calls 2 2) (main raw 3) one_received
unfolding bounded_buf_init allocate bounded_buf_put put_finish bounded_buf_get get_finish get_woken
    full empty_ring next_index
one_received_reached =
    next
      (next (next here (step (get_waits 0 (omega arith) (omega arith) refl)))
        (step (put_returns 1 97 (omega arith) (omega arith) refl (wakes 0 refl))))
      (step (get_returns 0 (omega arith) (omega arith) refl uncalled))

main-IsFifo_example : IsFifo 2 3 one_received
main-IsFifo_example =
    main-IsFifo raw 2 2 3 one_received (omega arith) (omega arith) (omega arith) refl refl
      one_received_reached

main_ends-IsOver_example :
    Terminates (Step ring_calls 2 2) (IsOver 2 2) (steps_left 2 2) one_received
    × (steps_left 2 2 (main raw 3) ≡ 2 * (6 * 2 + 4))
main_ends-IsOver_example =
    main_ends-IsOver raw 2 2 3 one_received (omega arith) (omega arith) (omega arith) refl refl
      one_received_reached

-- A stack that held ones before: the count of the consumers that wait is 2^64 - 1.
abbrev garbage : BoundedBuf
garbage = record raw { c_wait = 18446744073709551615 }

unset_c_wait-IsMissed_example :
    (s : State) × Reach (Step ring_calls 5 10) (main garbage 3) s × IsMissed 97 s
unset_c_wait-IsMissed_example =
    unset_c_wait-IsMissed garbage 3 97 (omega arith) (omega arith) refl 5 10 (omega arith)
      (omega arith)
