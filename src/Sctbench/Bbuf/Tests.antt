-- ===== src/Sctbench/Bbuf/Tests.antt =====
-- The theorems about sctbench/inspect_examples/bbuf.c at concrete inputs.
use benchamel.Base.{
  ℕ, zero, suc, ◌%◌, ◌+◌, ◌*◌, ◌<◌, ◌≡◌, refl, ap, arith, false, get_or, [], ◌∷◌, Reach, here, next,
  update, update_other,
}
use benchamel.Sctbench.BoundedBuffer.{BoundedBuf, allocate, full, empty_ring, next_index}
use benchamel.Sctbench.BoundedBuffer.Ring.{Holds}
use benchamel.Sctbench.BoundedBuffer.Threads.{
  awake, asleep, State, Worker, starting, in_wait, at, done, put_returns, get_waits, get_returns,
  step, wakes, unheard,
}
use benchamel.Sctbench.BoundedBuffer.Threads.Runs.{steps_left}
use benchamel.Sctbench.Bbuf.{
  bounded_buf_init, put_woken, bounded_buf_put, get_woken, bounded_buf_get, main, BbufStep,
}
use benchamel.Sctbench.Bbuf.Calls.{IsRingQueue, Holds-IsRingQueue}
use benchamel.Sctbench.Bbuf.Laws.{IsServed, main-IsServed}

-- The only cell in use is the last one.
abbrev one_item : BoundedBuf
one_item = record {
  valid = 11329274;
  item_num = 0;
  max_size = 3;
  head = 2;
  rear = 0;
  p_wait = 0;
  c_wait = 0;
  buf = 0 ∷ 0 ∷ 97 ∷ [];
}

one_item_cells : (k : ℕ) → k < 1 → get_or one_item.buf ((2 + k) % 3) 0 ≡ get_or (97 ∷ []) k 0
one_item_cells zero lt = refl
one_item_cells (suc k) lt = absurd (omega (arith, lt))

one_item-Holds : Holds one_item (97 ∷ [])
one_item-Holds = record {
  is_valid = refl;
  size = omega arith;
  block = refl;
  head = omega arith;
  rear = refl;
  room = omega arith;
  cells = one_item_cells;
}

Holds-IsRingQueue_example : IsRingQueue one_item (97 ∷ [])
Holds-IsRingQueue_example = Holds-IsRingQueue one_item (97 ∷ []) one_item-Holds (omega arith)

-- The variable `buffer` is zeroed.
abbrev buffer : BoundedBuf
buffer = record {
  valid = 0;
  item_num = 0;
  max_size = 0;
  head = 0;
  rear = 0;
  p_wait = 0;
  c_wait = 0;
  buf = [];
}

-- The consumer has waited, the producer has put in an item and woken it, and it has taken the item.
abbrev waiting : State
waiting = record (main buffer 3) {
  consumers = update (main buffer 3).consumers 0 (at asleep starting);
}

abbrev sent : State
sent = record waiting {
  bbuf = record waiting.bbuf { rear = 1; buf = 97 ∷ 0 ∷ 0 ∷ [] };
  producers = update waiting.producers 0 (done starting);
  consumers = update waiting.consumers 0 (at awake (waiting.consumers 0));
  sent = 97 ∷ [];
}

abbrev received : State
received = record sent {
  bbuf = record sent.bbuf { head = 1 };
  consumers = update sent.consumers 0 (done (sent.consumers 0));
  received = 97 ∷ [];
}

nobody_asleep : (j : ℕ) → (in_wait (sent.producers j).place) ≡ false
nobody_asleep zero = refl
nobody_asleep (suc j) =
    ap (λ (w : Worker). in_wait w.place)
      (update_other waiting.producers 0 (suc j) (done starting) (omega arith))

received_reached : Reach (BbufStep 1 10) (main buffer 3) received
unfolding bounded_buf_init allocate bounded_buf_put put_woken bounded_buf_get get_woken full
    empty_ring next_index
received_reached =
    next
      (next (next here (step (get_waits 0 (omega arith) (omega arith) refl)))
        (step (put_returns 0 97 (omega arith) (omega arith) refl (wakes 0 refl))))
      (step (get_returns 0 (omega arith) (omega arith) refl (unheard nobody_asleep)))

main-IsServed_example :
    IsServed 1 10 3 received × (steps_left 1 10 (main buffer 3) ≡ 1 * (6 * 10 + 4))
main-IsServed_example =
    main-IsServed buffer 1 10 3 received (omega arith) (omega arith) (omega arith) received_reached
