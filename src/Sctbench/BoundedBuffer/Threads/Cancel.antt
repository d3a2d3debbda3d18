-- ===== src/Sctbench/BoundedBuffer/Threads/Cancel.antt =====
-- sctbench/inspect_examples/boundedBuffer.c: the cleanup handlers. `bounded_buf_get` registers the
-- second one while it waits, for a thread that is cancelled there; nothing registers the first one.
-- Afterwards they unlock the mutex, which a cancelled thread has taken again.
use benchamel.Base.{ℕ, ◌+◌, ◌<◌, ◌≡◌, arith, update, total-update, Reach}
use benchamel.Sctbench.BoundedBuffer.{BoundedBuf, cells_max, word, decrement}
use benchamel.Sctbench.BoundedBuffer.Calls.{counted-Holds}
use benchamel.Sctbench.BoundedBuffer.Threads.{calling, ring_calls, State, main, at, SomeStep}
use benchamel.Sctbench.BoundedBuffer.Threads.Crowd.{inside, total_inside-le}
use benchamel.Sctbench.BoundedBuffer.Threads.Laws.{IsFifo, main-IsFifo}

unfoldable bounded_buf_putcleanup : BoundedBuf → BoundedBuf
bounded_buf_putcleanup b = record b { p_wait = decrement b.p_wait }

unfoldable bounded_buf_getcleanup : BoundedBuf → BoundedBuf
bounded_buf_getcleanup b = record b { c_wait = decrement b.c_wait }

-- Consumer `k` is cancelled in its wait: it makes no further call.
abbrev cancelled : ℕ → State → State
cancelled k s = record s {
  bbuf = bounded_buf_getcleanup s.bbuf;
  consumers = update s.consumers k (at calling (s.consumers k));
}

-- Producer `k` is cancelled in its wait, had `bounded_buf_put` registered its handler.
abbrev put_cancelled : ℕ → State → State
put_cancelled k s = record s {
  bbuf = bounded_buf_putcleanup s.bbuf;
  producers = update s.producers k (at calling (s.producers k));
}

module _ (raw : BoundedBuf) (n rounds sz : ℕ) (s : State) (few : n + 1 < word) (pos : 0 < sz)
    (fits : sz < cells_max) (p : raw.p_wait ≡ 0) (c : raw.c_wait ≡ 0)
    (r : Reach (SomeStep ring_calls n rounds) (main raw sz) s) (k : ℕ) (lt : k < n) where
  -- A consumer that is cancelled in its wait takes itself out of the count and leaves the items.
  cancelled-IsFifo : inside (s.consumers k) ≡ 1 → IsFifo n sz (cancelled k s)
  unfolding bounded_buf_getcleanup
  cancelled-IsFifo here_ =
      let v = main-IsFifo raw n rounds sz s few pos fits p c r in
      let less = total-update inside n s.consumers k (at calling (s.consumers k)) lt in
      record {
        contents = v.contents;
        holds = counted-Holds s.bbuf v.contents s.bbuf.p_wait (decrement s.bbuf.c_wait) v.holds;
        order = v.order;
        bounded = v.bounded;
        p_wait = v.p_wait;
        c_wait = omega (arith, v.c_wait, here_, less, total_inside-le n s.consumers, few);
      }

  -- The handler of a put would do the same for a producer.
  put_cancelled-IsFifo : inside (s.producers k) ≡ 1 → IsFifo n sz (put_cancelled k s)
  unfolding bounded_buf_putcleanup
  put_cancelled-IsFifo here_ =
      let v = main-IsFifo raw n rounds sz s few pos fits p c r in
      let less = total-update inside n s.producers k (at calling (s.producers k)) lt in
      record {
        contents = v.contents;
        holds = counted-Holds s.bbuf v.contents (decrement s.bbuf.p_wait) s.bbuf.c_wait v.holds;
        order = v.order;
        bounded = v.bounded;
        p_wait = omega (arith, v.p_wait, here_, less, total_inside-le n s.producers, few);
        c_wait = v.c_wait;
      }
