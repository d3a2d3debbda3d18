-- ===== src/Sctbench/BoundedBuffer/Threads/Laws.antt =====
-- sctbench/inspect_examples/boundedBuffer.c: the items come out in the order in which they went in,
-- and all threads end.
use benchamel.Base.{
  ℕ, ◌+◌, ◌*◌, ◌<◌, ◌≤◌, ◌≡◌, refl, arith, List, ◌++◌, length, total, Reach, Terminates,
}
use benchamel.Sctbench.BoundedBuffer.{cells_max, word, BoundedBuf, bounded_buf_init, allocate}
use benchamel.Sctbench.BoundedBuffer.Ring.{Holds}
use benchamel.Sctbench.BoundedBuffer.Calls.{init-Holds}
use benchamel.Sctbench.BoundedBuffer.Threads.{all_made, ring_calls, State, main, Step, SomeStep}
use benchamel.Sctbench.BoundedBuffer.Threads.Crowd.{inside}
use benchamel.Sctbench.BoundedBuffer.Threads.Invariant.{Inv, Reach-Inv}
use benchamel.Sctbench.BoundedBuffer.Threads.Runs.{
  IsOver, steps_left, Inv-Terminates, started_effort,
}
use benchamel.Sctbench.BoundedBuffer.Threads.Moves.{Counted, ring_calls-IsRing}

main-Inv :
    (raw : BoundedBuf) (n rounds sz : ℕ) (s : State)
    → n + 1 < word
    → 0 < sz
    → sz < cells_max
    → raw.p_wait ≡ 0
    → raw.c_wait ≡ 0
    → Reach (SomeStep ring_calls n rounds) (main raw sz) s
    → Inv Counted n rounds sz s
unfolding bounded_buf_init allocate
main-Inv raw n rounds sz s few pos fits p c r =
    Reach-Inv ring_calls Counted ring_calls-IsRing (bounded_buf_init all_made raw sz).bbuf n rounds
      s few (init-Holds raw sz all_made pos fits refl refl refl refl) (p, c) r

pub record IsFifo (n sz : ℕ) (s : State) : Type 0 where
  pub contents : List ℕ
  pub holds : Holds s.bbuf contents
  pub order : s.sent ≡ s.received ++ contents
  pub bounded : length contents + 1 ≤ sz
  pub p_wait : s.bbuf.p_wait ≡ total inside n s.producers
  pub c_wait : s.bbuf.c_wait ≡ total inside n s.consumers

-- For a ring of fewer than 2^31 cells, fewer than 2^64 - 1 threads on each side and counts of 0
-- before `bounded_buf_init`, however the threads interleave and wake up, with or without a signal:
-- the ring holds some items, fewer than it has cells; the items put in are the items taken
-- followed by those, in order; and `p_wait` and `c_wait` are the numbers of the threads that have
-- begun to wait and have not gone on.
pub main-IsFifo :
    (raw : BoundedBuf) (n rounds sz : ℕ) (s : State)
    → n + 1 < word
    → 0 < sz
    → sz < cells_max
    → raw.p_wait ≡ 0
    → raw.c_wait ≡ 0
    → Reach (SomeStep ring_calls n rounds) (main raw sz) s
    → IsFifo n sz s
main-IsFifo raw n rounds sz s few pos fits p c r =
    let v = main-Inv raw n rounds sz s few pos fits p c r in
    record {
      contents = v.contents;
      holds = v.holds;
      order = v.order;
      bounded = omega (arith, v.holds.room, v.size);
      p_wait = v.counts.0;
      c_wait = v.counts.1;
    }

-- For a ring of 2 to 2^31 - 1 cells, fewer than 2^64 - 1 threads on each side and counts of 0
-- before `bounded_buf_init`, in every state that the threads can reach, also by wakeups without a
-- signal: either all of them have done all their rounds, everything put in has been taken, in
-- order, and there is nothing for `bounded_buf_destroy` to free, or some thread can take a step
-- that is no wakeup without a signal; every such step leaves fewer of them to take, of which there
-- are `n * (6 * rounds + 4)` at the start; and some run of such steps leads to the end.
pub main_ends-IsOver :
    (raw : BoundedBuf) (n rounds sz : ℕ) (s : State)
    → n + 1 < word
    → 2 ≤ sz
    → sz < cells_max
    → raw.p_wait ≡ 0
    → raw.c_wait ≡ 0
    → Reach (SomeStep ring_calls n rounds) (main raw sz) s
    → Terminates (Step ring_calls n rounds) (IsOver n rounds) (steps_left n rounds) s
      × (steps_left n rounds (main raw sz) ≡ n * (6 * rounds + 4))
main_ends-IsOver raw n rounds sz s few two fits p c r = (
  Inv-Terminates ring_calls Counted ring_calls-IsRing n rounds sz s few two
      (main-Inv raw n rounds sz s few (omega (arith, two)) fits p c r),
  started_effort (bounded_buf_init all_made raw sz).bbuf n rounds,
)
