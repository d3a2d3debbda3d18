-- ===== src/BufRing/Twice.antt =====
-- buf_ring/buf_ring.h without the fixes: a pointer that is put in once is returned twice.
use benchamel.Base.{ℕ, ◌≡◌, refl, some, List, ◌∷◌, ◌++◌, [], Reach}
use benchamel.BufRing.{is_full, next_of, slot_of}
use benchamel.BufRing.Index.{no_fix}
use benchamel.BufRing.Threads.{dequeued, System, Step, init}
use benchamel.BufRing.Schedule.{
  begin_dequeue, go, Act, advance, act, run_from, start, enqueue_call, dequeue_call,
}
use benchamel.BufRing.Bugs.{two_cells}

-- Thread 0 has read both indices when threads 2, 3 and 4 take the ring round; it then claims a cell
-- under the index that it has read.
abbrev around : ℕ → ℕ → List Act
around first second =
    enqueue_call 1 first
    ++ (begin_dequeue 0 ∷ go 0 ∷ go 0 ∷ [])
    ++ dequeue_call 2
    ++ enqueue_call 3 second
    ++ dequeue_call 4
    ++ (go 0 ∷ go 0 ∷ go 0 ∷ go 0 ∷ [])

-- Without a fix, in a ring of two cells, whatever they hold at first, and for any two pointers: with
-- five threads a state can be reached in which just these two have been put in, the first one first,
-- and two threads have both returned the first one.
pub returned_twice :
    (cells : ℕ → ℕ) (first second : ℕ)
    → (s : System) × Reach (Step no_fix) (init (two_cells cells)) s
      × (s.claims ≡ 2)
      × (s.log 0 ≡ first)
      × (s.log 1 ≡ second)
      × (s.pc 2 ≡ dequeued (some first))
      × (s.pc 0 ≡ dequeued (some first))
unfolding act advance run_from is_full next_of slot_of
returned_twice cells first second =
    let r = run_from (start no_fix (two_cells cells)) (around first second) in
    (r.last, r.reach, refl, refl, refl, refl, refl)
