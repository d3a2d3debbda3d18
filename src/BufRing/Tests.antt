-- ===== src/BufRing/Tests.antt =====
-- The theorems about the ring buffer at concrete inputs.

use benchamel.Base.{
  Reach, ℕ, ◌+◌, ◌<◌, ◌≤◌, ◌≡◌, refl, true, false, none, some, List, [], ◌∷◌, ◌++◌, arith,
}
use benchamel.BufRing.{Ring, buf_ring_alloc, is_full, next_of, slot_of}
use benchamel.BufRing.Index.{both_fixes, no_fix, wrapped, counter, wrapped_slots}
use benchamel.BufRing.Threads.{
  enq_stored, deq_loaded, enqueued, dequeued, Move, update, System, Step, move, publish, init,
}
use benchamel.BufRing.Safety.{IsEmptied, buf_ring_alloc-IsEmptied, load_once, store_free}
use benchamel.BufRing.Queue.{contents, Does, put, Returns, Step-Does}
use benchamel.BufRing.History.{Earlier}
use benchamel.BufRing.Refusals.{IsDry, AllClaimed, refusals_right}
use benchamel.BufRing.Progress.{CanMove, waits_end}
use benchamel.BufRing.Invariant.{fills, empties}
use benchamel.BufRing.Schedule.{
  begin_enqueue, begin_dequeue, go, Act, Run, advance, act, run_from, start, enqueue_call,
  dequeue_call,
}
use benchamel.BufRing.Driver
use benchamel.BufRing.Driver.Schedule.{Driven, started, followed, go_on}
use benchamel.BufRing.Twice.{returned_twice}
use benchamel.BufRing.Driver.Laws.{counted_once}
use benchamel.BufRing.Bugs.{two_cells, one_fix, never_full}

abbrev fresh : Ring
fresh = two_cells (λ t. 0)

fresh-IsEmptied : IsEmptied 1 fresh
unfolding buf_ring_alloc
fresh-IsEmptied = buf_ring_alloc-IsEmptied 1 (λ t. 0) fresh (omega arith) refl

-- Thread 2 waits to publish behind thread 1, which fills the first cell again; thread 0 is about to
-- read the second.
abbrev overlap : List Act
overlap =
    enqueue_call 1 7
    ++ dequeue_call 0
    ++ enqueue_call 1 8
    ++ (begin_dequeue 0 ∷ go 0 ∷ go 0 ∷ go 0 ∷ [])
    ++ (begin_enqueue 1 9 ∷ go 1 ∷ go 1 ∷ go 1 ∷ [])

abbrev overlapping : Run both_fixes fresh
overlapping = run_from (start both_fixes fresh) overlap

overlapping_few : overlapping.last.claims ≡ 3
unfolding act advance run_from is_full next_of slot_of
overlapping_few = refl

load_once_example :
    (overlapping.last.taken 1 ≡ none)
    × (overlapping.last.mem.ring (slot_of both_fixes overlapping.last.mem 1)
        ≡ overlapping.last.log 1)
unfolding act advance run_from is_full next_of slot_of
load_once_example =
    load_once fresh-IsEmptied overlapping.reach (omega (arith, overlapping_few)) 0 1 2 refl

store_free_example :
    (slot_of both_fixes overlapping.last.mem 2 < overlapping.last.mem.size)
    × ((u : ℕ)
        → u + overlapping.last.mem.size ≤ 2
        → overlapping.last.taken u ≡ some (overlapping.last.log u))
unfolding act advance run_from is_full next_of slot_of
store_free_example =
    store_free fresh-IsEmptied overlapping.reach (omega (arith, overlapping_few)) 1 9 2 3 refl

-- The last step of thread 1 is left out.
abbrev waiting : Run both_fixes fresh
waiting = run_from (start both_fixes fresh) (
    begin_enqueue 1 7
    ∷ go 1
    ∷ go 1
    ∷ go 1
    ∷ begin_enqueue 2 8
    ∷ go 2
    ∷ go 2
    ∷ go 2
    ∷ go 2
    ∷ go 1
    ∷ go 1
    ∷ [])

waiting_few : waiting.last.claims ≡ 2
unfolding act advance run_from is_full next_of slot_of
waiting_few = refl

abbrev published : Step both_fixes waiting.last (record waiting.last {
  mem = record waiting.last.mem { prod_tail = 1 };
  pc = update waiting.last.pc 1 (enqueued true);
})
unfolding act advance run_from is_full next_of slot_of
published = move 1 (publish {b = 7} {h = 0} {n = 1})

Step-Does_example :
    Does waiting.last.mem.size (put 7) (contents waiting.last) (7 ∷ []) × Returns published
unfolding act advance run_from is_full next_of slot_of
Step-Does_example = Step-Does fresh-IsEmptied waiting.reach published (omega (arith, waiting_few))

waits_end_example :
    ((i b h n : ℕ)
      → waiting.last.pc i ≡ enq_stored b h n
      → (j : ℕ) × (fills (waiting.last.pc j) ≡ some waiting.last.mem.prod_tail)
        × CanMove waiting.last.mem (waiting.last.pc j))
    × ((i h n b : ℕ)
        → waiting.last.pc i ≡ deq_loaded h n b
        → (j : ℕ) × (empties (waiting.last.pc j) ≡ some waiting.last.mem.cons_tail)
          × CanMove waiting.last.mem (waiting.last.pc j))
waits_end_example = waits_end fresh-IsEmptied waiting.reach (omega (arith, waiting_few))

-- Thread 2 is about to return ENOBUFS, and thread 3 NULL.
abbrev refusing : Run both_fixes fresh
refusing = run_from (start both_fixes fresh) (
    begin_dequeue 3 ∷ go 3 ∷ go 3 ∷ enqueue_call 1 7
    ++ enqueue_call 1 8
    ++ (begin_enqueue 2 9 ∷ go 2 ∷ go 2 ∷ []))

refusing_few : refusing.last.claims ≡ 2
unfolding act advance run_from is_full next_of slot_of
refusing_few = refl

refusals_right_example :
    ((i : ℕ) (m' : Ring)
      → Move both_fixes refusing.last.mem (refusing.last.pc i) m' (dequeued none)
      → Earlier IsDry fresh i refusing.last)
    × ((i : ℕ) (m' : Ring)
        → Move both_fixes refusing.last.mem (refusing.last.pc i) m' (enqueued false)
        → Earlier AllClaimed fresh i refusing.last)
refusals_right_example = refusals_right fresh-IsEmptied refusing.reach (omega (arith, refusing_few))

wrapped_slots_example :
    slot_of no_fix fresh (wrapped fresh 5) ≡ slot_of both_fixes fresh (counter fresh 5)
wrapped_slots_example = wrapped_slots 1 fresh 5 fresh-IsEmptied.sized

never_full_example :
    (s : System) × Reach (Step one_fix) (init fresh) s
    × (s.mem.prod_tail ≡ 1000)
    × ((t : ℕ) → t < 1000 → s.log t ≡ t)
    × ((t : ℕ) → s.taken t ≡ none)
never_full_example = never_full fresh (λ t. t) 1000 fresh-IsEmptied (omega arith)

-- A whole round of a thread of the driver that meets no other.
abbrev counting : Driven both_fixes 3 2 fresh
unfolding advance is_full next_of slot_of
counting =
    let start' = started both_fixes 3 2 fresh in
    let sent = followed start' (Driver.Step.send_first 2 (omega arith) (omega arith) refl) in
    let drained = followed (go_on 6 sent 2) (Driver.Step.drain 2 {success = true} refl) in
    followed (go_on 6 drained 2) (Driver.Step.consume 2 {buf = 2} refl)

counting_few : counting.last.system.claims ≡ 1
unfolding advance is_full next_of slot_of
counting_few = refl

counting_one : counting.last.consumed 2 ≡ 1
unfolding advance is_full next_of slot_of
counting_one = refl

counted_once_example :
    (counting.last.consumed 2 ≤ 1)
    × (0 < counting.last.consumed 2
        → (t : ℕ) × (t < counting.last.system.claims) × (counting.last.system.log t ≡ 2))
counted_once_example = counted_once fresh-IsEmptied counting.reach (omega (arith, counting_few)) 2

returned_twice_example :
    (s : System) × Reach (Step no_fix) (init fresh) s
    × (s.claims ≡ 2)
    × (s.log 0 ≡ 7)
    × (s.log 1 ≡ 8)
    × (s.pc 2 ≡ dequeued (some 7))
    × (s.pc 0 ≡ dequeued (some 7))
returned_twice_example = returned_twice (λ t. 0) 7 8
