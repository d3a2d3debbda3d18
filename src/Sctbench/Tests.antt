-- ===== src/Sctbench/Tests.antt =====
-- The theorems about the programs of sctbench/concurrent-software-benchmarks at concrete inputs.
use benchamel.Base.{
  update, ◌≡◌, some, none, ◌>>=◌, Terminates, true, set, Reach, refl, arith, here, next,
}
use benchamel.Sctbench.CircularBuffer
use benchamel.Sctbench.CircularBuffer.Laws.{all_rounds-IsOk}
use benchamel.Sctbench.Queue
use benchamel.Sctbench.Queue.Laws.{round_checked}
use benchamel.Sctbench.Progression
use benchamel.Sctbench.Progression.Laws.{HaveEnded, steps_left, main-asserts, main_ends}
use benchamel.Sctbench.Indexer
use benchamel.Sctbench.Indexer.Laws.{IsIndexed, main-IsIndexed}

abbrev sent : CircularBuffer.State
sent = record (CircularBuffer.send_one CircularBuffer.main) { i1 = 1 }

abbrev received : CircularBuffer.State
received = record (CircularBuffer.receive_one sent) { i2 = 1 }

all_rounds-IsOk_example : CircularBuffer.Laws.IsOk 7 received
unfolding CircularBuffer.send_one CircularBuffer.insert_log_element
all_rounds-IsOk_example = all_rounds-IsOk 7 received (omega arith) (
    next (next here (CircularBuffer.Step.t1 (omega arith) refl))
      (CircularBuffer.Step.t2 (omega arith) refl))

-- The consumer has waited, and has taken the first item.
abbrev one_taken : Progression.State
one_taken = record Progression.main { i = 1; consumer = Progression.changed }

one_taken_reached : Reach (Progression.SomeStep 4) Progression.main one_taken
unfolding Progression.add_to
one_taken_reached =
    next
      (next
        (next
          (next here
            (Progression.SomeStep.step (Progression.Step.wait_full (omega arith) refl refl)))
          (Progression.SomeStep.step (Progression.Step.produce (omega arith) refl refl)))
        (Progression.SomeStep.step (Progression.Step.signal_full refl)))
      (Progression.SomeStep.step (Progression.Step.consume (omega arith) refl (omega arith)))

main-asserts_example :
    (Progression.asserts 4 one_taken ≡ true)
    × (one_taken.consumer ≡ Progression.ended → one_taken.flag ≡ true)
main-asserts_example = main-asserts 4 one_taken (omega arith) one_taken_reached

main_ends_example :
    Terminates (Progression.Step 4) HaveEnded (steps_left 4) one_taken
    × (steps_left 4 Progression.main ≡ 28)
main_ends_example = main_ends 4 one_taken (omega arith) one_taken_reached

-- Thread 5 has read the number 2 and put in its first entry, 13.
abbrev one_entry : Indexer.State
one_entry = record {
  table = set Indexer.main.table 91 13;
  threads =
      update
        (update (update Indexer.main.threads 5 (Indexer.looking 2 0)) 5
          (Indexer.probing 2 1 13 91 0))
        5 (Indexer.looking 2 1);
}

main-IsIndexed_example : IsIndexed one_entry
unfolding Indexer.cas
main-IsIndexed_example = main-IsIndexed one_entry (
    next
      (next (next here (Indexer.Step.read_tid 5 2 (omega arith) (omega arith) refl))
        (Indexer.Step.next_entry 5 refl (omega arith)))
      (Indexer.Step.probe 5 refl))

round_checked_example :
    ((u : Queue.State) × ((Queue.t1 Queue.main >>= Queue.t2) ≡ some u)
      × (u.asserted ≡ true)
      × (Queue.empty u.queue ≡ true)
      × (u.queue.amount ≡ 0)
      × (Queue.t1 u ≡ none))
    × ((u : Queue.State) × ((Queue.t2 Queue.main >>= Queue.t1) ≡ some u) × (u.asserted ≡ true))
round_checked_example = round_checked Queue.main (record {
  element = refl;
  stored = refl;
  indices = (refl, refl, refl);
  flags = (refl, refl);
  asserted = refl;
})
