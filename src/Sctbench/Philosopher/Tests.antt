-- ===== src/Sctbench/Philosopher/Tests.antt =====
-- The theorems about sctbench/inspect_examples/philosopher.c at concrete inputs.
use benchamel.Base.{ℕ, ◌+◌, ◌*◌, ◌≡◌, Terminates, refl, arith, Reach, here, next, update}
use benchamel.Sctbench.Philosopher.{Fork, fork_init, fork_get, get_finish}
use benchamel.Sctbench.Philosopher.Table.{
  begins_second, sleeps_first, State, main, at, uncalled, Step, sleeps, goes_on, SomeStep, step,
  wake_up, wakes_first,
}
use benchamel.Sctbench.Philosopher.Table.Laws.{
  IsExclusive, main-IsExclusive, IsOver, steps_left, all_eaten-IsOver,
}

abbrev raw : ℕ → Fork
raw k = record { valid = k; being_used = 9; waiting = 8 }

-- Philosopher 1 holds fork 1, philosopher 0 has waited for it, and has woken up without a signal.
abbrev one_holds : State
one_holds = record {
  forks = update (main raw 3).forks 1 (record ((main raw 3).forks 1) { being_used = 1 });
  philosophers =
      update (main raw 3).philosophers 1 (at begins_second ((main raw 3).philosophers 1));
}

abbrev one_waits : State
one_waits = record {
  forks = update one_holds.forks 1 (record (one_holds.forks 1) { waiting = 1 });
  philosophers = update one_holds.philosophers 0 (at sleeps_first (one_holds.philosophers 0));
}

abbrev one_wakes : State
one_wakes = record one_waits {
  philosophers = update one_waits.philosophers 0 (at wakes_first (one_waits.philosophers 0));
}

one_wakes_reached : Reach (SomeStep 3 1) (main raw 3) one_wakes
unfolding fork_init fork_get get_finish
one_wakes_reached =
    next
      (next (next here (step (goes_on 1 1 (omega arith) (omega arith) refl refl uncalled)))
        (step (sleeps 0 1 (omega arith) (omega arith) refl refl)))
      (wake_up 0 refl)

main-IsExclusive_example : IsExclusive 3 one_wakes
main-IsExclusive_example = main-IsExclusive raw 3 1 one_wakes (omega arith) one_wakes_reached

all_eaten-IsOver_example :
    Terminates (Step 3 1) (IsOver 3 1) (steps_left 3 1) one_wakes
    × (steps_left 3 1 (main raw 3) ≡ 3 * (10 * 1 + 9))
all_eaten-IsOver_example =
    all_eaten-IsOver raw 3 1 one_wakes (omega arith) (omega arith) one_wakes_reached
