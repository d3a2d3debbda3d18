-- ===== src/Sctbench/BoundedBuffer/Threads/Unset.antt =====
-- sctbench/inspect_examples/boundedBuffer.c: bounded_buf_init leaves p_wait and c_wait as they were.
use benchamel.Base.{
  ℕ, ◌<◌, ◌≤◌, ◌≡◌, refl, ap, ◌∙◌, arith, false, some, [], ◌∷◌, update, update_other, Reach, here,
  next, ltb, ◌==◌,
}
use benchamel.Sctbench.BoundedBuffer.{
  cells_max, BoundedBuf, bounded_buf_init, bounded_buf_put, bounded_buf_get, allocate, increment,
  returned, waits,
}
use benchamel.Sctbench.BoundedBuffer.Ring.{Holds, stored, stored-Holds}
use benchamel.Sctbench.BoundedBuffer.Calls.{counted-Holds, init-Holds, put_lem, get_lem}
use benchamel.Sctbench.BoundedBuffer.Threads.{
  all_made, all_well, ring_calls, asleep, State, main, starting, at, done, uncalled, Step,
  put_returns, get_waits,
}

-- A consumer is in its wait, no consumer has been woken, and the buffer is not empty.
pub record IsMissed (item : ℕ) (s : State) : Type 0 where
  pub holds : Holds s.bbuf (item ∷ [])
  pub asleep_here : (s.consumers 0).place ≡ asleep
  pub others : (k : ℕ) → 0 < k → s.consumers k ≡ starting
  pub uncounted : s.bbuf.c_wait ≡ 0

module _ (raw : BoundedBuf) (sz item : ℕ) (two : 2 ≤ sz) (fits : sz < cells_max)
    (c : raw.c_wait ≡ 18446744073709551615) where
  abbrev start : BoundedBuf
  start = (bounded_buf_init all_made raw sz).bbuf

  abbrev waited : BoundedBuf
  waited = record start { c_wait = increment start.c_wait }

  start-Holds : Holds start []
  start-Holds = init-Holds raw sz all_made (omega (arith, two)) fits refl refl refl refl

  waited-Holds : Holds waited []
  waited-Holds = counted-Holds start [] start.p_wait (increment start.c_wait) start-Holds

  forgotten : waited.c_wait ≡ 0
  unfolding bounded_buf_init allocate
  forgotten = omega (arith, c)

  size : waited.max_size ≡ sz
  unfolding bounded_buf_init allocate
  size = refl

  first_waits : bounded_buf_get all_well start ≡ waits waited
  first_waits = get_lem all_well start [] start-Holds

  first_put : bounded_buf_put all_well waited item ≡ returned (stored waited item) item false 0
  first_put =
      let f = put_lem all_well waited [] waited-Holds item in
      let more : (◌==◌ 1 waited.max_size) ≡ false = ground (arith, size, two) in
      let none_ : ltb 0 waited.c_wait ≡ false = ground (arith, forgotten) in
      f ∙ rw (more, none_) refl

  abbrev pub missed : State
  missed = record (main raw sz) {
    bbuf = stored waited item;
    consumers = update (λ k. starting) 0 (at asleep starting);
    producers = update (λ k. starting) 0 (done starting);
    sent = item ∷ [];
  }

  missed-IsMissed : IsMissed item missed
  missed-IsMissed = record {
    holds = stored-Holds waited [] item waited-Holds (omega (arith, size, two));
    asleep_here = refl;
    others = λ k pos. update_other (λ k. starting) 0 k (at asleep starting) (omega (arith, pos));
    uncounted = forgotten;
  }

  -- If `c_wait` was 2^64 - 1 before `bounded_buf_init`, the ring has 2 to 2^31 - 1 cells and there is
  -- a thread on each side with a round to do, then the threads can reach a state in which the buffer
  -- holds an item, the first consumer is in its wait, and the other consumers have not begun: the
  -- put has sent no signal.
  pub unset_c_wait-IsMissed :
      (n rounds : ℕ)
      → 0 < n
      → 0 < rounds
      → (s : State) × Reach (Step ring_calls n rounds) (main raw sz) s × IsMissed item s
  unset_c_wait-IsMissed n rounds some_ more = (
    missed,
    next (next here (get_waits 0 some_ more (ap some first_waits)))
        (put_returns 0 item some_ more (ap some first_put) uncalled),
    missed-IsMissed,
  )
