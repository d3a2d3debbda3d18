-- ===== src/Sctbench/Queue/Laws.antt =====
-- sctbench/concurrent-software-benchmarks/queue_ok.c: a round of both threads.
use benchamel.Base.{
  ℕ, suc, ◌+◌, ◌≡◌, refl, ap, ◌∙◌, true, false, Option, none, some, arith, length, if◌then◌else◌,
  ◌>>=◌,
}
use benchamel.Sctbench.Queue.{size, empty, State, store_all, check_all, t1, t2}
use benchamel.Sctbench.Queue.Loops.{
  enqueue_outside, IsDrained, store_all-IsFilled, check_all-IsDrained,
}

-- The state of `main`, whatever the arrays hold.
pub record IsReady (s : State) : Type 0 where
  pub element : length s.queue.element ≡ size
  pub stored : length s.stored_elements ≡ size
  pub indices : (s.queue.head ≡ 0) × (s.queue.tail ≡ 0) × (s.queue.amount ≡ 0)
  pub flags : (s.enqueue_flag ≡ true) × (s.dequeue_flag ≡ false)
  pub asserted : s.asserted ≡ true

abbrev stored_flags : State → Option State
stored_flags u = some (record u { enqueue_flag = false; dequeue_flag = true })

abbrev checked_flags : State → Option State
checked_flags u = some (record u { dequeue_flag = false; enqueue_flag = true })

t1_on : (s : State) → s.enqueue_flag ≡ true → t1 s ≡ (store_all size 0 s >>= stored_flags)
unfolding t1
t1_on s on = ap (λ b. if b then (store_all size 0 s >>= stored_flags) else some s) on

t2_on : (s : State) → s.dequeue_flag ≡ true → t2 s ≡ (check_all size 0 s >>= checked_flags)
unfolding t2
t2_on s on = ap (λ b. if b then (check_all size 0 s >>= checked_flags) else some s) on

t1_fills :
    (s : State)
    → IsReady s
    → (u : State) × (t1 s ≡ some u) × (u.dequeue_flag ≡ true) × IsDrained 0 u
t1_fills s v =
    let (u, r, f) = store_all-IsFilled size 0 s refl (record {
      arrays = record {
        element = v.element;
        stored = v.stored;
        agree = λ j lt. absurd (omega (arith, lt));
      };
      tail = v.indices.1;
      head = v.indices.0;
      amount = v.indices.2;
      asserted = v.asserted;
    }) in
    (
      record u { enqueue_flag = false; dequeue_flag = true },
      t1_on s v.flags.0 ∙ ap (λ o. o >>= stored_flags) r,
      refl,
      record {
        arrays = record {
          element = f.arrays.element;
          stored = f.arrays.stored;
          agree = f.arrays.agree;
        };
        tail = f.tail;
        head = f.head;
        amount = omega (arith, f.amount);
        asserted = f.asserted;
      },
    )

t2_checks :
    (s : State)
    → s.dequeue_flag ≡ true
    → IsDrained 0 s
    → (u : State) × (t2 s ≡ some u) × (u.enqueue_flag ≡ true) × IsDrained size u
t2_checks s on v =
    let (u, r, d) = check_all-IsDrained size 0 s refl v in
    (
      record u { dequeue_flag = false; enqueue_flag = true },
      t2_on s on ∙ ap (λ o. o >>= checked_flags) r,
      refl,
      record {
        arrays = record {
          element = d.arrays.element;
          stored = d.arrays.stored;
          agree = d.arrays.agree;
        };
        tail = d.tail;
        head = d.head;
        amount = d.amount;
        asserted = d.asserted;
      },
    )

store_outside :
    (n i : ℕ) (s : State)
    → s.queue.tail ≡ size
    → length s.queue.element ≡ size
    → store_all (suc n) i s ≡ none
unfolding store_all
store_outside n i s e block = rw (enqueue_outside s.queue (i + 1) e block) refl

t1_outside :
    (s : State)
    → s.enqueue_flag ≡ true
    → s.queue.tail ≡ size
    → length s.queue.element ≡ size
    → t1 s ≡ none
t1_outside s on e block = t1_on s on ∙ ap (λ o. o >>= stored_flags) (store_outside 39 0 s e block)

t2_idle : (s : State) → s.dequeue_flag ≡ false → t2 s ≡ some s
unfolding t2
t2_idle s off = rw off refl

-- From the state of `main`, in either order of the two threads, no access lies outside an array and
-- no assertion fails. When t1 has come first, the queue is empty at the end, and another run of t1
-- would write outside its array.
pub round_checked :
    (s : State)
    → IsReady s
    → ((u : State) × ((t1 s >>= t2) ≡ some u)
        × (u.asserted ≡ true)
        × (empty u.queue ≡ true)
        × (u.queue.amount ≡ 0)
        × (t1 u ≡ none))
      × ((u : State) × ((t2 s >>= t1) ≡ some u) × (u.asserted ≡ true))
round_checked s v =
    let (u, r, on, d) = t1_fills s v in
    let (w, q, again, e) = t2_checks u on d in
    (
      (
        w,
        ap (λ o. o >>= t2) r ∙ q,
        e.asserted,
        ground (arith, e.head, e.tail),
        omega (arith, e.amount),
        t1_outside w again e.tail e.arrays.element,
      ),
      (u, ap (λ o. o >>= t1) (t2_idle s v.flags.1) ∙ r, d.asserted),
    )
