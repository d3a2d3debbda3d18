-- ===== src/Sctbench/Queue/Loops.antt =====
-- sctbench/concurrent-software-benchmarks/queue_ok.c: the loops of the two threads.
use benchamel.Base.{
  ℕ, zero, suc, ◌+◌, ◌-◌, ◌<◌, ◌≡◌, refl, ap, sym, ◌∙◌, Bool, true, false, none, some, arith, List,
  length, get_or, set, length-set, get_or-set_self, get_or-set_other, ◌==◌, ◌&&◌, ◌>>=◌,
}
use mathlib.Core.Path.{subst}
use native.Mathlib.Decide.{ℕ_discrete}
use benchamel.Sctbench.Queue.{
  size, QType, empty, enqueue, dequeue, State, store_element, store_all, compare_stored, check_one,
  check_all,
}

enqueue_room :
    (q : QType) (x : ℕ)
    → q.tail < size
    → length q.element ≡ size
    → enqueue q x
      ≡ some
          (record q { element = set q.element q.tail x; amount = q.amount + 1; tail = q.tail + 1 })
unfolding enqueue
enqueue_room q x lt block = ground (arith, lt, block)

pub enqueue_outside :
    (q : QType) (x : ℕ) → q.tail ≡ size → length q.element ≡ size → enqueue q x ≡ none
unfolding enqueue
enqueue_outside q x e block = ground (arith, e, block)

dequeue-some :
    (q : QType)
    → q.head < size
    → length q.element ≡ size
    → dequeue q
      ≡ some (record q { amount = q.amount - 1; head = q.head + 1 }, get_or q.element q.head 0)
unfolding dequeue
dequeue-some q lt block = ground (arith, lt, block)

store_room :
    (x i : ℕ) (s : State)
    → i < length s.stored_elements
    → store_element i x s ≡ some (record s { stored_elements = set s.stored_elements i x })
unfolding store_element
store_room x i s lt = ground (arith, lt)

compare_room :
    (x i : ℕ) (s : State)
    → i < length s.stored_elements
    → compare_stored i x s
      ≡ some (record s { asserted = s.asserted && x == get_or s.stored_elements i 0 })
unfolding compare_stored
compare_room x i s lt = ground (arith, lt)

agree_next :
    (xs ys : List ℕ) (t i j x : ℕ)
    → t ≡ i
    → length xs ≡ size
    → length ys ≡ size
    → i < size
    → j < i + 1
    → (j < i → get_or xs j 0 ≡ get_or ys j 0)
    → get_or (set xs t x) j 0 ≡ get_or (set ys i x) j 0
agree_next xs ys t i j x e a b lt le before = elim (ℕ_discrete j i) [
  | yes same ↦
      ap (λ k. get_or (set xs t x) k 0) (same ∙ sym e)
      ∙ (get_or-set_self xs t x 0 (omega (arith, e, a, lt))
          ∙ (sym (get_or-set_self ys i x 0 (omega (arith, b, lt)))
              ∙ ap (λ k. get_or (set ys i x) k 0) (sym same)))
  | no other ↦
      get_or-set_other xs t j x 0 (λ q. other (q ∙ e))
      ∙ (before (omega (arith, le, other)) ∙ sym (get_or-set_other ys i j x 0 other))
]

-- The arrays, which agree below `n`.
pub record Arrays (n : ℕ) (s : State) : Type 0 where
  pub element : length s.queue.element ≡ size
  pub stored : length s.stored_elements ≡ size
  pub agree : (j : ℕ) → j < n → get_or s.queue.element j 0 ≡ get_or s.stored_elements j 0

-- After `i` rounds of the loop of t1.
pub record IsFilled (i : ℕ) (s : State) : Type 0 where
  pub arrays : Arrays i s
  pub tail : s.queue.tail ≡ i
  pub head : s.queue.head ≡ 0
  pub amount : s.queue.amount ≡ i
  pub asserted : s.asserted ≡ true

pub store_all-IsFilled :
    (n i : ℕ) (s : State)
    → i + n ≡ size
    → IsFilled i s
    → (u : State) × (store_all n i s ≡ some u) × IsFilled size u
unfolding store_all
store_all-IsFilled zero i s e v = (s, refl, subst (λ k. IsFilled k s) (omega (arith, e)) v)
store_all-IsFilled (suc n) i s e v =
    let q = s.queue in
    let u : State = record s {
      queue = record q {
        element = set q.element q.tail (i + 1);
        amount = q.amount + 1;
        tail = q.tail + 1;
      };
      stored_elements = set s.stored_elements i (i + 1);
    } in
    let (w, r, f) = store_all-IsFilled n (i + 1) u (omega (arith, e)) (record {
      arrays = record {
        element = length-set q.element q.tail (i + 1) ∙ v.arrays.element;
        stored = length-set s.stored_elements i (i + 1) ∙ v.arrays.stored;
        agree = λ j lt.
            agree_next q.element s.stored_elements q.tail i j (i + 1) v.tail v.arrays.element
              v.arrays.stored (omega (arith, e)) lt (v.arrays.agree j);
      };
      tail = omega (arith, v.tail);
      head = v.head;
      amount = omega (arith, v.amount);
      asserted = v.asserted;
    }) in
    (
      w,
      rw
          (
            enqueue_room q (i + 1) (omega (arith, v.tail, e)) v.arrays.element,
            store_room (i + 1) i (record s { queue = u.queue }) (omega (arith, v.arrays.stored, e)),
          )
          r,
      f,
    )

-- After `i` rounds of the loop of t2.
pub record IsDrained (i : ℕ) (s : State) : Type 0 where
  pub arrays : Arrays size s
  pub tail : s.queue.tail ≡ size
  pub head : s.queue.head ≡ i
  pub amount : s.queue.amount + i ≡ size
  pub asserted : s.asserted ≡ true

still_true : (b : Bool) (x y : ℕ) → b ≡ true → x ≡ y → (b && x == y) ≡ true
still_true b x y e q = ground (arith, e, q)

check_one-IsDrained :
    (i : ℕ) (s : State)
    → i < size
    → IsDrained i s
    → (u : State) × (check_one i s ≡ some u) × IsDrained (i + 1) u
unfolding check_one
check_one-IsDrained i s lt v =
    let q = s.queue in
    let not_empty : empty q ≡ false = ground (arith, v.head, v.tail, lt) in
    (
      record s {
        queue = record q { amount = q.amount - 1; head = q.head + 1 };
        asserted = s.asserted && get_or q.element q.head 0 == get_or s.stored_elements i 0;
      },
      rw
          (
            not_empty,
            dequeue-some q (omega (arith, v.head, lt)) v.arrays.element,
            compare_room (get_or q.element q.head 0) i
                (record s { queue = record q { amount = q.amount - 1; head = q.head + 1 } })
                (omega (arith, v.arrays.stored, lt)),
          )
          refl,
      record {
        arrays = record {
          element = v.arrays.element;
          stored = v.arrays.stored;
          agree = v.arrays.agree;
        };
        tail = v.tail;
        head = omega (arith, v.head);
        amount = omega (arith, v.amount, lt);
        asserted =
            still_true s.asserted (get_or q.element q.head 0) (get_or s.stored_elements i 0)
              v.asserted (ap (λ k. get_or q.element k 0) v.head ∙ v.arrays.agree i lt);
      },
    )

pub check_all-IsDrained :
    (n i : ℕ) (s : State)
    → i + n ≡ size
    → IsDrained i s
    → (u : State) × (check_all n i s ≡ some u) × IsDrained size u
unfolding check_all
check_all-IsDrained zero i s e v = (s, refl, subst (λ k. IsDrained k s) (omega (arith, e)) v)
check_all-IsDrained (suc n) i s e v =
    let (u, r, w) = check_one-IsDrained i s (omega (arith, e)) v in
    let (t, q, z) = check_all-IsDrained n (i + 1) u (omega (arith, e)) w in
    (t, ap (λ o. o >>= check_all n (i + 1)) r ∙ q, z)
