-- ===== src/Sctbench/Stack/Laws.antt =====
-- sctbench/concurrent-software-benchmarks/stack_ok.c: its assertion and the order of the stack.
use benchamel.Base.{
  ℕ, ◌+◌, ◌-◌, ◌<◌, ◌≤◌, ◌≡◌, refl, ap, ◌∙◌, true, arith, List, length, get_or, set, take,
  length-set, get_or-set_self, take-set, ltb, inl, inr, Bool-cases, Reach, Reach-inv,
}
use benchamel.Sctbench.Stack.{Stack, value, stack_size, push, pop, pop_if_any, State, main, Step}

-- The elements, the first one pushed first.
abbrev pub contents : Stack → List ℕ
contents s = take s.top s.arr

pub record IsOk (s : State) : Type 0 where
  pub block : length s.stack.arr ≡ stack_size
  pub pushed : s.stack.top ≤ s.i1
  pub rounds : (s.i1 ≤ stack_size) × (s.i2 ≤ stack_size)
  pub asserted : s.asserted ≡ true

push_room :
    (s : Stack) (x : ℕ)
    → s.top < stack_size
    → push s x ≡ (record { top = s.top + 1; arr = set s.arr s.top x }, value 0)
unfolding push
push_room s x h = ground (arith, h)

pop_some :
    (s : Stack)
    → 0 < s.top
    → pop s ≡ (record s { top = s.top - 1 }, value (get_or s.arr (s.top - 1) 0))
unfolding pop
pop_some s h = ground (arith, h)

pop_if_any-bounds : (s : Stack) → ((pop_if_any s).arr ≡ s.arr) × ((pop_if_any s).top ≤ s.top)
unfolding pop_if_any pop
pop_if_any-bounds s = elim (Bool-cases (ltb 0 s.top)) [
  | inl some_left ↦ rw (some_left, pop_some s (ground (arith, some_left))) (refl, omega arith)
  | inr empty ↦ rw empty (refl, omega arith)
]

Step-IsOk : (s t : State) → Step s t → IsOk s → IsOk t
Step-IsOk s t (Step.t1 u more ok) v =
    rw (push_room u.stack u.i1 (omega (arith, v.pushed, more))) (record {
      block = length-set u.stack.arr u.stack.top u.i1 ∙ v.block;
      pushed = omega (arith, v.pushed);
      rounds = omega (arith, v.rounds, more);
      asserted = refl;
    })
Step-IsOk s t (Step.t2 u more ok) v =
    let (a, b) = pop_if_any-bounds u.stack in
    record {
      block = ap length a ∙ v.block;
      pushed = omega (arith, v.pushed, b);
      rounds = omega (arith, v.rounds, more);
      asserted = v.asserted;
    }

-- However the two threads interleave, the assertion holds: no push of the first thread finds the
-- stack full. The stack never holds more than that thread has pushed.
pub main-IsOk : (s : State) → Reach Step main s → IsOk s
main-IsOk s r =
    Reach-inv Step IsOk Step-IsOk
      (record { block = refl; pushed = omega arith; rounds = omega arith; asserted = refl }) r

back : (n : ℕ) → n + 1 - 1 ≡ n
back n = omega arith

-- On a stack with its ten cells that is not full, `pop` after `push` returns what was pushed, and
-- leaves the elements that were there.
pub pop-push :
    (s : Stack) (x : ℕ)
    → length s.arr ≡ stack_size
    → s.top < stack_size
    → ((pop (push s x).0).1 ≡ value x) × (contents (pop (push s x).0).0 ≡ contents s)
pop-push s x b h =
    rw
      (
        push_room s x h,
        pop_some (record { top = s.top + 1; arr = set s.arr s.top x }) (omega arith),
        back s.top,
      )
      (ap value (get_or-set_self s.arr s.top x 0 (omega (arith, b, h))), take-set s.top s.arr x)
