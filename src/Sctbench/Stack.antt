-- ===== src/Sctbench/Stack.antt =====
-- sctbench/concurrent-software-benchmarks/stack_ok.c: a stack that one thread fills and another
-- empties. Each thread takes the mutex for a whole round of its loop, so that a round is one step.
-- `top` never falls below 0 in a round, since `pop` tests it.
pub mod Laws
use benchamel.Base.{
  ℕ, zero, suc, ◌+◌, ◌-◌, ◌<◌, ◌≡◌, Bool, true, false, List, [], ◌∷◌, length, get_or, set,
  replicate, ltb, ◌==◌, if◌then◌else◌,
}

abbrev pub stack_size : ℕ
stack_size = 10

pub record Stack : Type 0 where
  pub top : ℕ
  pub arr : List ℕ

-- What `push` and `pop` return: -1, -2, or a value.
pub data Result : Type 0 where
  overflow underflow : Result
  value : ℕ → Result

abbrev pub inc_top : Stack → Stack
inc_top s = record s { top = s.top + 1 }

abbrev pub dec_top : Stack → Stack
dec_top s = record s { top = s.top - 1 }

abbrev pub get_top : Stack → ℕ
get_top s = s.top

unfoldable pub push : Stack → ℕ → Stack × Result
push s x =
    if s.top == stack_size
    then (s, overflow)
    else (inc_top (record s { arr = set s.arr (get_top s) x }), value 0)

unfoldable pub pop : Stack → Stack × Result
pop s =
    if s.top == 0 then (s, underflow) else (dec_top s, value (get_or s.arr (get_top (dec_top s)) 0))

-- `x != OVERFLOW`
abbrev pub is_not_overflow : Result → Bool
is_not_overflow overflow = false
is_not_overflow underflow = true
is_not_overflow (value n) = true

pub record State : Type 0 where
  pub stack : Stack
  pub i1 : ℕ  -- the rounds that t1 has done
  pub i2 : ℕ
  pub asserted : Bool  -- no assertion has failed

abbrev pub main : State
main = record {
  stack = record { top = 0; arr = replicate stack_size 0 };
  i1 = 0;
  i2 = 0;
  asserted = true;
}

-- `if (top > 0) pop(arr);`
unfoldable pub pop_if_any : Stack → Stack
pop_if_any s = if ltb 0 s.top then (pop s).0 else s

pub data Step : State → State → Type 0 where
  t1 :
      (s : State)
      → s.i1 < stack_size
      → s.asserted ≡ true
      → Step s (record s {
        stack = (push s.stack s.i1).0;
        i1 = s.i1 + 1;
        asserted = is_not_overflow (push s.stack s.i1).1;
      })
  t2 :
      (s : State)
      → s.i2 < stack_size
      → s.asserted ≡ true
      → Step s (record s { stack = pop_if_any s.stack; i2 = s.i2 + 1 })
