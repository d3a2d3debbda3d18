-- ===== src/Sctbench/CircularBuffer/Laws.antt =====
-- sctbench/concurrent-software-benchmarks/circular_buffer_ok.c: its assertions.
use benchamel.Base.{
  ℕ, ◌+◌, ◌<◌, ◌≤◌, ◌≡◌, refl, ap, sym, ◌∙◌, Bool, true, false, not, some, arith, length, get_or,
  set, length-set, get_or-set_self, if◌then◌else◌, inl, inr, Bool-cases, Reach, Reach-inv,
}
use mathlib.Core.Path.{subst}
use benchamel.Sctbench.CircularBuffer.{
  Log, buffer_max, remove_log_element, insert_log_element, is_value, State, main, send_one,
  receive_one, Step, t1, t2,
}

-- What `send` says of the buffer.
abbrev pub Flag : Bool → Log → ℕ → Type 0
Flag true l value = l.next ≡ l.first
Flag false l value = (l.next ≡ l.first + 1) × (get_or l.buffer l.first 0 ≡ value)

pub record IsOk (n : ℕ) (s : State) : Type 0 where
  pub asserted : s.asserted ≡ true
  pub sizes : (length s.log.buffer ≡ buffer_max) × (s.log.buffer_size ≡ buffer_max)
  pub rounds : (s.i1 ≤ n) × (s.i2 ≤ n)
  pub bounds : (s.log.first ≤ s.log.next) × (s.log.next ≤ s.i1)
  pub one_flag : s.receive ≡ not s.send
  pub flag : Flag s.send s.log s.value

insert_room :
    (l : Log) (b : ℕ)
    → l.buffer_size ≡ buffer_max
    → l.next < 9
    → insert_log_element l b
      ≡ (record l { buffer = set l.buffer l.next b; next = l.next + 1 }, some b, true)
unfolding insert_log_element
insert_room l b size lt = ground (arith, size, lt)

remove_some :
    (l : Log)
    → l.buffer_size ≡ buffer_max
    → l.next ≡ l.first + 1
    → l.first < 9
    → remove_log_element l ≡ (record l { first = l.first + 1 }, some (get_or l.buffer l.first 0))
unfolding remove_log_element
remove_some l size e lt = ground (arith, size, lt, e)

same_value : (x y : ℕ) → x ≡ y → is_value (some x) y ≡ true
same_value x y e = ground (arith, e)

send_one-IsOk :
    (n : ℕ) (s : State)
    → n < 10
    → s.i1 < n
    → s.send ≡ true
    → IsOk n s
    → IsOk n (record (send_one s) { i1 = s.i1 + 1 })
unfolding send_one
send_one-IsOk n s few lt on v =
    let empty = subst (λ b. Flag b s.log s.value) on v.flag in
    rw (insert_room s.log s.i1 v.sizes.1 (omega (arith, v.bounds, lt, few))) (record {
      asserted = same_value s.i1 s.i1 refl;
      sizes = (length-set s.log.buffer s.log.next s.i1 ∙ v.sizes.0, v.sizes.1);
      rounds = omega (arith, v.rounds, lt);
      bounds = omega (arith, v.bounds);
      one_flag = refl;
      flag = (
        omega (arith, empty),
        ap (λ k. get_or (set s.log.buffer s.log.next s.i1) k 0) (sym empty)
            ∙ get_or-set_self s.log.buffer s.log.next s.i1 0
                (omega (arith, v.sizes, v.bounds, lt, few)),
      );
    })

receive_one-IsOk :
    (n : ℕ) (s : State)
    → n < 10
    → s.i2 < n
    → s.send ≡ false
    → IsOk n s
    → IsOk n (record (receive_one s) { i2 = s.i2 + 1 })
unfolding receive_one
receive_one-IsOk n s few lt off v =
    let sent = subst (λ b. Flag b s.log s.value) off v.flag in
    rw (remove_some s.log v.sizes.1 sent.0 (omega (arith, v.bounds, sent, v.rounds, few))) (record {
      asserted = same_value _ s.value sent.1;
      sizes = v.sizes;
      rounds = omega (arith, v.rounds, lt);
      bounds = omega (arith, v.bounds, sent);
      one_flag = refl;
      flag = sent.0;
    })

-- A round in which the thread finds its flag down.
idle_1-IsOk : (n : ℕ) (s : State) → s.i1 < n → IsOk n s → IsOk n (record s { i1 = s.i1 + 1 })
idle_1-IsOk n s lt v = record {
  asserted = v.asserted;
  sizes = v.sizes;
  rounds = omega (arith, v.rounds, lt);
  bounds = omega (arith, v.bounds);
  one_flag = v.one_flag;
  flag = v.flag;
}

idle_2-IsOk : (n : ℕ) (s : State) → s.i2 < n → IsOk n s → IsOk n (record s { i2 = s.i2 + 1 })
idle_2-IsOk n s lt v = record {
  asserted = v.asserted;
  sizes = v.sizes;
  rounds = omega (arith, v.rounds, lt);
  bounds = omega (arith, v.bounds);
  one_flag = v.one_flag;
  flag = v.flag;
}

Step-IsOk : (n : ℕ) → n < 10 → (s t : State) → Step n s t → IsOk n s → IsOk n t
Step-IsOk n few s t (t1 lt ok) v =
    let Kept : Bool → Type 0 =
      λ b. IsOk n (record (if b then send_one s else s) { i1 = s.i1 + 1 }) in
    elim (Bool-cases s.send) [
      | inl on ↦ subst Kept (sym on) (send_one-IsOk n s few lt on v)
      | inr off ↦ subst Kept (sym off) (idle_1-IsOk n s lt v)
    ]
Step-IsOk n few s t (t2 lt ok) v =
    let Kept : Bool → Type 0 =
      λ b. IsOk n (record (if b then receive_one s else s) { i2 = s.i2 + 1 }) in
    elim (Bool-cases s.send) [
      | inl on ↦ subst Kept (sym (v.one_flag ∙ ap not on)) (idle_2-IsOk n s lt v)
      | inr off ↦ subst Kept (sym (v.one_flag ∙ ap not off)) (receive_one-IsOk n s few lt off v)
    ]

-- For N below the ten cells of the buffer, and however the two threads interleave: no assertion
-- fails, and what has been sent and not received is nothing, or the one element in `value`, in its
-- place in the buffer.
pub all_rounds-IsOk : (n : ℕ) (s : State) → n < 10 → Reach (Step n) main s → IsOk n s
all_rounds-IsOk n s few r =
    Reach-inv (Step n) (IsOk n) (Step-IsOk n few)
      (record {
        asserted = refl;
        sizes = (refl, refl);
        rounds = omega arith;
        bounds = omega arith;
        one_flag = refl;
        flag = refl;
      })
      r
