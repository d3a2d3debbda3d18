-- ===== src/BufRing/Schedule.antt =====
-- buf_ring/buf_ring.h: running the threads in a given order.
use benchamel.Base.{
  ℕ, ◌≡◌, refl, Bool, true, false, Option, none, some, List, [], ◌∷◌, ◌⊎◌, inl, inr, Reach, here,
  next,
}
use native.Mathlib.Decide.{ℕ_discrete}
use benchamel.BufRing.{Fixes, Ring, is_full}
use benchamel.BufRing.Threads.{
  Pc, enq, enq_read, enq_ready, enq_claimed, enq_stored, enq_turn, deq, deq_read, deq_ready,
  deq_claimed, deq_loaded, deq_turn, Move, read_prod_head, read_cons_tail, no_room, claim_cell,
  cell_lost, store_buf, prod_turn, publish, read_cons_head, read_prod_tail, no_buf, claim_buf,
  buf_lost, load_buf, cons_turn, free_cell, System, Step, enqueue, dequeue, move, is_between, init,
}

abbrev true_or_false : (b : Bool) → (b ≡ true) ⊎ (b ≡ false)
true_or_false true = inl refl
true_or_false false = inr refl

-- The one step that a thread in a call can take, unless it has to wait.
unfoldable pub advance :
    (f : Fixes) (m : Ring) (p : Pc) → Option ((m' : Ring) × (p' : Pc) × Move f m p m' p')
unfolding ℕ_discrete
advance f m (enq b) = some (_, _, read_prod_head)
advance f m (enq_read b h) = some (_, _, read_cons_tail)
advance f m (enq_ready b h c) = elim (true_or_false (is_full f m h c)) [
  | inl full ↦ some (_, _, no_room full)
  | inr room ↦ elim (ℕ_discrete m.prod_head h) [
    | yes same ↦ some (_, _, claim_cell room same)
    | no other ↦ some (_, _, cell_lost room other)
  ]
]
advance f m (enq_claimed b h n) = some (_, _, store_buf)
advance f m (enq_stored b h n) = elim (ℕ_discrete m.prod_tail h) [
  | yes same ↦ some (_, _, prod_turn same)
  | no other ↦ none
]
advance f m (enq_turn b h n) = some (_, _, publish)
advance f m deq = some (_, _, read_cons_head)
advance f m (deq_read h) = some (_, _, read_prod_tail)
advance f m (deq_ready h t) = elim (ℕ_discrete h t) [
  | yes empty ↦ some (_, _, no_buf empty)
  | no differ ↦ elim (ℕ_discrete m.cons_head h) [
    | yes same ↦ some (_, _, claim_buf differ same)
    | no other ↦ some (_, _, buf_lost differ other)
  ]
]
advance f m (deq_claimed h n) = some (_, _, load_buf)
advance f m (deq_loaded h n b) = elim (ℕ_discrete m.cons_tail h) [
  | yes same ↦ some (_, _, cons_turn same)
  | no other ↦ none
]
advance f m (deq_turn h n b) = some (_, _, free_cell)
advance f m _ = none

pub data Act : Type 0 where
  begin_enqueue : (i b : ℕ) → Act
  begin_dequeue : (i : ℕ) → Act
  go : (i : ℕ) → Act

pub record Run (f : Fixes) (m : Ring) : Type 0 where
  pub last : System
  pub reach : Reach (Step f) (init m) last

-- An act that cannot be done is passed over.
unfoldable pub act : {f : Fixes} {m : Ring} → Run f m → Act → Run f m
unfolding advance
act r (begin_enqueue i b) = elim (true_or_false (is_between (r.last.pc i))) [
  | inl e ↦ record { last = _; reach = next r.reach (enqueue i b e) }
  | inr e ↦ r
]
act r (begin_dequeue i) = elim (true_or_false (is_between (r.last.pc i))) [
  | inl e ↦ record { last = _; reach = next r.reach (dequeue i e) }
  | inr e ↦ r
]
act {f} r (go i) = elim (advance f r.last.mem (r.last.pc i)) [
  | some (m', p', mv) ↦ record { last = _; reach = next r.reach (move i mv) }
  | none ↦ r
]

unfoldable pub run_from : {f : Fixes} {m : Ring} → Run f m → List Act → Run f m
unfolding act
run_from r [] = r
run_from r (a ∷ as_) = run_from (act r a) as_

abbrev pub start : (f : Fixes) (m : Ring) → Run f m
start f m = record { last = init m; reach = here }

-- A whole call of a thread that meets no other.
abbrev pub enqueue_call : ℕ → ℕ → List Act
enqueue_call i b = begin_enqueue i b ∷ go i ∷ go i ∷ go i ∷ go i ∷ go i ∷ go i ∷ []

abbrev pub dequeue_call : ℕ → List Act
dequeue_call i = begin_dequeue i ∷ go i ∷ go i ∷ go i ∷ go i ∷ go i ∷ go i ∷ []
