-- ===== src/BufRing/Progress.antt =====
-- buf_ring/buf_ring.h with both fixes: the waits end, since the thread waited for can always move.
use benchamel.Base.{ℕ, ◌^◌, ◌≤◌, ◌<◌, ◌≡◌, refl, ap, true, some, arith, Reach, here, next}
use native.Mathlib.Decide.{dec_lt}
use benchamel.BufRing.{Ring}
use benchamel.BufRing.Index.{both_fixes}
use benchamel.BufRing.Threads.{
  update, Pc, enq, deq, enq_claimed, enq_stored, enq_turn, deq_claimed, deq_loaded, deq_turn,
  is_between, Move, claim_cell, store_buf, prod_turn, publish, claim_buf, load_buf, cons_turn,
  free_cell, System, Step, enqueue, dequeue, move, init,
}
use benchamel.BufRing.Invariant.{fills, empties, Inv}
use benchamel.BufRing.Guards.{Mover, mover, Guard, guard}
use benchamel.BufRing.Safety.{IsEmptied, Reach-Inv, Step-claims}

-- Every claim that is under way is some thread's.
pub record IsCovered (s : System) : Type 0 where
  pub filled :
      (t : ℕ) → s.mem.prod_tail ≤ t → t < s.mem.prod_head → (j : ℕ) × (fills (s.pc j) ≡ some t)
  pub emptied :
      (t : ℕ) → s.mem.cons_tail ≤ t → t < s.mem.cons_head → (j : ℕ) × (empties (s.pc j) ≡ some t)

module _ {k : ℕ} {s : System} (inv : Inv k s) (cov : IsCovered s) (i : ℕ) where
  open cov use {filled, emptied}

  Move-filled :
      {p p' : Pc} {m : Ring} (mv : Move both_fixes s.mem p m p')
      → s.pc i ≡ p
      → Mover inv i p
      → Guard mv
      → (t : ℕ) → m.prod_tail ≤ t
      → t < m.prod_head
      → (j : ℕ) × (fills (update s.pc i p' j) ≡ some t)
  Move-filled (claim_cell {h = h} full is_head) e f g t lo hi = elim (dec_lt t s.mem.prod_head) [
    | yes old ↦ let (j, held) = filled t lo old in (j, ground arith)
    | no new ↦ (i, ground (arith, g))
  ]
  Move-filled (publish {h = h}) e f g t lo hi =
      let (j, held) = filled t (omega (arith, f.own, lo)) hi in (j, ground (arith, f.own))
  Move-filled mv e f g t lo hi = let (j, held) = filled t lo hi in (j, ground arith)

  Move-emptied :
      {p p' : Pc} {m : Ring} (mv : Move both_fixes s.mem p m p')
      → s.pc i ≡ p
      → Mover inv i p
      → Guard mv
      → (t : ℕ) → m.cons_tail ≤ t
      → t < m.cons_head
      → (j : ℕ) × (empties (update s.pc i p' j) ≡ some t)
  Move-emptied (claim_buf differ is_head) e f g t lo hi = elim (dec_lt t s.mem.cons_head) [
    | yes old ↦ let (j, held) = emptied t lo old in (j, ground arith)
    | no new ↦ (i, ground (arith, g))
  ]
  Move-emptied (free_cell {h = h}) e f g t lo hi =
      let (j, held) = emptied t (omega (arith, f.own, lo)) hi in (j, ground (arith, f.own))
  Move-emptied mv e f g t lo hi = let (j, held) = emptied t lo hi in (j, ground arith)

begin-IsCovered :
    (s : System) (i : ℕ) (p : Pc)
    → is_between (s.pc i) ≡ true
    → IsCovered s
    → IsCovered (record s { pc = update s.pc i p })
begin-IsCovered s i p e cov = record {
  filled = λ t lo hi. let (j, held) = cov.filled t lo hi in (j, ground arith);
  emptied = λ t lo hi. let (j, held) = cov.emptied t lo hi in (j, ground arith);
}

Step-IsCovered :
    {k : ℕ} {s t : System} (st : Step both_fixes s t)
    → t.claims < 2 ^ 32
    → Inv k s
    → IsCovered s
    → IsCovered t
Step-IsCovered {s = s} (enqueue i b e) few inv cov = begin-IsCovered s i (enq b) e cov
Step-IsCovered {s = s} (dequeue i e) few inv cov = begin-IsCovered s i deq e cov
Step-IsCovered (move i mv) few inv cov =
    let f = mover inv i in
    let g = guard inv i mv f few in
    record {
      filled = Move-filled inv cov i mv refl f g;
      emptied = Move-emptied inv cov i mv refl f g;
    }

Reach-IsCovered :
    {k : ℕ} {m : Ring} {s : System}
    → IsEmptied k m
    → Reach (Step both_fixes) (init m) s
    → s.claims < 2 ^ 32
    → IsCovered s
Reach-IsCovered v here few = record {
  filled = λ t lo hi. absurd (omega (arith, v.zero_heads));
  emptied = λ t lo hi. absurd (omega (arith, v.zero_heads));
}
Reach-IsCovered v (next {t = t} r st) few =
    let l = Step-claims st in
    let before : t.claims < 2 ^ 32 = omega (arith, l, few) in
    Step-IsCovered st few (Reach-Inv v r before) (Reach-IsCovered v r before)

-- A thread that can take a step.
abbrev pub CanMove : Ring → Pc → Type 0
CanMove m p = (m' : Ring) × (p' : Pc) × Move both_fixes m p m' p'

fills-CanMove : (m : Ring) (p : Pc) → fills p ≡ some m.prod_tail → CanMove m p
fills-CanMove m (enq_claimed b h n) e = (_, _, store_buf)
fills-CanMove m (enq_stored b h n) e = (_, _, prod_turn (cc e))
fills-CanMove m (enq_turn b h n) e = (_, _, publish)
fills-CanMove m p e = cc

empties-CanMove : (m : Ring) (p : Pc) → empties p ≡ some m.cons_tail → CanMove m p
empties-CanMove m (deq_claimed h n) e = (_, _, load_buf)
empties-CanMove m (deq_loaded h n b) e = (_, _, cons_turn (cc e))
empties-CanMove m (deq_turn h n b) e = (_, _, free_cell)
empties-CanMove m p e = cc

-- With both fixes, in a ring of 2^k cells, below 2^32 claims: whenever a producer or a consumer waits
-- for its turn, the thread whose turn it is exists and can take a step. No thread waits for ever on
-- threads that all wait.
pub waits_end :
    {k : ℕ} {m : Ring} {s : System}
    → IsEmptied k m
    → Reach (Step both_fixes) (init m) s
    → s.claims < 2 ^ 32
    → ((i b h n : ℕ)
        → s.pc i ≡ enq_stored b h n
        → (j : ℕ) × (fills (s.pc j) ≡ some s.mem.prod_tail) × CanMove s.mem (s.pc j))
      × ((i h n b : ℕ)
          → s.pc i ≡ deq_loaded h n b
          → (j : ℕ) × (empties (s.pc j) ≡ some s.mem.cons_tail) × CanMove s.mem (s.pc j))
waits_end {k} {s = s} v r few = (producer, consumer)
  where
    inv : Inv k s
    inv = Reach-Inv v r few

    cov : IsCovered s
    cov = Reach-IsCovered v r few

    producer :
        (i b h n : ℕ)
        → s.pc i ≡ enq_stored b h n
        → (j : ℕ) × (fills (s.pc j) ≡ some s.mem.prod_tail) × CanMove s.mem (s.pc j)
    producer i b h n e =
        let held = inv.filling i h (ap fills e) in
        let (j, q) = cov.filled s.mem.prod_tail (omega arith) (omega (arith, held)) in
        (j, q, fills-CanMove s.mem (s.pc j) q)

    consumer :
        (i h n b : ℕ)
        → s.pc i ≡ deq_loaded h n b
        → (j : ℕ) × (empties (s.pc j) ≡ some s.mem.cons_tail) × CanMove s.mem (s.pc j)
    consumer i h n b e =
        let held = inv.emptying i h (ap empties e) in
        let (j, q) = cov.emptied s.mem.cons_tail (omega arith) (omega (arith, held)) in
        (j, q, empties-CanMove s.mem (s.pc j) q)
