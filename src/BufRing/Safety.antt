-- ===== src/BufRing/Safety.antt =====
-- buf_ring/buf_ring.h with both fixes: no entry is lost, overwritten or taken twice.
use benchamel.Base.{
  ℕ, ◌+◌, ◌^◌, ◌≤◌, ◌<◌, ◌≡◌, refl, ap, ◌∙◌, none, some, arith, ◌==◌, Bool-cases, inl, inr, Reach,
  here, next,
}
use mathlib.Core.Option.{some-injective}
use mathlib.Core.Path.{subst}
use native.Mathlib.Nat.{mod-lt, one-le-pow, pow-le-pow_right}
use benchamel.BufRing.{Ring, buf_ring_alloc, slot_of}
use benchamel.BufRing.Index.{both_fixes, IsSized, slot_of-mod}
use benchamel.BufRing.Threads.{
  update, Pc, enq, deq, enq_claimed, deq_claimed, System, Step, enqueue, dequeue, move, init,
  count_claim,
}
use benchamel.BufRing.Invariant.{fills, empties, Knows, Inv}
use benchamel.BufRing.Moves.{Move-Inv}

pub record IsEmptied (k : ℕ) (m : Ring) : Type 0 where
  pub sized : IsSized k m
  pub zero_heads : (m.prod_head ≡ 0) × (m.cons_head ≡ 0)
  pub zero_tails : (m.prod_tail ≡ 0) × (m.cons_tail ≡ 0)

-- What buf_ring_alloc returns for a size that is a power of two.
pub buf_ring_alloc-IsEmptied :
    (k : ℕ) (cells : ℕ → ℕ) (m : Ring)
    → k < 31
    → buf_ring_alloc (2 ^ k) (some cells) ≡ some m
    → IsEmptied k m
unfolding buf_ring_alloc
buf_ring_alloc-IsEmptied k cells m lt e = subst (IsEmptied k) (some-injective _ _ e) (record {
  sized = record {
    size = refl;
    mask = refl;
    small =
        omega (arith, pow-le-pow_right {n = 2} (omega arith) {i = k} {j = 30} (omega (arith, lt)));
    some_cell = one-le-pow k 2 (omega arith);
  };
  zero_heads = (refl, refl);
  zero_tails = (refl, refl);
})

init-Inv : (k : ℕ) (m : Ring) → IsEmptied k m → Inv k (init m)
init-Inv k m v = record {
  sized = v.sized;
  heads = omega (arith, v.zero_heads);
  order = omega (arith, v.zero_heads, v.zero_tails);
  knows = λ i. tt;
  filling = λ i t e. cc e;
  emptying = λ i t e. cc e;
  one_fills = λ i j t e. cc e;
  one_empties = λ i j t e. cc e;
  stored = λ t lo hi. absurd (omega (arith, v.zero_tails));
  read_out = λ t b e. cc e;
  emptied = λ t lt. absurd (omega (arith, v.zero_tails));
}

-- A thread that begins a call has no claim, and knows nothing.
begin-Inv :
    (k : ℕ) (s : System) (i : ℕ) (p : Pc)
    → (fills p ≡ none) × (empties p ≡ none)
    → Knows s.mem s.log s.taken p
    → Inv k s
    → Inv k (record s { pc = update s.pc i p })
begin-Inv k s i p e own v = record {
  sized = v.sized;
  heads = v.heads;
  order = v.order;
  knows =
      λ j. elim (Bool-cases (i == j)) [ inl same ↦ rw same own | inr other ↦ rw other (v.knows j) ];
  filling = λ j t q. ground (arith, e, q, v.filling j t);
  emptying = λ j t q. ground (arith, e, q, v.emptying j t);
  one_fills = λ j l t q r. ground (arith, e, q, r, v.one_fills j l t);
  one_empties = λ j l t q r. ground (arith, e, q, r, v.one_empties j l t);
  stored = v.stored;
  read_out = v.read_out;
  emptied = v.emptied;
}

Step-Inv : {k : ℕ} {s t : System} → Step both_fixes s t → t.claims < 2 ^ 32 → Inv k s → Inv k t
Step-Inv {k} {s} (enqueue i b e) few v = begin-Inv k s i (enq b) (refl, refl) tt v
Step-Inv {k} {s} (dequeue i e) few v = begin-Inv k s i deq (refl, refl) tt v
Step-Inv (move i mv) few v = Move-Inv v i mv few

count_claim-le : (n : ℕ) (p : Pc) → n ≤ count_claim n p
count_claim-le n (enq_claimed b h m) = omega arith
count_claim-le n p = omega arith

pub Step-claims : {s t : System} → Step both_fixes s t → s.claims ≤ t.claims
Step-claims (enqueue i b e) = omega arith
Step-claims (dequeue i e) = omega arith
Step-claims {s} (move i {p = p} mv) = count_claim-le s.claims p

pub Reach-Inv :
    {k : ℕ} {m : Ring} {s : System}
    → IsEmptied k m
    → Reach (Step both_fixes) (init m) s
    → s.claims < 2 ^ 32
    → Inv k s
Reach-Inv {k} {m} v here few = init-Inv k m v
Reach-Inv v (next {t = t} r st) few =
    let l = Step-claims st in Step-Inv st few (Reach-Inv v r (omega (arith, l, few)))

-- With both fixes, in a ring of 2^k cells, below 2^32 claims, and however any number of threads
-- interleave: a thread that is about to read its cell finds there the pointer that was put in under
-- this claim, which nobody has read out before.
pub load_once :
    {k : ℕ} {m : Ring} {s : System}
    → IsEmptied k m
    → Reach (Step both_fixes) (init m) s
    → s.claims < 2 ^ 32
    → (i h n : ℕ) → s.pc i ≡ deq_claimed h n
    → (s.taken h ≡ none) × (s.mem.ring (slot_of both_fixes s.mem h) ≡ s.log h)
load_once {k} {s = s} v r few i h n e =
    let inv = Reach-Inv v r few in
    let own = subst (Knows s.mem s.log s.taken) e (inv.knows i) in
    let held = inv.emptying i h (ap empties e) in
    let there = inv.stored h held.0 (omega (arith, held, inv.order)) in
    (own.1, ap s.mem.ring (slot_of-mod k s.mem h inv.sized) ∙ there)

-- With both fixes, in a ring of 2^k cells, below 2^32 claims, and however any number of threads
-- interleave: for a thread that is about to fill its cell, the cell exists, and the claims that had
-- it before are over, their pointers read out.
pub store_free :
    {k : ℕ} {m : Ring} {s : System}
    → IsEmptied k m
    → Reach (Step both_fixes) (init m) s
    → s.claims < 2 ^ 32
    → (i b h n : ℕ) → s.pc i ≡ enq_claimed b h n
    → (slot_of both_fixes s.mem h < s.mem.size)
      × ((u : ℕ) → u + s.mem.size ≤ h → s.taken u ≡ some (s.log u))
store_free {k} {s = s} v r few i b h n e =
    let inv = Reach-Inv v r few in
    let held = inv.filling i h (ap fills e) in
    (
      omega (arith, slot_of-mod k s.mem h inv.sized, mod-lt h inv.sized.some_cell),
      λ u le. inv.emptied u (omega (arith, held, inv.order, le)),
    )
