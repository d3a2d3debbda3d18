-- ===== src/BufRing/Queue.antt =====
-- buf_ring/buf_ring.h with both fixes: the ring refines a bounded queue.
use benchamel.Base.{
  ℕ, zero, suc, ◌+◌, ◌-◌, ◌^◌, ◌≤◌, ◌<◌, ◌≡◌, refl, ap, ap₂, ◌∙◌, true, List, [], ◌∷◌, ◌++◌, arith,
  Reach, next, length, sym, some,
}
use benchamel.BufRing.{Ring, slot_of}
use benchamel.BufRing.Index.{both_fixes, slot_of-mod}
use benchamel.BufRing.Threads.{
  update, Pc, enq_turn, enqueued, deq_ready, deq_claimed, deq_turn, dequeued, Move, read_prod_head,
  claim_cell, publish, claim_buf, free_cell, System, Step, enqueue, dequeue, move, init,
}
use benchamel.BufRing.Invariant.{Inv}
use benchamel.BufRing.Guards.{Mover, mover, Guard, guard, after}
use benchamel.BufRing.Safety.{IsEmptied, Reach-Inv, Step-claims}

-- What was put in under `n` claims from `h` on.
abbrev pub entries : (ℕ → ℕ) → ℕ → ℕ → List ℕ
entries log h zero = []
entries log h (suc n) = log h ∷ entries log (h + 1) n

entries-last : (log : ℕ → ℕ) (h n : ℕ) → entries log h (suc n) ≡ entries log h n ++ log (h + n) ∷ []
entries-last log h zero = ap (λ k. log k ∷ []) (omega arith)
entries-last log h (suc n) =
    ap (λ l. log h ∷ l)
      (entries-last log (h + 1) n ∙ ap (λ k. entries log (h + 1) n ++ log k ∷ []) (omega arith))

length-entries : (log : ℕ → ℕ) (h n : ℕ) → length (entries log h n) ≡ n
length-entries log h zero = refl
length-entries log h (suc n) = ap suc (length-entries log (h + 1) n)

entries-update :
    (log : ℕ → ℕ) (h n u b : ℕ) → h + n ≤ u → entries (update log u b) h n ≡ entries log h n
entries-update log h zero u b le = refl
entries-update log h (suc n) u b le =
    ap₂ ◌∷◌ (ground (arith, le)) (entries-update log (h + 1) n u b (omega (arith, le)))

entries-ext :
    (f g : ℕ → ℕ) (h n : ℕ)
    → ((t : ℕ) → h ≤ t → t < h + n → f t ≡ g t)
    → entries f h n ≡ entries g h n
entries-ext f g h zero same = refl
entries-ext f g h (suc n) same =
    ap₂ ◌∷◌ (same h (omega arith) (omega arith))
      (entries-ext f g (h + 1) n (λ t lo hi. same t (omega (arith, lo)) (omega (arith, hi))))

-- The queue that a state stands for: the pointers in the cells from br_cons_head up to br_prod_tail.
abbrev pub contents : System → List ℕ
contents s =
    entries (λ t. s.mem.ring (slot_of both_fixes s.mem t)) s.mem.cons_head
      (s.mem.prod_tail - s.mem.cons_head)

-- What the record has for them.
abbrev noted : System → List ℕ
noted s = entries s.log s.mem.cons_head (s.mem.prod_tail - s.mem.cons_head)

contents-noted : {k : ℕ} {s : System} → Inv k s → contents s ≡ noted s
contents-noted {k} {s} inv =
    entries-ext (λ t. s.mem.ring (slot_of both_fixes s.mem t)) s.log s.mem.cons_head
      (s.mem.prod_tail - s.mem.cons_head)
      λ t lo hi.
        ap s.mem.ring (slot_of-mod k s.mem t inv.sized)
        ∙ inv.stored t (omega (arith, lo, inv.order)) (omega (arith, hi, inv.order))

pub data Event : Type 0 where
  put take : ℕ → Event
  internal : Event

-- An enqueue takes effect when it publishes, a dequeue when it claims a cell: it takes the pointer
-- that was put in under the same number.
abbrev pub event_of : (ℕ → ℕ) → Pc → Pc → Event
event_of log (enq_turn b h n) (enqueued true) = put b
event_of log (deq_ready h t) (deq_claimed g n) = take (log h)
event_of log _ _ = internal

abbrev pub event : {s t : System} → Step both_fixes s t → Event
event (enqueue i b e) = internal
event (dequeue i e) = internal
event {s} (move i {p = p} mv) = event_of s.log (s.pc i) p

-- A queue of at most so many entries.
abbrev pub Does : ℕ → Event → List ℕ → List ℕ → Type 0
Does size (put b) q q' = (q' ≡ q ++ b ∷ []) × (length q < size)
Does size (take b) q q' = q ≡ b ∷ q'
Does size internal q q' = q' ≡ q

-- A dequeue returns what it has taken.
abbrev pub Gives : (ℕ → ℕ) → Pc → Pc → Type 0
Gives log (deq_turn h n b) (dequeued result) = result ≡ some (log h)
Gives log _ _ = Unit

abbrev pub Returns : {s t : System} → Step both_fixes s t → Type 0
Returns (enqueue i b e) = Unit
Returns (dequeue i e) = Unit
Returns {s} (move i {p = p} mv) = Gives s.log (s.pc i) p

module _ {k : ℕ} {s : System} (inv : Inv k s) (i : ℕ) where
  open inv use {heads, order}

  Move-Does :
      {p p' : Pc} {m : Ring} (mv : Move both_fixes s.mem p m p')
      → Mover inv i p
      → Guard mv
      → Does s.mem.size (event_of s.log p p') (noted s) (noted (after inv i m p'))
  Move-Does (claim_cell {b = b} full here) f g =
      entries-update s.log s.mem.cons_head (s.mem.prod_tail - s.mem.cons_head) s.claims b
        (omega (arith, order, heads))
  Move-Does (publish {b = b} {h = h}) f g =
      let c = s.mem.cons_head in
      let q = s.mem.prod_tail - c in
      (
        ap (entries s.log c) {y = suc q} (omega (arith, f.own, order))
            ∙ (entries-last s.log c q
                ∙ ap (λ x. entries s.log c q ++ x ∷ [])
                    (ap s.log {y = h} (omega (arith, f.own, order)) ∙ f.own.1)),
        omega (
          arith,
          length-entries s.log s.mem.cons_head (s.mem.prod_tail - s.mem.cons_head),
          order,
          f.own,
          f.fill_in h refl,
        ),
      )
  Move-Does (claim_buf {h = h} differ here) f g =
      let c = s.mem.cons_head in
      let q = s.mem.prod_tail in
      ap (entries s.log c) {y = suc (q - (c + 1))} (omega (arith, f.own, g))
      ∙ ap₂ ◌∷◌ (ap s.log g.0) (ap (λ n. entries s.log n (q - n)) {x = c + 1} (omega (arith, g)))
  Move-Does (read_prod_head) f g = refl
  Move-Does (free_cell) f g = refl
  Move-Does _ f g = refl

  Move-Gives :
      {p p' : Pc} {m : Ring} → Move both_fixes s.mem p m p' → Mover inv i p → Gives s.log p p'
  Move-Gives (free_cell) f = ap some (sym f.own.2)
  Move-Gives _ f = tt

-- With both fixes, in a ring of 2^k cells, below 2^32 claims, the cells from br_cons_head up to
-- br_prod_tail are a first-in first-out queue of at most that many entries under each step of any
-- number of threads: it appends what the thread enqueues, takes off the first entry when the thread
-- claims it, or changes nothing; and a dequeue that returns an entry returns the one taken off under
-- its claim.
pub Step-Does :
    {k : ℕ} {m : Ring} {s t : System}
    → IsEmptied k m
    → Reach (Step both_fixes) (init m) s
    → (st : Step both_fixes s t) → t.claims < 2 ^ 32
    → Does s.mem.size (event st) (contents s) (contents t) × Returns st
Step-Does v r (enqueue i b e) few = (refl, tt)
Step-Does v r (dequeue i e) few = (refl, tt)
Step-Does {s = s} v r (move i mv) few =
    let inv = Reach-Inv v r (omega (arith, Step-claims {s = s} (move i mv), few)) in
    let later = Reach-Inv v (next r (move i mv)) few in
    (
      rw (contents-noted inv, contents-noted later)
          (Move-Does inv i mv (mover inv i) (guard inv i mv (mover inv i) few)),
      Move-Gives inv i mv (mover inv i),
    )
