-- ===== src/BufRing/Refusals.antt =====
-- buf_ring/buf_ring.h with both fixes: when a dequeue returns NULL and an enqueue ENOBUFS.
use benchamel.Base.{
  ℕ, ◌+◌, ◌-◌, ◌%◌, ◌^◌, ◌<◌, ◌≡◌, ap, ◌∙◌, sym, refl, true, false, none, [], arith, ◌==◌, Reach,
  zero,
}
use mathlib.Core.Path.{subst}
use native.Mathlib.Decide.{dec_lt}
use benchamel.BufRing.{Ring, is_full, slot_of}
use benchamel.BufRing.Index.{both_fixes, is_full-size, is_full_stale}
use benchamel.BufRing.Threads.{
  Pc, enq_read, enq_ready, enqueued, deq_read, deq_ready, dequeued, Move, read_cons_tail, no_room,
  read_prod_tail, no_buf, System, Step, is_between, init,
}
use benchamel.BufRing.Invariant.{Knows, Inv}
use benchamel.BufRing.Safety.{IsEmptied, Reach-Inv}
use benchamel.BufRing.History.{Earlier, last_seen, During-claims}
use benchamel.BufRing.Queue.{entries, contents}

-- What the thread is about to read.
abbrev SeesTail : ℕ → ℕ → ℕ → System → Type 0
SeesTail i h t s = (s.pc i ≡ deq_read h) × (s.mem.prod_tail ≡ t)

abbrev SeesCons : ℕ → ℕ → ℕ → ℕ → System → Type 0
SeesCons i b h c s = (s.pc i ≡ enq_read b h) × (s.mem.cons_tail ≡ c)

into_deq_ready :
    {m m' : Ring} {q p : Pc} (h t : ℕ)
    → Move both_fixes m q m' p
    → p ≡ deq_ready h t
    → (q ≡ deq_read h) × (m.prod_tail ≡ t)
into_deq_ready h t (read_prod_tail {h = g}) e = (ground (arith, e), ground (arith, e))
into_deq_ready h t _ e = cc e

into_enq_ready :
    {m m' : Ring} {q p : Pc} (b h c : ℕ)
    → Move both_fixes m q m' p
    → p ≡ enq_ready b h c
    → (q ≡ enq_read b h) × (m.cons_tail ≡ c)
into_enq_ready b h c (read_cons_tail {b = a} {h = g}) e = (ground (arith, e), ground (arith, e))
into_enq_ready b h c _ e = cc e

out_none :
    {m m' : Ring} {q p : Pc}
    → Move both_fixes m q m' p
    → p ≡ dequeued none
    → (h : ℕ) × (q ≡ deq_ready h h)
out_none (no_buf {h = h} {t = t} same) e = (h, ap (deq_ready h) (sym same))
out_none _ e = cc e

out_false :
    {m m' : Ring} {q p : Pc}
    → Move both_fixes m q m' p
    → p ≡ enqueued false
    → (b : ℕ) × (h : ℕ) × (c : ℕ) × (q ≡ enq_ready b h c) × (is_full both_fixes m h c ≡ true)
out_false (no_room {b = b} {h = h} {c = c} full) e = (b, h, c, refl, full)
out_false _ e = cc e

module _ {k : ℕ} (m : Ring) (u : System) (v : IsEmptied k m)
    (r : Reach (Step both_fixes) (init m) u) (few : u.claims < 2 ^ 31) (i : ℕ) where
  inv : Inv k u
  inv = Reach-Inv v r (omega (arith, few))

  empty : (h : ℕ) → SeesTail i h h u → contents u ≡ []
  empty h (e, f) =
      let own = subst (Knows u.mem u.log u.taken) e (inv.knows i) in
      ap (entries (λ t. u.mem.ring (slot_of both_fixes u.mem t)) u.mem.cons_head) {y = zero}
        (omega (arith, own, f, inv.order))

  full :
      (b h c : ℕ)
      → SeesCons i b h c u
      → is_full both_fixes u.mem h c ≡ true
      → u.mem.prod_head ≡ u.mem.cons_tail + u.mem.size
  full b h c (e, g) f =
      let own = subst (Knows u.mem u.log u.taken) e (inv.knows i) in
      elim (dec_lt h c) [
        | yes old ↦ absurd (
            cc (
              f,
              is_full_stale u.mem h c old (omega (arith, g, inv.order, inv.heads, few))
                  inv.sized.small,
            ))
        | no ge ↦ ground (
          arith,
          own,
          f,
          g,
          inv.order,
          inv.heads,
          is_full-size u.mem h c (omega arith) (omega (arith, own, inv.heads, few)),
        )
      ]

-- A state in which the queue is empty, and one in which as many cells are claimed and not freed as
-- there are.
abbrev pub IsDry : System → Type 0
IsDry s = contents s ≡ []

abbrev pub AllClaimed : System → Type 0
AllClaimed s = s.mem.prod_head ≡ s.mem.cons_tail + s.mem.size

is_full-same :
    (m m' : Ring) (h c : ℕ)
    → m.size ≡ m'.size
    → is_full both_fixes m h c ≡ is_full both_fixes m' h c
unfolding is_full
is_full-same m m' h c e = ap (◌==◌ ((h + 2 ^ 32 - c) % 2 ^ 32)) e

refused_none :
    {k : ℕ} {m m' : Ring} {s : System} (i : ℕ)
    → IsEmptied k m
    → Reach (Step both_fixes) (init m) s
    → s.claims < 2 ^ 31
    → Move both_fixes s.mem (s.pc i) m' (dequeued none)
    → Earlier IsDry m i s
refused_none {m = m} {s = s} i v r few mv =
    let (h, e) = out_none mv refl in
    let seen =
      last_seen m i (deq_ready h h) (SeesTail i h h) refl (λ b q. cc q) (λ q. cc q)
        (λ u m₁ p st f. let (q, t) = into_deq_ready h h st f in ((q, t), ap is_between q)) r e in
    record {
      then = seen.then;
      reached = seen.reached;
      begun = seen.begun;
      lasts = seen.lasts;
      held =
          empty m seen.then v seen.reached
            (omega (arith, During-claims i seen.then s seen.lasts, few)) i h seen.held;
    }

refused_full :
    {k : ℕ} {m m' : Ring} {s : System} (i : ℕ)
    → IsEmptied k m
    → Reach (Step both_fixes) (init m) s
    → s.claims < 2 ^ 31
    → Move both_fixes s.mem (s.pc i) m' (enqueued false)
    → Earlier AllClaimed m i s
refused_full {m = m} {s = s} i v r few mv =
    let (b, h, c, e, f) = out_false mv refl in
    let seen =
      last_seen m i (enq_ready b h c) (SeesCons i b h c) refl (λ a q. cc q) (λ q. cc q)
        (λ u m₁ p st g. let (q, t) = into_enq_ready b h c st g in ((q, t), ap is_between q)) r e in
    let less : seen.then.claims < 2 ^ 31 =
      omega (arith, During-claims i seen.then s seen.lasts, few) in
    let now = Reach-Inv v r (omega (arith, few)) in
    let before = inv m seen.then v seen.reached less i in
    record {
      then = seen.then;
      reached = seen.reached;
      begun = seen.begun;
      lasts = seen.lasts;
      held =
          full m seen.then v seen.reached less i b h c seen.held
            (is_full-same seen.then.mem s.mem h c (before.sized.size ∙ sym now.sized.size) ∙ f);
    }

-- With both fixes, in a ring of 2^k cells, below 2^31 claims, and however any number of threads
-- interleave: when a dequeue returns NULL, the queue was empty at some time during the call; and when
-- an enqueue returns ENOBUFS, at some time during the call as many cells were claimed and not freed
-- as there are.
pub refusals_right :
    {k : ℕ} {m : Ring} {s : System}
    → IsEmptied k m
    → Reach (Step both_fixes) (init m) s
    → s.claims < 2 ^ 31
    → ((i : ℕ) (m' : Ring)
        → Move both_fixes s.mem (s.pc i) m' (dequeued none)
        → Earlier IsDry m i s)
      × ((i : ℕ) (m' : Ring)
          → Move both_fixes s.mem (s.pc i) m' (enqueued false)
          → Earlier AllClaimed m i s)
refusals_right v r few =
    (λ i m' mv. refused_none i v r few mv, λ i m' mv. refused_full i v r few mv)
