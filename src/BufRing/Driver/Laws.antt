-- ===== src/BufRing/Driver/Laws.antt =====
-- buf_ring/test.c with both fixes: its assertion.
use benchamel.Base.{ℕ, ◌+◌, ◌^◌, ◌<◌, ◌≤◌, ◌≡◌, refl, ap, sym, arith, Reach, here, next}
use native.Mathlib.Decide.{ℕ_discrete}
use benchamel.BufRing.{Fixes, Ring}
use benchamel.BufRing.Index.{both_fixes}
use benchamel.BufRing.Threads
use benchamel.BufRing.Threads.{
  Pc, idle, deq, update, Move, claim_cell, load_buf, System, init, note_claim, count_claim,
  note_load,
}
use benchamel.BufRing.Invariant.{empties}
use benchamel.BufRing.Safety.{IsEmptied, Reach-Inv, Step-claims, load_once}
use benchamel.BufRing.Driver.{State, Step, send_first, send_next, drain, consume, move, main}
use benchamel.BufRing.Driver.Invariant.{unsent, is_early, received, Tracks}
use benchamel.BufRing.Driver.Tracks.{
  active, quiet-Tracks, send-Tracks, consume-Tracks, claim-Tracks, load-Tracks,
}

-- A step of a thread of the program is a step of a thread over the ring.
system-Step :
    {f : Fixes} {n loops : ℕ} {s t : State} → Step f n loops s t → Threads.Step f s.system t.system
system-Step (send_first i lt pos e) = Threads.Step.enqueue i _ (ap Threads.is_between e)
system-Step (send_next i lt e) = Threads.Step.enqueue i _ (ap Threads.is_between e)
system-Step (drain i e) = Threads.Step.dequeue i (ap Threads.is_between e)
system-Step (consume i e) = Threads.Step.dequeue i (ap Threads.is_between e)
system-Step (move i mv) = Threads.Step.move i mv

system-Reach :
    {f : Fixes} {n loops : ℕ} {m : Ring} {s : State}
    → Reach (Step f n loops) (main m) s
    → Reach (Threads.Step f) (init m) s.system
system-Reach here = here
system-Reach (next r st) = next (system-Reach r) (system-Step st)

abbrev Tracked : ℕ → State → Type 0
Tracked n s = Tracks n s.system.pc s.system.log s.system.claims s.system.taken s.round s.consumed

module _ {k n loops : ℕ} {br : Ring} {s : State} (v : IsEmptied k br)
    (r : Reach (Step both_fixes n loops) (main br) s) (few : s.system.claims < 2 ^ 32)
    (w : Tracked n s) where
  Move-Tracks :
      (i : ℕ) {q p : Pc} {m : Ring} (mv : Move both_fixes s.system.mem q m p)
      → s.system.pc i ≡ q
      → Tracks n
          (update s.system.pc i p)
          (note_claim s.system.log s.system.claims p)
          (count_claim s.system.claims p)
          (note_load s.system.taken p)
          s.round
          s.consumed
  Move-Tracks i (claim_cell {b = b} full is_head) e = claim-Tracks w i b _ _ (ap unsent e)
  Move-Tracks i (load_buf {h = h} {n = nx}) e =
      let inv = Reach-Inv v (system-Reach r) few in
      let (free, there) = load_once v (system-Reach r) few i h nx e in
      let held = inv.emptying i h (ap empties e) in
      load-Tracks w i _ h nx e (omega (arith, held, inv.order, inv.heads)) (sym there) free
        (λ t c q.
          let (same, small) = inv.read_out t c q in
          (same, omega (arith, small, inv.order, inv.heads)))
  Move-Tracks i mv e =
      quiet-Tracks w i _ (λ z. cc (z, e)) (λ z. cc z) (λ b q. cc (q, ap unsent e))
        (λ q. cc (q, ap is_early e)) (sym (ap received e))

  Step-Tracks : {t : State} → Step both_fixes n loops s t → Tracked n t
  Step-Tracks (send_first i lt pos e) =
      send-Tracks w i 0 lt (λ z. refl) (omega (arith, w.start i e))
        (λ q. absurd (cc (q, ap is_early e)))
  Step-Tracks (send_next i lt e) =
      send-Tracks w i (s.round i + 1) (active w i (λ z. cc (z, e))) (λ z. absurd (cc (z, e)))
        (omega arith) (λ q. omega arith)
  Step-Tracks (drain i e) =
      quiet-Tracks w i deq (λ z. cc (z, e)) (λ z. cc z) (λ b q. cc q) (λ q. cc q)
        (sym (ap received e))
  Step-Tracks (consume i e) = consume-Tracks w i _ e
  Step-Tracks (move i mv) = Move-Tracks i mv refl

Reach-Tracks :
    {k n loops : ℕ} {br : Ring} {s : State}
    → IsEmptied k br
    → Reach (Step both_fixes n loops) (main br) s
    → s.system.claims < 2 ^ 32
    → Tracked n s
Reach-Tracks v here few = record {
  few = λ i ge. refl;
  start = λ i e. refl;
  own = λ i b e. cc e;
  sent = λ t lt. absurd (omega (arith, lt));
  distinct = λ t u lt. absurd (omega (arith, lt));
  from_ring = λ i b e. cc e;
  one_receives = λ i j b e. cc e;
  counted = λ b lt. absurd (omega (arith, lt));
}
Reach-Tracks v (next r st) few =
    let before = Step-claims (system-Step st) in
    let few' : _ < 2 ^ 32 = omega (arith, before, few) in
    Step-Tracks v r few' (Reach-Tracks v r few') st

-- With both fixes, in a ring of 2^k cells, below 2^32 claims, and for any numbers of threads and of
-- messages: however the threads interleave, no message is counted twice, and only messages that
-- have been put into the ring are counted.
pub counted_once :
    {k n loops : ℕ} {br : Ring} {s : State}
    → IsEmptied k br
    → Reach (Step both_fixes n loops) (main br) s
    → s.system.claims < 2 ^ 32
    → (b : ℕ)
    → (s.consumed b ≤ 1)
      × (0 < s.consumed b → (t : ℕ) × (t < s.system.claims) × (s.system.log t ≡ b))
counted_once {s = s} v r few b =
    let w = Reach-Tracks v r few in
    let inv = Reach-Inv v (system-Reach r) few in
    (
      elim (ℕ_discrete (s.consumed b) 0) [
        | yes none_yet ↦ omega (arith, none_yet)
        | no some_ ↦ omega (arith, (w.counted b (omega (arith, some_))).0)
      ],
      λ lt.
          let (t, e) = (w.counted b lt).1 in
          let (same, small) = inv.read_out t b e in
          (t, omega (arith, small, inv.order, inv.heads), same),
    )
