-- ===== src/BufRing/Bugs.antt =====
-- buf_ring/buf_ring.h with the first fix alone: the ring never looks full.

use benchamel.Base.{
  ℕ, zero, suc, ◌+◌, ◌<◌, ◌^◌, ◌≡◌, refl, sym, ◌∙◌, here, next, arith, true, false, none, Reach,
}
use benchamel.BufRing.{Fixes, Ring, is_full, next_of}
use benchamel.BufRing.Threads.{
  read_prod_head, read_cons_tail, claim_cell, store_buf, prod_turn, publish, System, Step, enqueue,
  move, is_between, init,
}
use benchamel.BufRing.Safety.{IsEmptied}

abbrev pub two_cells : (ℕ → ℕ) → Ring
two_cells cells = record {
  prod_head = 0;
  prod_tail = 0;
  cons_head = 0;
  cons_tail = 0;
  size = 2;
  mask = 1;
  ring = cells;
}

abbrev pub one_fix : Fixes
one_fix = record { bugfix1 = true; bugfix2 = false }

-- One thread's `n` calls that enqueue have returned 0, and nothing has been taken out.
record IsHolding (bufs : ℕ → ℕ) (n : ℕ) (s : System) : Type 0 where
  prod_head : s.mem.prod_head ≡ n
  prod_tail : s.mem.prod_tail ≡ n
  cons_tail : s.mem.cons_tail ≡ 0
  between : is_between (s.pc 0) ≡ true
  claims : s.claims ≡ n
  log : (t : ℕ) → t < n → s.log t ≡ bufs t
  taken : (t : ℕ) → s.taken t ≡ none

one_more :
    (m : Ring) (bufs : ℕ → ℕ) (n : ℕ) (s : System)
    → n + 2 < 2 ^ 32
    → IsHolding bufs n s
    → Reach (Step one_fix) (init m) s
    → (t : System) × Reach (Step one_fix) (init m) t × IsHolding bufs (suc n) t
unfolding is_full next_of
one_more m bufs n s few v r =
    let room : is_full one_fix s.mem s.mem.prod_head s.mem.cons_tail ≡ false =
      ground (arith, v.prod_head, v.cons_tail, few) in
    let r1 =
      next (next (next r (enqueue 0 (bufs n) v.between)) (move 0 read_prod_head))
        (move 0 read_cons_tail) in
    let r2 = next (next r1 (move 0 (claim_cell room refl))) (move 0 store_buf) in
    let r3 = next (next r2 (move 0 (prod_turn (v.prod_tail ∙ sym v.prod_head)))) (move 0 publish) in
    (
      _,
      r3,
      record {
        prod_head = omega (arith, v.prod_head, few);
        prod_tail = omega (arith, v.prod_head, few);
        cons_tail = v.cons_tail;
        between = refl;
        claims = omega (arith, v.claims);
        log = λ t lt. ground (arith, v.claims, v.log t);
        taken = v.taken;
      },
    )

fill_up :
    {k : ℕ} (m : Ring) (bufs : ℕ → ℕ) (n : ℕ)
    → IsEmptied k m
    → n + 1 < 2 ^ 32
    → (s : System) × Reach (Step one_fix) (init m) s × IsHolding bufs n s
fill_up m bufs zero v few = (
  init m,
  here,
  record {
    prod_head = v.zero_heads.0;
    prod_tail = v.zero_tails.0;
    cons_tail = v.zero_tails.1;
    between = refl;
    claims = refl;
    log = λ t lt. absurd (omega (arith, lt));
    taken = λ t. refl;
  },
)
fill_up m bufs (suc n) v few =
    let (s, r, h) = fill_up m bufs n v (omega (arith, few)) in
    one_more m bufs n s (omega (arith, few)) h r

-- With the first fix and not the second, in a new ring of any number 2^k of cells: any `n` entries
-- up to 2^32 - 2 can be put in and published, none of them taken out.
pub never_full :
    {k : ℕ} (m : Ring) (bufs : ℕ → ℕ) (n : ℕ)
    → IsEmptied k m
    → n + 1 < 2 ^ 32
    → (s : System) × Reach (Step one_fix) (init m) s
      × (s.mem.prod_tail ≡ n)
      × ((t : ℕ) → t < n → s.log t ≡ bufs t)
      × ((t : ℕ) → s.taken t ≡ none)
never_full m bufs n v few =
    let (s, r, h) = fill_up m bufs n v few in (s, r, h.prod_tail, h.log, h.taken)
