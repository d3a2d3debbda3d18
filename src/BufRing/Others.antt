-- ===== src/BufRing/Others.antt =====
-- buf_ring/buf_ring.h with both fixes: what the move of another thread leaves true of a thread.
use benchamel.Base.{ℕ, ◌+◌, ◌%◌, ◌≤◌, ◌<◌, ◌≡◌, ◌≢◌, refl, sym, ap, Option, none, some, arith}
use benchamel.Base.Masks.{mod_close}
use native.Mathlib.Decide.{dec_lt}
use benchamel.BufRing.{Ring}
use benchamel.BufRing.Threads.{
  update, Pc, enq_read, enq_stored, enq_turn, deq_read, deq_claimed, deq_turn,
}
use benchamel.BufRing.Invariant.{fills, empties, Knows}

-- A claim, if there is one, that lies in a range, or that is not this one.
abbrev pub In : ℕ → ℕ → Option ℕ → Type 0
In low high none = Unit
In low high (some t) = (low ≤ t) × (t < high)

abbrev pub Apart : ℕ → Option ℕ → Type 0
Apart t none = Unit
Apart t (some u) = t ≢ u

pub In-intro :
    (low high : ℕ) (o : Option ℕ) → ((t : ℕ) → o ≡ some t → (low ≤ t) × (t < high)) → In low high o
In-intro low high none h = tt
In-intro low high (some t) h = h t refl

pub Apart-intro : (t : ℕ) (o : Option ℕ) → o ≢ some t → Apart t o
Apart-intro t none h = tt
Apart-intro t (some u) h = λ e. h (ap some (sym e))

-- Different claims within the size have different cells.
pub cells_apart :
    (t u low size : ℕ)
    → low ≤ t
    → low ≤ u
    → t < low + size
    → u < low + size
    → t ≢ u
    → t % size ≢ u % size
cells_apart t u low size ht hu kt ku ne = λ e. elim (dec_lt t u) [
  | yes lt ↦ ne (mod_close t u size (omega arith) (omega arith) e)
  | no ge ↦ ne (sym (mod_close u t size (omega arith) (omega arith) (sym e)))
]

module _ (m : Ring) (log : ℕ → ℕ) (taken : ℕ → Option ℕ) where
  pub record Facts (q : Pc) : Type 0 where
    pub own : Knows m log taken q
    pub filling : In m.prod_tail m.prod_head (fills q)
    pub emptying : In m.cons_tail m.cons_head (empties q)

  module _
      (order : (m.cons_tail ≤ m.cons_head)
        × (m.cons_head ≤ m.prod_tail)
        × (m.prod_tail ≤ m.prod_head)
        × (m.prod_head ≤ m.cons_tail + m.size)) where
    pub claimed_cell :
        (b : ℕ) (q : Pc)
        → Facts q
        → Knows (record m { prod_head = m.prod_head + 1 }) (update log m.prod_head b) taken q
    claimed_cell b (enq_read c h) v = ground (arith, v.own)
    claimed_cell b q v = ground (arith, v.own, v.filling, v.emptying, order)

    pub stored_buf :
        (h b : ℕ) (q : Pc)
        → (m.prod_tail ≤ h) × (h < m.prod_head)
        → Facts q
        → Apart h (fills q)
        → Knows (record m { ring = update m.ring (h % m.size) b }) log taken q
    stored_buf h b (enq_stored c g n) r v a =
        ground (arith, v.own, cells_apart h g m.prod_tail m.size, r, v.filling, a, order)
    stored_buf h b (enq_turn c g n) r v a =
        ground (arith, v.own, cells_apart h g m.prod_tail m.size, r, v.filling, a, order)
    stored_buf h b q r v a = ground (arith, v.own)

    pub published :
        (h : ℕ) (q : Pc)
        → m.prod_tail ≡ h
        → Facts q
        → Apart h (fills q)
        → Knows (record m { prod_tail = h + 1 }) log taken q
    published h (enq_turn c g n) e v a = ground (arith, v.own, e, a)
    published h q e v a = ground (arith, v.own, e)

    pub claimed_buf :
        (q : Pc) → Facts q → Knows (record m { cons_head = m.cons_head + 1 }) log taken q
    claimed_buf (deq_read h) v = ground (arith, v.own)
    claimed_buf q v = ground (arith, v.own)

    pub loaded_buf :
        (h b : ℕ) (q : Pc) → Facts q → Apart h (empties q) → Knows m log (update taken h (some b)) q
    loaded_buf h b (deq_claimed g n) v a = ground (arith, v.own, a)
    loaded_buf h b q v a = ground (arith, v.own, a)

    pub freed_cell :
        (h : ℕ) (q : Pc)
        → m.cons_tail ≡ h
        → Facts q
        → Apart h (empties q)
        → Knows (record m { cons_tail = h + 1 }) log taken q
    freed_cell h (deq_turn g n c) e v a = ground (arith, v.own, e, a)
    freed_cell h q e v a = ground (arith, v.own, e)
