-- ===== src/BufRing/Invariant.antt =====
-- buf_ring/buf_ring.h with both fixes: what holds in every state that the threads can reach.
use benchamel.Base.{ℕ, ◌+◌, ◌%◌, ◌^◌, ◌≤◌, ◌<◌, ◌≡◌, Option, none, some}
use benchamel.BufRing.{Ring}
use benchamel.BufRing.Index.{IsSized}
use benchamel.BufRing.Threads.{
  Pc, enq_read, enq_ready, enq_claimed, enq_stored, enq_turn, deq_read, deq_ready, deq_claimed,
  deq_loaded, deq_turn, System,
}

-- The number under which a thread has claimed a cell to fill, or one to empty.
abbrev pub fills : Pc → Option ℕ
fills (enq_claimed b h n) = some h
fills (enq_stored b h n) = some h
fills (enq_turn b h n) = some h
fills _ = none

abbrev pub empties : Pc → Option ℕ
empties (deq_claimed h n) = some h
empties (deq_loaded h n b) = some h
empties (deq_turn h n b) = some h
empties _ = none

abbrev pub cell : Ring → ℕ → ℕ
cell m t = m.ring (t % m.size)

-- What the variables of a thread say about the memory and the record.
abbrev pub Knows : Ring → (ℕ → ℕ) → (ℕ → Option ℕ) → Pc → Type 0
Knows m log taken (enq_read b h) = h ≤ m.prod_head
Knows m log taken (enq_ready b h c) = (h ≤ m.prod_head) × (c ≤ m.cons_tail) × (h ≤ c + m.size)
Knows m log taken (enq_claimed b h n) = (n ≡ h + 1) × (log h ≡ b)
Knows m log taken (enq_stored b h n) = (n ≡ h + 1) × (log h ≡ b) × (cell m h ≡ b)
Knows m log taken (enq_turn b h n) = (n ≡ h + 1) × (log h ≡ b) × (cell m h ≡ b) × (m.prod_tail ≡ h)
Knows m log taken (deq_read h) = h ≤ m.cons_head
Knows m log taken (deq_ready h t) = (h ≤ m.cons_head) × (t ≤ m.prod_tail) × (h ≤ t)
Knows m log taken (deq_claimed h n) = (n ≡ h + 1) × (taken h ≡ none)
Knows m log taken (deq_loaded h n b) = (n ≡ h + 1) × (taken h ≡ some b) × (log h ≡ b)
Knows m log taken (deq_turn h n b) =
    (n ≡ h + 1) × (taken h ≡ some b) × (log h ≡ b) × (m.cons_tail ≡ h)
Knows m log taken _ = Unit

pub record Inv (k : ℕ) (s : System) : Type 0 where
  pub sized : IsSized k s.mem
  pub heads : (s.mem.prod_head ≡ s.claims) × (s.claims < 2 ^ 32)
  pub order :
      (s.mem.cons_tail ≤ s.mem.cons_head)
      × (s.mem.cons_head ≤ s.mem.prod_tail)
      × (s.mem.prod_tail ≤ s.mem.prod_head)
      × (s.mem.prod_head ≤ s.mem.cons_tail + s.mem.size)
  pub knows : (i : ℕ) → Knows s.mem s.log s.taken (s.pc i)
  pub filling : (i t : ℕ) → fills (s.pc i) ≡ some t → (s.mem.prod_tail ≤ t) × (t < s.mem.prod_head)
  pub emptying :
      (i t : ℕ) → empties (s.pc i) ≡ some t → (s.mem.cons_tail ≤ t) × (t < s.mem.cons_head)
  pub one_fills : (i j t : ℕ) → fills (s.pc i) ≡ some t → fills (s.pc j) ≡ some t → i ≡ j
  pub one_empties : (i j t : ℕ) → empties (s.pc i) ≡ some t → empties (s.pc j) ≡ some t → i ≡ j
  pub stored : (t : ℕ) → s.mem.cons_tail ≤ t → t < s.mem.prod_tail → cell s.mem t ≡ s.log t
  pub read_out : (t b : ℕ) → s.taken t ≡ some b → (s.log t ≡ b) × (t < s.mem.cons_head)
  pub emptied : (t : ℕ) → t < s.mem.cons_tail → s.taken t ≡ some (s.log t)
