-- ===== src/BufRing/Threads.antt =====
-- buf_ring/buf_ring.h: any number of threads that enqueue and dequeue, one shared access at a time.
-- Memory is sequentially consistent. A loop that waits is the step that it takes when its condition
-- holds, and a compare-exchange that fails leads back to the first read.

use benchamel.Base.{ℕ, ◌+◌, ◌≡◌, ◌≢◌, Bool, true, false, Option, none, some}
use benchamel.BufRing.{Fixes, Ring, next_of, is_full, slot_of}
pub use benchamel.Base.{update}

-- Where a thread stands, with its live variables.
pub data Pc : Type 0 where
  idle : Pc
  enq : (buf : ℕ) → Pc  -- buf_ring_enqueue_bytes, before the read of br_prod_head
  enq_read : (buf head : ℕ) → Pc
  enq_ready : (buf head cons_tail : ℕ) → Pc  -- before the test and the compare-exchange
  enq_claimed : (buf head next : ℕ) → Pc  -- before the store into br_ring
  enq_stored : (buf head next : ℕ) → Pc  -- waiting for br_prod_tail
  enq_turn : (buf head next : ℕ) → Pc  -- before the store to br_prod_tail
  enqueued : (success : Bool) → Pc  -- returned 0 or ENOBUFS
  deq : Pc  -- buf_ring_dequeue_mc, before the read of br_cons_head
  deq_read : (head : ℕ) → Pc
  deq_ready : (head prod_tail : ℕ) → Pc
  deq_claimed : (head next : ℕ) → Pc
  deq_loaded : (head next buf : ℕ) → Pc
  deq_turn : (head next buf : ℕ) → Pc
  dequeued : (result : Option ℕ) → Pc

pub data Move (f : Fixes) (m : Ring) : Pc → Ring → Pc → Type 0 where
  read_prod_head : {b : ℕ} → Move f m (enq b) m (enq_read b m.prod_head)
  read_cons_tail : {b h : ℕ} → Move f m (enq_read b h) m (enq_ready b h m.cons_tail)
  no_room : {b h c : ℕ} → is_full f m h c ≡ true → Move f m (enq_ready b h c) m (enqueued false)
  claim_cell :
      {b h c : ℕ}
      → is_full f m h c ≡ false
      → m.prod_head ≡ h
      → Move f m
          (enq_ready b h c)
          (record m { prod_head = next_of f m h })
          (enq_claimed b h (next_of f m h))
  cell_lost :
      {b h c : ℕ} → is_full f m h c ≡ false → m.prod_head ≢ h → Move f m (enq_ready b h c) m (enq b)
  store_buf :
      {b h n : ℕ}
      → Move f m
          (enq_claimed b h n)
          (record m { ring = update m.ring (slot_of f m h) b })
          (enq_stored b h n)
  prod_turn : {b h n : ℕ} → m.prod_tail ≡ h → Move f m (enq_stored b h n) m (enq_turn b h n)
  publish : {b h n : ℕ} → Move f m (enq_turn b h n) (record m { prod_tail = n }) (enqueued true)
  read_cons_head : Move f m deq m (deq_read m.cons_head)
  read_prod_tail : {h : ℕ} → Move f m (deq_read h) m (deq_ready h m.prod_tail)
  no_buf : {h t : ℕ} → h ≡ t → Move f m (deq_ready h t) m (dequeued none)
  claim_buf :
      {h t : ℕ}
      → h ≢ t
      → m.cons_head ≡ h
      → Move f m
          (deq_ready h t)
          (record m { cons_head = next_of f m h })
          (deq_claimed h (next_of f m h))
  buf_lost : {h t : ℕ} → h ≢ t → m.cons_head ≢ h → Move f m (deq_ready h t) m deq
  load_buf : {h n : ℕ} → Move f m (deq_claimed h n) m (deq_loaded h n (m.ring (slot_of f m h)))
  cons_turn : {h n b : ℕ} → m.cons_tail ≡ h → Move f m (deq_loaded h n b) m (deq_turn h n b)
  free_cell :
      {h n b : ℕ} → Move f m (deq_turn h n b) (record m { cons_tail = n }) (dequeued (some b))

-- The threads over one ring, with a record of what has happened: `log t` is the pointer put in
-- under the `t`-th claim of a cell, `claims` the number of those, and `taken t` what was read out
-- for it.
pub record System : Type 0 where
  pub mem : Ring
  pub pc : ℕ → Pc
  pub log : ℕ → ℕ
  pub claims : ℕ
  pub taken : ℕ → Option ℕ

abbrev pub is_between : Pc → Bool
is_between idle = true
is_between (enqueued s) = true
is_between (dequeued r) = true
is_between _ = false

abbrev pub note_claim : (ℕ → ℕ) → ℕ → Pc → ℕ → ℕ
note_claim log claims (enq_claimed b h n) = update log claims b
note_claim log claims _ = log

abbrev pub count_claim : ℕ → Pc → ℕ
count_claim claims (enq_claimed b h n) = claims + 1
count_claim claims _ = claims

abbrev pub note_load : (ℕ → Option ℕ) → Pc → ℕ → Option ℕ
note_load taken (deq_loaded h n b) = update taken h (some b)
note_load taken _ = taken

pub data Step (f : Fixes) (s : System) : System → Type 0 where
  enqueue :
      (i b : ℕ) → is_between (s.pc i) ≡ true → Step f s (record s { pc = update s.pc i (enq b) })
  dequeue : (i : ℕ) → is_between (s.pc i) ≡ true → Step f s (record s { pc = update s.pc i deq })
  move :
      (i : ℕ) {m : Ring} {p : Pc}
      → Move f s.mem (s.pc i) m p
      → Step f s (record {
        mem = m;
        pc = update s.pc i p;
        log = note_claim s.log s.claims p;
        claims = count_claim s.claims p;
        taken = note_load s.taken p;
      })

-- `br` after buf_ring_alloc, and no call begun
abbrev pub init : Ring → System
init m = record { mem = m; pc = λ i. idle; log = λ t. 0; claims = 0; taken = λ t. none }
