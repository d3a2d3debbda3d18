-- ===== src/BufRing/Guards.antt =====
-- buf_ring/buf_ring.h with both fixes: what a thread that moves knows.
use benchamel.Base.{ℕ, ◌+◌, ◌%◌, ◌^◌, ◌≤◌, ◌<◌, ◌≡◌, ◌≢◌, false, some, arith}
use benchamel.BufRing.{Ring, next_of, is_full, slot_of}
use benchamel.BufRing.Index.{both_fixes, IsSized, next_of_small, slot_of-mod, is_full-size}
use benchamel.BufRing.Threads.{
  update, Pc, Move, claim_cell, store_buf, prod_turn, claim_buf, load_buf, cons_turn, System,
  note_claim, count_claim, note_load,
}
use benchamel.BufRing.Invariant.{fills, empties, Knows, Inv}

-- What the premise of a move and the arithmetic of the indices give, in terms of the counters.
abbrev pub Guard : {m m' : Ring} {p p' : Pc} → Move both_fixes m p m' p' → Type 0
Guard {m} (claim_cell {h = h} {c = c} full here) =
    (m.prod_head ≡ h) × (h ≢ c + m.size) × (next_of both_fixes m h ≡ h + 1)
Guard {m} (store_buf {h = h}) = slot_of both_fixes m h ≡ h % m.size
Guard {m} (prod_turn {h = h} turn) = m.prod_tail ≡ h
Guard {m} (claim_buf {h = h} {t = t} ne here) =
    (m.cons_head ≡ h) × (h ≢ t) × (next_of both_fixes m h ≡ h + 1)
Guard {m} (load_buf {h = h}) = slot_of both_fixes m h ≡ h % m.size
Guard {m} (cons_turn {h = h} turn) = m.cons_tail ≡ h
Guard _ = Unit

room_left :
    (k : ℕ) (m : Ring) (h c : ℕ)
    → IsSized k m
    → c ≤ h
    → h < 2 ^ 32
    → is_full both_fixes m h c ≡ false
    → h ≢ c + m.size
room_left k m h c v le small full e =
    absurd (ground (arith, full, is_full-size m h c le small, e, le))

module _ {k : ℕ} {s : System} (inv : Inv k s) (i : ℕ) where
  open inv use {
    sized, heads, order, knows, filling, emptying, one_fills, one_empties, stored, read_out,
    emptied,
  }

  abbrev pub after : Ring → Pc → System
  after m p = record {
    mem = m;
    pc = update s.pc i p;
    log = note_claim s.log s.claims p;
    claims = count_claim s.claims p;
    taken = note_load s.taken p;
  }

  pub record Mover (p : Pc) : Type 0 where
    pub own : Knows s.mem s.log s.taken p
    pub fill_in : (t : ℕ) → fills p ≡ some t → (s.mem.prod_tail ≤ t) × (t < s.mem.prod_head)
    pub empty_in : (t : ℕ) → empties p ≡ some t → (s.mem.cons_tail ≤ t) × (t < s.mem.cons_head)
    pub only_fills : (j t : ℕ) → fills p ≡ some t → fills (s.pc j) ≡ some t → i ≡ j
    pub only_empties : (j t : ℕ) → empties p ≡ some t → empties (s.pc j) ≡ some t → i ≡ j

  pub mover : Mover (s.pc i)
  mover = record {
    own = knows i;
    fill_in = filling i;
    empty_in = emptying i;
    only_fills = one_fills i;
    only_empties = one_empties i;
  }

  pub guard :
      {p p' : Pc} {m : Ring} (mv : Move both_fixes s.mem p m p')
      → Mover p
      → count_claim s.claims p' < 2 ^ 32
      → Guard mv
  guard (claim_cell {h = h} {c = c} full here) f g = (
    here,
    room_left k s.mem h c sized (omega (arith, f.own, order, here)) (omega (arith, heads, here))
        full,
    next_of_small s.mem h (omega (arith, heads, here, g)),
  )
  guard (store_buf {h = h}) f g = slot_of-mod k s.mem h sized
  guard (prod_turn turn) f g = turn
  guard (claim_buf {h = h} ne here) f g =
      (here, ne, next_of_small s.mem h (omega (arith, heads, here, order, g, f.own, ne)))
  guard (load_buf {h = h}) f g = slot_of-mod k s.mem h sized
  guard (cons_turn turn) f g = turn
  guard _ f g = tt
