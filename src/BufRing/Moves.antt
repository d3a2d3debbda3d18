-- ===== src/BufRing/Moves.antt =====
-- buf_ring/buf_ring.h with both fixes: a move of one thread keeps the invariant.
use benchamel.Base.{
  ℕ, ◌+◌, ◌^◌, ◌≤◌, ◌<◌, ◌≡◌, ◌≢◌, refl, inl, inr, none, some, arith, Bool-cases, Option-cases,
  ◌==◌,
}
use benchamel.Base.Masks.{mod_close}
use benchamel.BufRing.{Ring, next_of}
use benchamel.BufRing.Index.{both_fixes, IsSized}
use benchamel.BufRing.Threads.{
  update, Pc, Move, read_prod_head, claim_cell, store_buf, publish, claim_buf, load_buf, free_cell,
  System, note_claim, count_claim, note_load,
}
use mathlib.Core.Path.{subst}
use benchamel.BufRing.Others.{
  Apart, Facts, In-intro, Apart-intro, claimed_cell, stored_buf, published, claimed_buf, loaded_buf,
  freed_cell,
}
use benchamel.BufRing.Invariant.{fills, empties, cell, Knows, Inv}
use benchamel.BufRing.Guards.{Guard, Mover, mover, guard, after}

module _ {k : ℕ} {s : System} (inv : Inv k s) (i : ℕ) where
  open inv use {
    sized, heads, order, knows, filling, emptying, one_fills, one_empties, stored, read_out,
    emptied,
  }

  Move-order :
      {p p' : Pc} {m : Ring} (mv : Move both_fixes s.mem p m p')
      → Mover inv i p
      → Guard mv
      → (m.prod_head ≡ count_claim s.claims p')
        × (m.cons_tail ≤ m.cons_head)
        × (m.cons_head ≤ m.prod_tail)
        × (m.prod_tail ≤ m.prod_head)
        × (m.prod_head ≤ m.cons_tail + m.size)
  Move-order (claim_cell full here) f g = omega (arith, f.own, order, heads, g)
  Move-order (publish {h = h}) f g = omega (arith, f.own, order, heads, f.fill_in h refl)
  Move-order (claim_buf ne here) f g = omega (arith, f.own, order, heads, g)
  Move-order (free_cell {h = h}) f g = omega (arith, f.own, order, heads, f.empty_in h refl)
  Move-order _ f g = omega (arith, order, heads)

  Move-IsSized : {p p' : Pc} {m : Ring} → Move both_fixes s.mem p m p' → IsSized k m
  Move-IsSized (claim_cell full here) = record {
    size = sized.size;
    mask = sized.mask;
    small = sized.small;
    some_cell = sized.some_cell;
  }
  Move-IsSized _ = record {
    size = sized.size;
    mask = sized.mask;
    small = sized.small;
    some_cell = sized.some_cell;
  }

  Move-filling :
      {p p' : Pc} {m : Ring} (mv : Move both_fixes s.mem p m p')
      → Mover inv i p
      → Guard mv
      → (j t : ℕ) → fills (update s.pc i p' j) ≡ some t
      → (m.prod_tail ≤ t) × (t < m.prod_head)
  Move-filling (publish {h = h}) f g j t q =
      ground (arith, f.own, f.fill_in h, filling j t, f.only_fills j h)
  Move-filling mv f g j t q = ground (arith, order, g, f.fill_in t, filling j t)

  Move-emptying :
      {p p' : Pc} {m : Ring} (mv : Move both_fixes s.mem p m p')
      → Mover inv i p
      → Guard mv
      → (j t : ℕ) → empties (update s.pc i p' j) ≡ some t
      → (m.cons_tail ≤ t) × (t < m.cons_head)
  Move-emptying (free_cell {h = h}) f g j t q =
      ground (arith, f.own, f.empty_in h, emptying j t, f.only_empties j h)
  Move-emptying mv f g j t q = ground (arith, order, g, f.empty_in t, emptying j t)

  Move-one_fills :
      {p p' : Pc} {m : Ring} (mv : Move both_fixes s.mem p m p')
      → Mover inv i p
      → Guard mv
      → (a b t : ℕ) → fills (update s.pc i p' a) ≡ some t
      → fills (update s.pc i p' b) ≡ some t
      → a ≡ b
  Move-one_fills read_prod_head f g a b t qa qb = ground (arith, one_fills a b t)
  Move-one_fills mv f g a b t qa qb =
      ground
        (arith, g, filling a t, filling b t, one_fills a b t, f.only_fills a t, f.only_fills b t)

  Move-one_empties :
      {p p' : Pc} {m : Ring} (mv : Move both_fixes s.mem p m p')
      → Mover inv i p
      → Guard mv
      → (a b t : ℕ) → empties (update s.pc i p' a) ≡ some t
      → empties (update s.pc i p' b) ≡ some t
      → a ≡ b
  Move-one_empties read_prod_head f g a b t qa qb = ground (arith, one_empties a b t)
  Move-one_empties mv f g a b t qa qb = ground (
    arith,
    g,
    emptying a t,
    emptying b t,
    one_empties a b t,
    f.only_empties a t,
    f.only_empties b t,
  )

  Move-read_out :
      {p p' : Pc} {m : Ring} (mv : Move both_fixes s.mem p m p')
      → Mover inv i p
      → Guard mv
      → (t b : ℕ) → note_load s.taken p' t ≡ some b
      → (note_claim s.log s.claims p' t ≡ b) × (t < m.cons_head)
  Move-read_out (load_buf {h = h}) f g t b q =
      ground (arith, g, order, read_out t b, f.own, f.empty_in h, stored h)
  Move-read_out mv f g t b q =
      ground (arith, g, heads, order, read_out t b, f.own, f.empty_in t, stored t)

  facts : (j : ℕ) → Facts s.mem s.log s.taken (s.pc j)
  facts j = record {
    own = knows j;
    filling = In-intro _ _ (fills (s.pc j)) (filling j);
    emptying = In-intro _ _ (empties (s.pc j)) (emptying j);
  }

  -- Another thread has no claim of the mover's.
  fills-Apart :
      {p : Pc} (f : Mover inv i p) (h j : ℕ) → fills p ≡ some h → i ≢ j → Apart h (fills (s.pc j))
  fills-Apart f h j e ne = Apart-intro h (fills (s.pc j)) (λ q. ne (f.only_fills j h e q))

  empties-Apart :
      {p : Pc} (f : Mover inv i p) (h j : ℕ)
      → empties p ≡ some h
      → i ≢ j
      → Apart h (empties (s.pc j))
  empties-Apart f h j e ne = Apart-intro h (empties (s.pc j)) (λ q. ne (f.only_empties j h e q))

  Move-other :
      {p p' : Pc} {m : Ring} (mv : Move both_fixes s.mem p m p')
      → Mover inv i p
      → Guard mv
      → (j : ℕ) → i ≢ j
      → Knows m (note_claim s.log s.claims p') (note_load s.taken p') (s.pc j)
  Move-other (claim_cell {b = b} {h = h} full here) f g j ne =
      let x = claimed_cell s.mem s.log s.taken order b (s.pc j) (facts j) in
      let y =
        subst
          (λ n.
            Knows (record s.mem { prod_head = n }) (update s.log s.mem.prod_head b) s.taken
              (s.pc j))
          {y = next_of both_fixes s.mem h} (omega (arith, g)) x in
      subst
        (λ n.
          Knows (record s.mem { prod_head = next_of both_fixes s.mem h }) (update s.log n b) s.taken
            (s.pc j))
        heads.0 y
  Move-other (store_buf {b = b} {h = h}) f g j ne = rw g (
      stored_buf s.mem s.log s.taken order h b (s.pc j) (f.fill_in h refl) (facts j)
        (fills-Apart f h j refl ne))
  Move-other (publish {h = h}) f g j ne =
      rw (f.own.0) (
        published s.mem s.log s.taken order h (s.pc j) f.own.3 (facts j)
          (fills-Apart f h j refl ne))
  Move-other (claim_buf {h = h} differ here) f g j ne =
      subst (λ n. Knows (record s.mem { cons_head = n }) s.log s.taken (s.pc j))
        {y = next_of both_fixes s.mem h} (omega (arith, g))
        (claimed_buf s.mem s.log s.taken order (s.pc j) (facts j))
  Move-other (load_buf {h = h}) f g j ne =
      loaded_buf s.mem s.log s.taken order h _ (s.pc j) (facts j) (empties-Apart f h j refl ne)
  Move-other (free_cell {h = h}) f g j ne = rw (f.own.0) (
      freed_cell s.mem s.log s.taken order h (s.pc j) f.own.3 (facts j)
        (empties-Apart f h j refl ne))
  Move-other _ f g j ne = knows j

  -- Nothing has been read out for the next claim.
  untaken : s.taken s.mem.cons_head ≡ none
  untaken = elim (Option-cases (s.taken s.mem.cons_head)) [
    | inl e ↦ e
    | inr (b, e) ↦ absurd (omega (arith, read_out s.mem.cons_head b e))
  ]

  Move-own :
      {p p' : Pc} {m : Ring} (mv : Move both_fixes s.mem p m p')
      → Mover inv i p
      → Guard mv
      → Knows m (note_claim s.log s.claims p') (note_load s.taken p') p'
  Move-own (claim_cell full here) f g = ground (arith, g, heads)
  Move-own (load_buf {h = h}) f g = ground (arith, g, f.own, f.empty_in h refl, stored h, order)
  Move-own (claim_buf differ here) f g = ground (arith, g, untaken)
  Move-own mv f g = ground (arith, g, f.own, order)

  Move-knows :
      {p p' : Pc} {m : Ring} (mv : Move both_fixes s.mem p m p')
      → Mover inv i p
      → Guard mv
      → (j : ℕ) → Knows m (note_claim s.log s.claims p') (note_load s.taken p') (update s.pc i p' j)
  Move-knows {p' = p'} {m = m} mv f g j = elim (Bool-cases (i == j)) [
    | inl same ↦ rw same (Move-own mv f g)
    | inr other ↦ rw other (Move-other mv f g j (ground (arith, other)))
  ]

  Move-stored :
      {p p' : Pc} {m : Ring} (mv : Move both_fixes s.mem p m p')
      → Mover inv i p
      → Guard mv
      → (t : ℕ) → m.cons_tail ≤ t
      → t < m.prod_tail
      → cell m t ≡ note_claim s.log s.claims p' t
  Move-stored (claim_cell full here) f g t lo hi = ground (arith, heads, order, stored t)
  Move-stored (store_buf {h = h}) f g t lo hi =
      ground (arith, g, order, f.fill_in h refl, stored t, mod_close t h s.mem.size)
  Move-stored (publish {h = h}) f g t lo hi = ground (arith, f.own, order, stored t)
  Move-stored (free_cell) f g t lo hi = stored t (omega (arith, lo, f.own)) hi
  Move-stored mv f g t lo hi = stored t lo hi

  Move-emptied :
      {p p' : Pc} {m : Ring} (mv : Move both_fixes s.mem p m p')
      → Mover inv i p
      → Guard mv
      → (t : ℕ) → t < m.cons_tail
      → note_load s.taken p' t ≡ some (note_claim s.log s.claims p' t)
  Move-emptied (claim_cell full here) f g t h = ground (arith, heads, order, emptied t)
  Move-emptied (load_buf {h = h}) f g t lt = ground (arith, f.empty_in h refl, emptied t)
  Move-emptied (free_cell {h = h}) f g t lt = ground (arith, f.own, emptied t)
  Move-emptied mv f g t h = emptied t h

  pub Move-Inv :
      {p' : Pc} {m : Ring}
      → Move both_fixes s.mem (s.pc i) m p'
      → count_claim s.claims p' < 2 ^ 32
      → Inv k (after inv i m p')
  Move-Inv mv few =
      let g = guard inv i mv (mover inv i) few in
      let o = Move-order mv (mover inv i) g in
      record {
        sized = Move-IsSized mv;
        heads = (o.0, few);
        order = (o.1, o.2, o.3, o.4);
        knows = Move-knows mv (mover inv i) g;
        filling = Move-filling mv (mover inv i) g;
        emptying = Move-emptying mv (mover inv i) g;
        one_fills = Move-one_fills mv (mover inv i) g;
        one_empties = Move-one_empties mv (mover inv i) g;
        stored = Move-stored mv (mover inv i) g;
        read_out = Move-read_out mv (mover inv i) g;
        emptied = Move-emptied mv (mover inv i) g;
      }
