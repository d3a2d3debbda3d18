-- ===== src/Sctbench/BoundedBuffer/Teardown.antt =====
-- sctbench/inspect_examples/boundedBuffer.c: the items that bounded_buf_destroy frees.
use benchamel.Base.{
  ℕ, zero, suc, ◌+◌, ◌-◌, ◌<◌, ◌≤◌, ◌≡◌, refl, sym, ap, ◌∙◌, arith, true, false, List, [], ◌∷◌,
  ◌++◌, length, length-append, length-take, length-drop, drop, get_or, get_or-take, get_or-drop,
  leb, ◌==◌,
}
use native.Mathlib.Nat.{mod-eq_of_lt, mod-eq-sub-mod}
use native.Mathlib.Decide.{dec_lt}
use benchamel.Sctbench.BoundedBuffer.{
  cells_max, bounded_buf_valid, einval, BoundedBuf, Statuses, between, freed_items,
  bounded_buf_destroy, refused, bounded_buf_put, bounded_buf_get, failed, tested,
  bounded_buf_is_empty, bounded_buf_is_full,
}
use benchamel.Sctbench.BoundedBuffer.Ring.{Holds, rear-lt}

-- Lists of one length that agree at each index are equal.
get_or-ext :
    (l m : List ℕ)
    → length l ≡ length m
    → ((k : ℕ) → k < length l → get_or l k 0 ≡ get_or m k 0)
    → l ≡ m
get_or-ext [] [] e same = refl
get_or-ext [] (y ∷ m) e same = absurd (omega (arith, e))
get_or-ext (x ∷ l) [] e same = absurd (omega (arith, e))
get_or-ext (x ∷ l) (y ∷ m) e same =
    let head = same 0 (omega arith) in
    let tail = get_or-ext l m (omega (arith, e)) (λ k lt. same (suc k) (omega (arith, lt))) in
    cc (head, tail)

get_or-append_right : (l m : List ℕ) (k : ℕ) → get_or (l ++ m) (length l + k) 0 ≡ get_or m k 0
get_or-append_right [] m k = ap (λ j. get_or m j 0) (omega arith)
get_or-append_right (x ∷ l) m k =
    ap (λ j. get_or (x ∷ (l ++ m)) j 0) {x = suc (length l) + k} {y = suc (length l + k)}
      (omega arith)
    ∙ get_or-append_right l m k

get_or-append_left : (l m : List ℕ) (k : ℕ) → k < length l → get_or (l ++ m) k 0 ≡ get_or l k 0
get_or-append_left [] m k lt = absurd (omega (arith, lt))
get_or-append_left (y ∷ l) m zero lt = refl
get_or-append_left (y ∷ l) m (suc k) lt = get_or-append_left l m k (omega (arith, lt))

length-between : (l : List ℕ) (i j : ℕ) → i ≤ j → j ≤ length l → length (between l i j) ≡ j - i
unfolding between
length-between l i j lo hi = omega (arith, length-take (j - i) (drop i l), length-drop i l, lo, hi)

get_or-between :
    (l : List ℕ) (i j k : ℕ) → k < j - i → get_or (between l i j) k 0 ≡ get_or l (i + k) 0
unfolding between
get_or-between l i j k lt = get_or-take (j - i) k (drop i l) 0 lt ∙ get_or-drop i k l 0

module _ (b : BoundedBuf) (l : List ℕ) (v : Holds b l) where
  straight : b.head + length l < b.max_size → b.rear ≡ b.head + length l
  straight lt = v.rear ∙ mod-eq_of_lt {n = b.head + length l} {m = b.max_size} lt

  wrapped : b.max_size ≤ b.head + length l → b.rear + b.max_size ≡ b.head + length l
  wrapped ge =
      let small =
        mod-eq_of_lt {n = b.head + length l - b.max_size} {m = b.max_size}
          (omega (arith, ge, v.head, v.room)) in
      let once = mod-eq-sub-mod {n = b.head + length l} {m = b.max_size} ge in
      omega (arith, ge, v.rear, small, once)

  straight_items : b.head + length l < b.max_size → between b.buf b.head b.rear ≡ l
  straight_items lt =
      let rear = straight lt in
      let len =
        length-between b.buf b.head b.rear (omega (arith, rear))
          (omega (arith, rear, v.block, lt)) in
      get_or-ext (between b.buf b.head b.rear) l (omega (arith, len, rear)) (λ k k_lt.
        let inside : k < length l = omega (arith, k_lt, len, rear) in
        get_or-between b.buf b.head b.rear k (omega (arith, inside, rear))
        ∙ ap (λ j. get_or b.buf j 0)
            (sym (mod-eq_of_lt {n = b.head + k} {m = b.max_size} (omega (arith, inside, lt))))
        ∙ v.cells k inside)

  wrapped_items :
      b.max_size ≤ b.head + length l → between b.buf b.head b.max_size ++ between b.buf 0 b.rear ≡ l
  wrapped_items ge =
      let rear = wrapped ge in
      let upper = between b.buf b.head b.max_size in
      let lower = between b.buf 0 b.rear in
      let up_len =
        length-between b.buf b.head b.max_size (omega (arith, v.head)) (omega (arith, v.block)) in
      let low_len =
        length-between b.buf 0 b.rear (omega arith) (omega (arith, rear-lt b l v, v.block)) in
      let len = length-append upper lower in
      get_or-ext (upper ++ lower) l (omega (arith, len, up_len, low_len, rear, v.head)) (λ k k_lt.
        let inside : k < length l = omega (arith, k_lt, len, up_len, low_len, rear, v.head) in
        elim (dec_lt (b.head + k) b.max_size) [
          | yes lt ↦
              get_or-append_left upper lower k (omega (arith, up_len, lt))
              ∙ get_or-between b.buf b.head b.max_size k (omega (arith, lt))
              ∙ ap (λ j. get_or b.buf j 0) (sym (mod-eq_of_lt {n = b.head + k} {m = b.max_size} lt))
              ∙ v.cells k inside
          | no over ↦
              let j = b.head + k - b.max_size in
              let low : j < b.rear = omega (arith, over, inside, rear) in
              ap (λ x. get_or (upper ++ lower) x 0)
                (let e : k ≡ length upper + j = omega (arith, up_len, over, v.head) in e)
              ∙ get_or-append_right upper lower j
              ∙ get_or-between b.buf 0 b.rear j (omega (arith, low))
              ∙ ap (λ x. get_or b.buf x 0)
                  (ap (λ x. x) {x = 0 + j} {y = j} (omega arith)
                    ∙ sym
                        (mod-eq_of_lt {n = j} {m = b.max_size} (omega (arith, low, rear-lt b l v)))
                    ∙ sym (mod-eq-sub-mod {n = b.head + k} {m = b.max_size} (omega (arith, over))))
              ∙ v.cells k inside
        ])

  pub freed_items-eq : freed_items b ≡ l
  unfolding freed_items
  freed_items-eq = elim (dec_lt (b.head + length l) b.max_size) [
    | yes lt ↦
        let rear = straight lt in
        let order : leb b.head b.rear ≡ true = ground (arith, rear) in rw order (straight_items lt)
    | no ge ↦
        let rear = wrapped (omega (arith, ge)) in
        let order : leb b.head b.rear ≡ false = ground (arith, rear, v.room) in
        rw order (wrapped_items (omega (arith, ge)))
  ]

-- A buffer that has been destroyed: its items are freed once each, and every call refuses it.
pub record IsDestroyed (b : BoundedBuf) (items given : List ℕ) : Type 0 where
  pub freed : given ≡ items
  pub put : (c : Statuses) (item : ℕ) → bounded_buf_put c b item ≡ refused einval
  pub get : (c : Statuses) → bounded_buf_get c b ≡ refused einval
  pub again : (c : Statuses) → (bounded_buf_destroy c b).status ≡ einval
  pub tested :
      (c : Statuses) → (bounded_buf_is_empty c b ≡ failed) × (bounded_buf_is_full c b ≡ failed)

refuses_invalid : (b : BoundedBuf) (items : List ℕ) → b.valid ≡ 0 → IsDestroyed b items items
unfolding bounded_buf_put bounded_buf_get bounded_buf_destroy bounded_buf_is_empty
    bounded_buf_is_full tested
refuses_invalid b items e = record {
  freed = refl;
  put = λ c item. ground (arith, e);
  get = λ c. ground (arith, e);
  again = λ c. ground (arith, e);
  tested = λ c. (ground (arith, e), ground (arith, e));
}

-- In a ring of fewer than 2^31 cells, if the mutex can be locked and unlocked, `bounded_buf_destroy` frees the items that the buffer
-- holds, once each and in order; afterwards put, get and destroy return EINVAL and the two tests
-- -1.
pub destroy-IsDestroyed :
    (c : Statuses) (b : BoundedBuf) (items : List ℕ)
    → Holds b items
    → b.max_size < cells_max
    → c.lock ≡ 0
    → c.unlock ≡ 0
    → IsDestroyed (bounded_buf_destroy c b).bbuf items (bounded_buf_destroy c b).freed
unfolding bounded_buf_destroy
destroy-IsDestroyed c b items v few l u =
    let good : (b.valid == bounded_buf_valid) ≡ true = ground (arith, v.is_valid) in
    let all = freed_items-eq b items v in
    rw (good, l, u, all) (refuses_invalid (record b { valid = 0 }) items refl)
