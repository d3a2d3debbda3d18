-- ===== src/Sctbench/BoundedBuffer/Ring.antt =====
-- sctbench/inspect_examples/boundedBuffer.c: the ring as a queue.
use benchamel.Base.{
  ℕ, zero, suc, ◌+◌, ◌-◌, ◌%◌, ◌<◌, ◌≡◌, ◌≢◌, refl, sym, ap, ◌∙◌, arith, true, false, List, [], ◌∷◌,
  ◌++◌, length, length-append, length-set, get_or, set, get_or-set_self, get_or-set_other,
}
use benchamel.Base.Masks.{mod_close}
use native.Mathlib.Nat.{mod-lt, mod-add-mod, mod-eq_of_lt, mod-eq-sub-mod}
use native.Mathlib.Decide.{dec_lt, ℕ_discrete}
use benchamel.Sctbench.BoundedBuffer.{
  bounded_buf_valid, word, BoundedBuf, next_index, full, empty_ring,
}

-- The buffer holds these items, the oldest first.
pub record Holds (b : BoundedBuf) (items : List ℕ) : Type 0 where
  pub is_valid : b.valid ≡ bounded_buf_valid
  pub size : b.max_size < word
  pub block : length b.buf ≡ b.max_size
  pub head : b.head < b.max_size
  pub rear : b.rear ≡ (b.head + length items) % b.max_size
  pub room : length items < b.max_size
  pub cells :
      (k : ℕ) → k < length items → get_or b.buf ((b.head + k) % b.max_size) 0 ≡ get_or items k 0

pub next_index_lem : (i m : ℕ) → i < m → m < word → next_index i m ≡ (i + 1) % m
unfolding next_index
next_index_lem i m lt fits = ap (λ k. k % m) (omega (arith, lt, fits))

pub rear-lt : (b : BoundedBuf) (l : List ℕ) → Holds b l → b.rear < b.max_size
rear-lt b l v =
    let r = mod-lt (b.head + length l) {m = b.max_size} (omega (arith, v.head)) in
    omega (arith, v.rear, r)

-- The index after the rear
next-rear :
    (b : BoundedBuf) (l : List ℕ)
    → Holds b l
    → next_index b.rear b.max_size ≡ (b.head + (length l + 1)) % b.max_size
next-rear b l v =
    next_index_lem b.rear b.max_size (rear-lt b l v) v.size
    ∙ ap (λ k. (k + 1) % b.max_size) v.rear
    ∙ mod-add-mod (b.head + length l) b.max_size 1
    ∙ ap (λ k. k % b.max_size) (omega arith)

pub empty-true : (b : BoundedBuf) (l : List ℕ) → Holds b l → empty_ring b ≡ true → length l ≡ 0
unfolding empty_ring
empty-true b l v e =
    let same : b.head ≡ b.rear = ground (arith, e) in
    let small = mod-eq_of_lt {n = b.head} {m = b.max_size} v.head in
    let close =
      mod_close b.head (b.head + length l) b.max_size (omega arith) (omega (arith, v.room))
        (omega (arith, small, same, v.rear)) in
    omega (arith, close)

pub empty-false : (b : BoundedBuf) (l : List ℕ) → Holds b l → empty_ring b ≡ false → 0 < length l
unfolding empty_ring
empty-false b l v e =
    let other : b.head ≢ b.rear = ground (arith, e) in
    let small = mod-eq_of_lt {n = b.head} {m = b.max_size} v.head in
    elim (ℕ_discrete (length l) 0) [
      | yes z ↦
          let nothing : b.head ≡ b.head + length l = omega (arith, z) in
          absurd (other (sym small ∙ ap (λ k. k % b.max_size) nothing ∙ sym v.rear))
      | no some_ ↦ omega (arith, some_)
    ]

pub full-true :
    (b : BoundedBuf) (l : List ℕ) → Holds b l → full b ≡ true → length l + 1 ≡ b.max_size
unfolding full
full-true b l v e =
    let same : next_index b.rear b.max_size ≡ b.head = ground (arith, e) in
    let small = mod-eq_of_lt {n = b.head} {m = b.max_size} v.head in
    elim (dec_lt (length l + 1) b.max_size) [
      | yes lt ↦
          let close =
            mod_close b.head (b.head + (length l + 1)) b.max_size (omega arith) (omega (arith, lt))
              (small ∙ sym same ∙ next-rear b l v) in
          absurd (omega (arith, close))
      | no ge ↦ omega (arith, v.room, ge)
    ]

pub full-false :
    (b : BoundedBuf) (l : List ℕ) → Holds b l → full b ≡ false → length l + 1 < b.max_size
unfolding full
full-false b l v e =
    let other : next_index b.rear b.max_size ≢ b.head = ground (arith, e) in
    elim (ℕ_discrete (length l + 1) b.max_size) [
      | yes all ↦
          let around =
            mod-eq-sub-mod {n = b.head + (length l + 1)} {m = b.max_size} (omega (arith, all)) in
          let back : (b.head + (length l + 1) - b.max_size) % b.max_size ≡ b.head % b.max_size =
            ap (λ k. k % b.max_size) (omega (arith, all)) in
          let small = mod-eq_of_lt {n = b.head} {m = b.max_size} v.head in
          absurd (other (next-rear b l v ∙ around ∙ back ∙ small))
      | no less ↦ omega (arith, v.room, less)
    ]

abbrev pub stored : BoundedBuf → ℕ → BoundedBuf
stored b x = record b { buf = set b.buf b.rear x; rear = next_index b.rear b.max_size }

abbrev pub taken : BoundedBuf → BoundedBuf
taken b = record b { head = next_index b.head b.max_size }

get_or-last : (l : List ℕ) (x k : ℕ) → k ≡ length l → get_or (l ++ x ∷ []) k 0 ≡ x
get_or-last [] x zero e = refl
get_or-last [] x (suc k) e = absurd (omega (arith, e))
get_or-last (y ∷ l) x zero e = absurd (omega (arith, e))
get_or-last (y ∷ l) x (suc k) e = get_or-last l x k (omega (arith, e))

get_or-before : (l m : List ℕ) (k : ℕ) → k < length l → get_or (l ++ m) k 0 ≡ get_or l k 0
get_or-before [] m k lt = absurd (omega (arith, lt))
get_or-before (y ∷ l) m zero lt = refl
get_or-before (y ∷ l) m (suc k) lt = get_or-before l m k (omega (arith, lt))

pub stored-Holds :
    (b : BoundedBuf) (l : List ℕ) (x : ℕ)
    → Holds b l
    → length l + 1 < b.max_size
    → Holds (stored b x) (l ++ x ∷ [])
stored-Holds b l x v free =
    let grown : length (l ++ x ∷ []) ≡ length l + 1 = length-append l (x ∷ []) in
    record {
      is_valid = v.is_valid;
      size = v.size;
      block = length-set b.buf b.rear x ∙ v.block;
      head = v.head;
      rear = next-rear b l v ∙ ap (λ k. (b.head + k) % b.max_size) (sym grown);
      room = omega (arith, grown, free);
      cells = λ k lt. elim (ℕ_discrete k (length l)) [
        | yes last ↦
            let here_ : (b.head + k) % b.max_size ≡ b.rear =
              ap (λ j. (b.head + j) % b.max_size) last ∙ sym v.rear in
            ap (λ j. get_or (set b.buf b.rear x) j 0) here_
            ∙ get_or-set_self b.buf b.rear x 0 (omega (arith, rear-lt b l v, v.block))
            ∙ sym (get_or-last l x k last)
        | no before ↦
            let old : k < length l = omega (arith, lt, grown, before) in
            let apart : (b.head + k) % b.max_size ≢ b.rear = λ e. before (
              omega (
                arith,
                mod_close (b.head + k) (b.head + length l) b.max_size (omega (arith, old))
                    (omega (arith, v.room)) (e ∙ v.rear),
              )) in
            get_or-set_other b.buf b.rear ((b.head + k) % b.max_size) x 0 apart
            ∙ v.cells k old
            ∙ sym (get_or-before l (x ∷ []) k old)
      ];
    }

pub taken-Holds : (b : BoundedBuf) (l : List ℕ) (x : ℕ) → Holds b (x ∷ l) → Holds (taken b) l
taken-Holds b l x v =
    let next = next_index_lem b.head b.max_size v.head v.size in
    let shift : (k : ℕ)
        → (next_index b.head b.max_size + k) % b.max_size ≡ (b.head + suc k) % b.max_size =
      λ k.
        ap (λ j. (j + k) % b.max_size) next
        ∙ mod-add-mod (b.head + 1) b.max_size k
        ∙ ap (λ j. j % b.max_size) (omega arith) in
    let bound = mod-lt (b.head + 1) {m = b.max_size} (omega (arith, v.head)) in
    record {
      is_valid = v.is_valid;
      size = v.size;
      block = v.block;
      head = omega (arith, next, bound);
      rear = v.rear ∙ sym (shift (length l));
      room = omega (arith, v.room);
      cells = λ k lt. ap (λ j. get_or b.buf j 0) (shift k) ∙ v.cells (suc k) (omega (arith, lt));
    }

pub first-Holds :
    (b : BoundedBuf) (l : List ℕ) (x : ℕ) → Holds b (x ∷ l) → get_or b.buf b.head 0 ≡ x
first-Holds b l x v =
    ap (λ j. get_or b.buf j 0)
      (sym (mod-eq_of_lt {n = b.head} {m = b.max_size} v.head)
        ∙ ap (λ j. j % b.max_size) (omega arith))
    ∙ v.cells 0 (omega arith)
