-- ===== src/Sctbench/BoundedBuffer/Threads/Moves.antt =====
-- sctbench/inspect_examples/boundedBuffer.c: the calls are what its threads rely on.
use benchamel.Base.{
  ℕ, ◌+◌, ◌<◌, ◌≤◌, ◌≡◌, ◌≢◌, refl, sym, ap, ◌∙◌, arith, Bool, false, some, List, [], ◌∷◌, ◌++◌,
  length, get_or, ltb,
}
use mathlib.Core.Path.{subst}
use benchamel.Sctbench.BoundedBuffer.{word, BoundedBuf, increment, decrement, waits, returned}
use benchamel.Sctbench.BoundedBuffer.Ring.{
  Holds, stored, taken, stored-Holds, taken-Holds, first-Holds,
}
use benchamel.Sctbench.BoundedBuffer.Calls.{
  counted-Holds, put_lem, put_woken_lem, get_lem, get_woken_lem,
}
use benchamel.Sctbench.BoundedBuffer.Threads.{
  all_well, Place, calling, asleep, awake, in_wait, ring_calls, producer_routine, consumer_routine,
}
use benchamel.Sctbench.BoundedBuffer.Threads.Crowd.{stirs}
use benchamel.Sctbench.BoundedBuffer.Threads.Interface.{Counts, Goes, Goes-if, IsRing}

-- The count of the waiting threads when one begins to wait, and when one goes on.
abbrev entering : Place → ℕ → ℕ
entering calling w = increment w
entering _ w = w

abbrev leaving : Place → ℕ → ℕ
leaving awake w = decrement w
leaving _ w = w

module _ (b : BoundedBuf) (l : List ℕ) (v : Holds b l) where
  put_waits-inv :
      (p : Place) (item : ℕ) (c : BoundedBuf)
      → producer_routine ring_calls p b item ≡ some (waits c)
      → (p ≢ asleep) × (length l + 1 ≡ b.max_size) × (c ≡ record b { p_wait = entering p b.p_wait })
  put_waits-inv calling item c e =
      let f = put_lem all_well b l v item in (λ q. cc q, ground (arith, e, f), ground (arith, e, f))
  put_waits-inv asleep item c e = cc e
  put_waits-inv awake item c e =
      let f = put_woken_lem all_well b l v item 0 in
      (λ q. cc q, ground (arith, e, f), ground (arith, e, f))

  put_returns-inv :
      (p : Place) (item : ℕ) (c : BoundedBuf) (x : ℕ) (signals : Bool)
      → producer_routine ring_calls p b item ≡ some (returned c x signals 0)
      → (p ≢ asleep)
        × (length l + 1 ≢ b.max_size)
        × (c ≡ stored (record b { p_wait = leaving p b.p_wait }) x)
        × (signals ≡ ltb 0 b.c_wait)
        × (x ≡ item)
  put_returns-inv calling item c x signals e =
      let f = put_lem all_well b l v item in
      (
        λ q. cc q,
        ground (arith, e, f),
        ground (arith, e, f),
        ground (arith, e, f),
        ground (arith, e, f),
      )
  put_returns-inv asleep item c x signals e = cc e
  put_returns-inv awake item c x signals e =
      let f = put_woken_lem all_well b l v item 0 in
      (
        λ q. cc q,
        ground (arith, e, f),
        ground (arith, e, f),
        ground (arith, e, f),
        ground (arith, e, f),
      )

  get_waits-inv :
      (p : Place) (c : BoundedBuf)
      → consumer_routine ring_calls p b ≡ some (waits c)
      → (p ≢ asleep) × (length l ≡ 0) × (c ≡ record b { c_wait = entering p b.c_wait })
  get_waits-inv calling c e =
      let f = get_lem all_well b l v in (λ q. cc q, ground (arith, e, f), ground (arith, e, f))
  get_waits-inv asleep c e = cc e
  get_waits-inv awake c e =
      let f = get_woken_lem all_well b l v 0 in
      (λ q. cc q, ground (arith, e, f), ground (arith, e, f))

  get_returns-inv :
      (p : Place) (c : BoundedBuf) (x : ℕ) (signals : Bool)
      → consumer_routine ring_calls p b ≡ some (returned c x signals 0)
      → (p ≢ asleep)
        × (length l ≢ 0)
        × (c ≡ taken (record b { c_wait = leaving p b.c_wait }))
        × (signals ≡ ltb 0 b.p_wait)
        × (x ≡ get_or b.buf b.head 0)
  get_returns-inv calling c x signals e =
      let f = get_lem all_well b l v in
      (
        λ q. cc q,
        ground (arith, e, f),
        ground (arith, e, f),
        ground (arith, e, f),
        ground (arith, e, f),
      )
  get_returns-inv asleep c x signals e = cc e
  get_returns-inv awake c x signals e =
      let f = get_woken_lem all_well b l v 0 in
      (
        λ q. cc q,
        ground (arith, e, f),
        ground (arith, e, f),
        ground (arith, e, f),
        ground (arith, e, f),
      )

entering-eq : (p : Place) (w : ℕ) → p ≢ asleep → w + 1 < word → entering p w + stirs p ≡ w + 1
entering-eq calling w ne lt = omega (arith, lt)
entering-eq asleep w ne lt = absurd (ne refl)
entering-eq awake w ne lt = refl

leaving-eq : (p : Place) (w : ℕ) → p ≢ asleep → stirs p ≤ w → w < word → leaving p w + stirs p ≡ w
leaving-eq calling w ne le lt = omega arith
leaving-eq asleep w ne le lt = absurd (ne refl)
leaving-eq awake w ne le lt = omega (arith, le, lt)

module _ (b : BoundedBuf) (l : List ℕ) (v : Holds b l) where
  put-Goes : (p : Place) → in_wait p ≡ false → Goes (producer_routine ring_calls p b 0)
  put-Goes calling up = rw (put_lem all_well b l v 0) (Goes-if _ _ _ _ _ _ refl)
  put-Goes asleep up = cc up
  put-Goes awake up = rw (put_woken_lem all_well b l v 0 0) (Goes-if _ _ _ _ _ _ refl)

  get-Goes : (p : Place) → in_wait p ≡ false → Goes (consumer_routine ring_calls p b)
  get-Goes calling up = rw (get_lem all_well b l v) (Goes-if _ _ _ _ _ _ (ground arith))
  get-Goes asleep up = cc up
  get-Goes awake up = rw (get_woken_lem all_well b l v 0) (Goes-if _ _ _ _ _ _ (ground arith))

-- `p_wait` and `c_wait` are the counts.
abbrev pub Counted : Counts
Counted b p q = (b.p_wait ≡ p) × (b.c_wait ≡ q)

first_of : (l : List ℕ) → length l ≢ 0 → (x : ℕ) × (m : List ℕ) × (l ≡ x ∷ m)
first_of [] ne = absurd (ne refl)
first_of (x ∷ m) ne = (x, m, refl)

module _ (b c : BoundedBuf) (l : List ℕ) (v : Holds b l) (at : Place) where
  waiting-put :
      (p p₁ q item : ℕ)
      → Counted b p q
      → p + 1 < word
      → p₁ + stirs at ≡ p + 1
      → producer_routine ring_calls at b item ≡ some (waits c)
      → (length l + 1 ≡ b.max_size) × (c.max_size ≡ b.max_size) × Holds c l × Counted c p₁ q
  waiting-put p p₁ q item (pe, qe) fits move h =
      let (up, all, e) = put_waits-inv b l v at item c h in
      let now = entering-eq at b.p_wait up (omega (arith, pe, fits)) in
      (
        all,
        ap (λ (d : BoundedBuf). d.max_size) e,
        subst (λ d. Holds d l) (sym e) (counted-Holds b l _ _ v),
        (
          ap (λ (d : BoundedBuf). d.p_wait) e ∙ omega (arith, now, move, pe),
          ap (λ (d : BoundedBuf). d.c_wait) e ∙ qe,
        ),
      )

  waiting-get :
      (p q q₁ : ℕ)
      → Counted b p q
      → q + 1 < word
      → q₁ + stirs at ≡ q + 1
      → consumer_routine ring_calls at b ≡ some (waits c)
      → (length l ≡ 0) × (c.max_size ≡ b.max_size) × Holds c l × Counted c p q₁
  waiting-get p q q₁ (pe, qe) fits move h =
      let (up, nothing, e) = get_waits-inv b l v at c h in
      let now = entering-eq at b.c_wait up (omega (arith, qe, fits)) in
      (
        nothing,
        ap (λ (d : BoundedBuf). d.max_size) e,
        subst (λ d. Holds d l) (sym e) (counted-Holds b l _ _ v),
        (
          ap (λ (d : BoundedBuf). d.p_wait) e ∙ pe,
          ap (λ (d : BoundedBuf). d.c_wait) e ∙ omega (arith, now, move, qe),
        ),
      )

  returning-put :
      (p p₁ q item x : ℕ) (signals : Bool)
      → Counted b p q
      → p + 1 < word
      → p₁ + stirs at ≡ p
      → producer_routine ring_calls at b item ≡ some (returned c x signals 0)
      → (c.max_size ≡ b.max_size)
        × Holds c (l ++ x ∷ [])
        × Counted c p₁ q
        × (signals ≡ false → q ≡ 0)
  returning-put p p₁ q item x signals (pe, qe) fits move h =
      let (up, free, e, called, same) = put_returns-inv b l v at item c x signals h in
      let now = leaving-eq at b.p_wait up (omega (arith, pe, move)) (omega (arith, pe, fits)) in
      (
        ap (λ (d : BoundedBuf). d.max_size) e,
        subst (λ d. Holds d (l ++ x ∷ [])) (sym e)
            (stored-Holds (record b { p_wait = leaving at b.p_wait }) l x (counted-Holds b l _ _ v)
              (omega (arith, free, v.room))),
        (
          ap (λ (d : BoundedBuf). d.p_wait) e ∙ omega (arith, now, move, pe),
          ap (λ (d : BoundedBuf). d.c_wait) e ∙ qe,
        ),
        λ silent. ground (arith, silent, called, qe),
      )

  returning-get :
      (p q q₁ x : ℕ) (signals : Bool)
      → Counted b p q
      → q + 1 < word
      → q₁ + stirs at ≡ q
      → consumer_routine ring_calls at b ≡ some (returned c x signals 0)
      → (rest : List ℕ) × (l ≡ x ∷ rest)
        × (c.max_size ≡ b.max_size)
        × Holds c rest
        × Counted c p q₁
        × (signals ≡ false → p ≡ 0)
  returning-get p q q₁ x signals (pe, qe) fits move h =
      let (up, more, e, called, same) = get_returns-inv b l v at c x signals h in
      let now = leaving-eq at b.c_wait up (omega (arith, qe, move)) (omega (arith, qe, fits)) in
      let (y, rest, split) = first_of l more in
      let holds = subst (Holds b) split v in
      let first : y ≡ x = sym (same ∙ first-Holds b rest y holds) in
      (
        rest,
        split ∙ ap (λ z. z ∷ rest) first,
        ap (λ (d : BoundedBuf). d.max_size) e,
        subst (λ d. Holds d rest) (sym e)
            (taken-Holds (record b { c_wait = leaving at b.c_wait }) rest y
              (counted-Holds b (y ∷ rest) _ _ holds)),
        (
          ap (λ (d : BoundedBuf). d.p_wait) e ∙ pe,
          ap (λ (d : BoundedBuf). d.c_wait) e ∙ omega (arith, now, move, qe),
        ),
        λ silent. ground (arith, silent, called, pe),
      )

pub ring_calls-IsRing : IsRing ring_calls Counted
ring_calls-IsRing = record {
  put_goes = λ b l at v up. put-Goes b l v at up;
  get_goes = λ b l at v up. get-Goes b l v at up;
  put_waits =
      λ b c l p p₁ q item at v w fits move h. waiting-put b c l v at p p₁ q item w fits move h;
  put_returns = λ b c l p p₁ q item x signals at v w fits move h.
      returning-put b c l v at p p₁ q item x signals w fits move h;
  get_waits = λ b c l p q q₁ at v w fits move h. waiting-get b c l v at p q q₁ w fits move h;
  get_returns = λ b c l p q q₁ x signals at v w fits move h.
      returning-get b c l v at p q q₁ x signals w fits move h;
}
