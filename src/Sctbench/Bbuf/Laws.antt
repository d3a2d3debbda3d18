-- ===== src/Sctbench/Bbuf/Laws.antt =====
-- sctbench/inspect_examples/bbuf.c: the threads move the items in order and end.
use benchamel.Base.{
  ℕ, ◌+◌, ◌*◌, ◌<◌, ◌≤◌, ◌≡◌, ◌≢◌, refl, sym, ap, ◌∙◌, arith, Bool, true, false, List, [], ◌∷◌,
  ◌++◌, length, get_or, some, ◌==◌, Reach, Terminates, if◌then◌else◌,
}
use mathlib.Core.Path.{subst}
use benchamel.Sctbench.BoundedBuffer.{
  cells_max, word, BoundedBuf, Called, allocate, waits, returned,
}
use benchamel.Sctbench.BoundedBuffer.Ring.{
  Holds, stored, taken, stored-Holds, taken-Holds, first-Holds,
}
use benchamel.Sctbench.BoundedBuffer.Threads.{
  Place, calling, asleep, awake, in_wait, State, Step, producer_routine, consumer_routine,
}
use benchamel.Sctbench.BoundedBuffer.Threads.Interface.{Counts, Goes, Goes-if, IsRing}
use benchamel.Sctbench.BoundedBuffer.Threads.Invariant.{Inv, Reach-Inv}
use benchamel.Sctbench.BoundedBuffer.Threads.Runs.{
  IsOver, steps_left, Inv-Terminates, started_effort,
}
use benchamel.Sctbench.Bbuf.{bounded_buf_init, bbuf_calls, main, BbufStep}
use benchamel.Sctbench.Bbuf.Calls.{put_woken_lem, put_lem, get_woken_lem, get_lem, bbuf-Holds}

-- Nothing is counted.
abbrev pub Uncounted : Counts
Uncounted b p q = Unit

module _ (b : BoundedBuf) (l : List ℕ) (v : Holds b l) where
  -- Whether a call begins or goes on makes no difference.
  put_at :
      (at : Place) (item : ℕ) (r : Called)
      → producer_routine bbuf_calls at b item ≡ some r
      → r ≡ (if length l + 1 == b.max_size then waits b else returned (stored b item) item true 0)
  put_at calling item r e = ground (arith, e, put_lem b l v item, put_woken_lem b l v item)
  put_at asleep item r e = cc e
  put_at awake item r e = ground (arith, e, put_woken_lem b l v item)

  get_at :
      (at : Place) (r : Called)
      → consumer_routine bbuf_calls at b ≡ some r
      → r ≡ (if length l == 0 then waits b else returned (taken b) (get_or b.buf b.head 0) true 0)
  get_at calling r e = ground (arith, e, get_lem b l v, get_woken_lem b l v)
  get_at asleep r e = cc e
  get_at awake r e = ground (arith, e, get_woken_lem b l v)

  put-Goes : (at : Place) → in_wait at ≡ false → Goes (producer_routine bbuf_calls at b 0)
  put-Goes calling up = rw (put_lem b l v 0, put_woken_lem b l v 0) (Goes-if _ _ _ _ _ _ refl)
  put-Goes asleep up = cc up
  put-Goes awake up = rw (put_woken_lem b l v 0) (Goes-if _ _ _ _ _ _ refl)

  get-Goes : (at : Place) → in_wait at ≡ false → Goes (consumer_routine bbuf_calls at b)
  get-Goes calling up = rw (get_lem b l v, get_woken_lem b l v) (Goes-if _ _ _ _ _ _ refl)
  get-Goes asleep up = cc up
  get-Goes awake up = rw (get_woken_lem b l v) (Goes-if _ _ _ _ _ _ refl)

  waiting-put :
      (c : BoundedBuf) (item : ℕ) (at : Place)
      → producer_routine bbuf_calls at b item ≡ some (waits c)
      → (length l + 1 ≡ b.max_size) × (c ≡ b)
  waiting-put c item at h =
      let e = put_at at item (waits c) h in (ground (arith, e), ground (arith, e))

  waiting-get :
      (c : BoundedBuf) (at : Place)
      → consumer_routine bbuf_calls at b ≡ some (waits c)
      → (length l ≡ 0) × (c ≡ b)
  waiting-get c at h = let e = get_at at (waits c) h in (ground (arith, e), ground (arith, e))

  returning-put :
      (c : BoundedBuf) (item x : ℕ) (signals : Bool) (at : Place)
      → producer_routine bbuf_calls at b item ≡ some (returned c x signals 0)
      → (length l + 1 ≢ b.max_size) × (c ≡ stored b x) × (signals ≡ true)
  returning-put c item x signals at h =
      let e = put_at at item (returned c x signals 0) h in
      (ground (arith, e), ground (arith, e), ground (arith, e))

  returning-get :
      (c : BoundedBuf) (x : ℕ) (signals : Bool) (at : Place)
      → consumer_routine bbuf_calls at b ≡ some (returned c x signals 0)
      → (length l ≢ 0) × (c ≡ taken b) × (signals ≡ true) × (x ≡ get_or b.buf b.head 0)
  returning-get c x signals at h =
      let e = get_at at (returned c x signals 0) h in
      (ground (arith, e), ground (arith, e), ground (arith, e), ground (arith, e))

taking :
    (b : BoundedBuf) (l : List ℕ) (x : ℕ)
    → Holds b l
    → length l ≢ 0
    → x ≡ get_or b.buf b.head 0
    → (rest : List ℕ) × (l ≡ x ∷ rest) × Holds (taken b) rest
taking b [] x v ne e = absurd (ne refl)
taking b (y ∷ rest) x v ne e =
    (rest, ap (λ z. z ∷ rest) (sym (first-Holds b rest y v) ∙ sym e), taken-Holds b rest y v)

pub bbuf_calls-IsRing : IsRing bbuf_calls Uncounted
bbuf_calls-IsRing = record {
  put_goes = λ b l at v up. put-Goes b l v at up;
  get_goes = λ b l at v up. get-Goes b l v at up;
  put_waits = λ b c l p p₁ q item at v w fits move h.
      let (all, e) = waiting-put b l v c item at h in
      (all, ap (λ (d : BoundedBuf). d.max_size) e, subst (λ d. Holds d l) (sym e) v, tt);
  put_returns = λ b c l p p₁ q item x signals at v w fits move h.
      let (free, e, called) = returning-put b l v c item x signals at h in
      (
        ap (λ (d : BoundedBuf). d.max_size) e,
        subst (λ d. Holds d (l ++ x ∷ [])) (sym e)
            (stored-Holds b l x v (omega (arith, free, v.room))),
        tt,
        λ silent. absurd (cc (silent, called)),
      );
  get_waits = λ b c l p q q₁ at v w fits move h.
      let (nothing, e) = waiting-get b l v c at h in
      (nothing, ap (λ (d : BoundedBuf). d.max_size) e, subst (λ d. Holds d l) (sym e) v, tt);
  get_returns = λ b c l p q q₁ x signals at v w fits move h.
      let (more, e, called, item) = returning-get b l v c x signals at h in
      let (rest, split, holds) = taking b l x v more item in
      (
        rest,
        split,
        ap (λ (d : BoundedBuf). d.max_size) e,
        subst (λ d. Holds d rest) (sym e) holds,
        tt,
        λ silent. absurd (cc (silent, called)),
      );
}

main-Inv :
    (buffer : BoundedBuf) (n rounds sz : ℕ) (s : State)
    → n + 1 < word
    → 0 < sz
    → sz < cells_max
    → Reach (BbufStep n rounds) (main buffer sz) s
    → Inv Uncounted n rounds sz s
unfolding bounded_buf_init allocate
main-Inv buffer n rounds sz s few pos fits r =
    Reach-Inv bbuf_calls Uncounted bbuf_calls-IsRing (bounded_buf_init true buffer sz).bbuf n rounds
      s few (bbuf-Holds buffer sz pos fits) tt r

pub record IsServed (n rounds sz : ℕ) (s : State) : Type 0 where
  pub contents : List ℕ
  pub holds : Holds s.bbuf contents
  pub order : s.sent ≡ s.received ++ contents
  pub bounded : length contents + 1 ≤ sz
  pub ends : Terminates (Step bbuf_calls n rounds) (IsOver n rounds) (steps_left n rounds) s

-- For a ring of 2 to 2^31 - 1 cells, whatever the buffer was before, and fewer than 2^64 - 1 threads
-- on each side, in every state that the threads can reach, also by wakeups without a signal: the
-- ring holds some items, fewer than it has cells; the items put in are the items taken followed by
-- those, in order; either all threads have done all their rounds, everything put in has been taken
-- and there is nothing for `bounded_buf_destroy` to free, or some thread can take a step that is no
-- wakeup without a signal; every such step leaves fewer of them to take, of which there are
-- `n * (6 * rounds + 4)` at the start; and some run of such steps leads to the end.
pub main-IsServed :
    (buffer : BoundedBuf) (n rounds sz : ℕ) (s : State)
    → n + 1 < word
    → 2 ≤ sz
    → sz < cells_max
    → Reach (BbufStep n rounds) (main buffer sz) s
    → IsServed n rounds sz s × (steps_left n rounds (main buffer sz) ≡ n * (6 * rounds + 4))
main-IsServed buffer n rounds sz s few two fits r =
    let v = main-Inv buffer n rounds sz s few (omega (arith, two)) fits r in
    (
      record {
        contents = v.contents;
        holds = v.holds;
        order = v.order;
        bounded = omega (arith, v.holds.room, v.size);
        ends = Inv-Terminates bbuf_calls Uncounted bbuf_calls-IsRing n rounds sz s few two v;
      },
      started_effort (bounded_buf_init true buffer sz).bbuf n rounds,
    )
