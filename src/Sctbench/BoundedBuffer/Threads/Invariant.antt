-- ===== src/Sctbench/BoundedBuffer/Threads/Invariant.antt =====
-- sctbench/inspect_examples/boundedBuffer.c, bbuf.c: what holds between the steps of the threads,
-- whichever ring they call.
use benchamel.Base.{
  ℕ, ◌+◌, ◌<◌, ◌≤◌, ◌≡◌, refl, sym, ap, ◌∙◌, arith, Bool, some, List, [], ◌∷◌, ◌++◌, append_assoc,
  length, length-append, update, total, total-update, total-zero, Reach, Reach-inv,
}
use mathlib.Core.Path.{subst}
use benchamel.Sctbench.BoundedBuffer.{word, BoundedBuf, returned, waits}
use benchamel.Sctbench.BoundedBuffer.Ring.{Holds}
use benchamel.Sctbench.BoundedBuffer.Threads.{
  awake, asleep, Worker, RingCalls, State, started, starting, producer_routine, consumer_routine,
  at, done, Signals, Step, put_waits, put_returns, get_waits, get_returns, SomeStep, step,
  wake_producer, wake_consumer,
}
use benchamel.Sctbench.BoundedBuffer.Threads.Crowd.{
  sleeps, stirs, sleeping, stirring, inside, Crowd, Signals-Heard, wake-Crowd, sleep-Crowd,
  done-Crowd, starting-Crowd, asleep-lt, is_asleep_lem, awake_or-calling, stirs-le, total_inside-le,
  inside-sleep, inside-done,
}
use benchamel.Sctbench.BoundedBuffer.Threads.Interface.{Counts, IsRing, put_up, get_up}

pub record Inv (Waits : Counts) (n rounds sz : ℕ) (s : State) : Type 0 where
  pub contents : List ℕ
  pub holds : Holds s.bbuf contents
  pub size : s.bbuf.max_size ≡ sz
  pub order : s.sent ≡ s.received ++ contents
  pub producers : Crowd n rounds (length s.sent) s.producers
  pub consumers : Crowd n rounds (length s.received) s.consumers
  pub counts : Waits s.bbuf (total inside n s.producers) (total inside n s.consumers)
  -- Where some sleep, enough are awake to fill or to empty the buffer.
  pub callers_to-put :
      0 < total sleeping n s.producers → sz ≤ length contents + 1 + total stirring n s.producers
  pub callers_to-get :
      0 < total sleeping n s.consumers → length contents ≤ total stirring n s.consumers

length-snoc : (l : List ℕ) (x : ℕ) → length (l ++ x ∷ []) ≡ length l + 1
length-snoc l x = length-append l (x ∷ [])

module _ (calls : RingCalls) (Waits : Counts) (ring : IsRing calls Waits) (n rounds sz : ℕ)
    (fits : n + 1 < word) (s : State) (v : Inv Waits n rounds sz s) where
  fits-producers : total inside n s.producers + 1 < word
  fits-producers = omega (arith, total_inside-le n s.producers, fits)

  fits-consumers : total inside n s.consumers + 1 < word
  fits-consumers = omega (arith, total_inside-le n s.consumers, fits)

  put_waits-Inv :
      (k item : ℕ) (b : BoundedBuf)
      → k < n
      → (s.producers k).i < rounds
      → producer_routine calls (s.producers k).place s.bbuf item ≡ some (waits b)
      → Inv Waits n rounds sz
          (record s { bbuf = b; producers = update s.producers k (at asleep (s.producers k)) })
  put_waits-Inv k item b lt go h =
      let up = put_up calls (s.producers k).place s.bbuf item (waits b) h in
      let (all, same, holds, counts) =
        ring.put_waits s.bbuf b v.contents _ _ _ item (s.producers k).place v.holds v.counts
          fits-producers (inside-sleep n s.producers k lt up) h in
      record {
        contents = v.contents;
        holds = holds;
        size = same ∙ v.size;
        order = v.order;
        producers = sleep-Crowd n rounds (length s.sent) s.producers v.producers k lt go;
        consumers = v.consumers;
        counts = counts;
        callers_to-put = λ pos. omega (arith, all, v.size);
        callers_to-get = v.callers_to-get;
      }

  get_waits-Inv :
      (k : ℕ) (b : BoundedBuf)
      → k < n
      → (s.consumers k).i < rounds
      → consumer_routine calls (s.consumers k).place s.bbuf ≡ some (waits b)
      → Inv Waits n rounds sz
          (record s { bbuf = b; consumers = update s.consumers k (at asleep (s.consumers k)) })
  get_waits-Inv k b lt go h =
      let up = get_up calls (s.consumers k).place s.bbuf (waits b) h in
      let (nothing, same, holds, counts) =
        ring.get_waits s.bbuf b v.contents _ _ _ (s.consumers k).place v.holds v.counts
          fits-consumers (inside-sleep n s.consumers k lt up) h in
      record {
        contents = v.contents;
        holds = holds;
        size = same ∙ v.size;
        order = v.order;
        producers = v.producers;
        consumers = sleep-Crowd n rounds (length s.received) s.consumers v.consumers k lt go;
        counts = counts;
        callers_to-put = v.callers_to-put;
        callers_to-get = λ pos. omega (arith, nothing);
      }

  put_returns-Inv :
      (k item : ℕ) (b : BoundedBuf) (x : ℕ) (signals : Bool) (f : ℕ → Worker)
      → k < n
      → (s.producers k).i < rounds
      → producer_routine calls (s.producers k).place s.bbuf item ≡ some (returned b x signals 0)
      → Signals s.consumers signals f
      → Inv Waits n rounds sz (record s {
        bbuf = b;
        producers = update s.producers k (done (s.producers k));
        consumers = f;
        sent = s.sent ++ x ∷ [];
      })
  put_returns-Inv k item b x signals f lt go h sig =
      let w = done (s.producers k) in
      let up = put_up calls (s.producers k).place s.bbuf item (returned b x signals 0) h in
      let (same, holds, counts, quiet) =
        ring.put_returns s.bbuf b v.contents _ _ _ item x signals (s.producers k).place v.holds
          v.counts fits-producers (inside-done n s.producers k lt up) h in
      let grown = length-snoc v.contents x in
      let heard =
        Signals-Heard n rounds (length s.received) s.consumers f signals v.consumers quiet sig in
      let asleep_ = total-update sleeping n s.producers k w lt in
      let awake_ = total-update stirring n s.producers k w lt in
      let before = awake_or-calling (s.producers k).place up in
      record {
        contents = v.contents ++ x ∷ [];
        holds = holds;
        size = same ∙ v.size;
        order = ap (λ t. t ++ x ∷ []) v.order ∙ append_assoc s.received v.contents (x ∷ []);
        producers =
            subst (λ j. Crowd n rounds j (update s.producers k w)) (sym (length-snoc s.sent x))
              (done-Crowd n rounds (length s.sent) s.producers v.producers k lt go);
        consumers = heard.crowd;
        counts = subst (Waits b (total inside n (update s.producers k w))) (sym heard.same) counts;
        callers_to-put = λ pos.
            let old = v.callers_to-put (omega (arith, pos, asleep_, before)) in
            omega (arith, old, grown, awake_, stirs-le (s.producers k).place);
        callers_to-get = λ pos.
            let some_ : 0 < total sleeping n s.consumers = omega (arith, pos, heard.fewer) in
            omega (arith, heard.more some_, v.callers_to-get some_, grown);
      }

  get_returns-Inv :
      (k : ℕ) (b : BoundedBuf) (x : ℕ) (signals : Bool) (f : ℕ → Worker)
      → k < n
      → (s.consumers k).i < rounds
      → consumer_routine calls (s.consumers k).place s.bbuf ≡ some (returned b x signals 0)
      → Signals s.producers signals f
      → Inv Waits n rounds sz (record s {
        bbuf = b;
        consumers = update s.consumers k (done (s.consumers k));
        producers = f;
        received = s.received ++ x ∷ [];
      })
  get_returns-Inv k b x signals f lt go h sig =
      let w = done (s.consumers k) in
      let up = get_up calls (s.consumers k).place s.bbuf (returned b x signals 0) h in
      let (rest, split, same, holds, counts, quiet) =
        ring.get_returns s.bbuf b v.contents _ _ _ x signals (s.consumers k).place v.holds v.counts
          fits-consumers (inside-done n s.consumers k lt up) h in
      let shrunk : length v.contents ≡ length rest + 1 = ap length split ∙ omega arith in
      let heard =
        Signals-Heard n rounds (length s.sent) s.producers f signals v.producers quiet sig in
      let asleep_ = total-update sleeping n s.consumers k w lt in
      let awake_ = total-update stirring n s.consumers k w lt in
      let before = awake_or-calling (s.consumers k).place up in
      record {
        contents = rest;
        holds = holds;
        size = same ∙ v.size;
        order =
            v.order ∙ ap (λ t. s.received ++ t) split ∙ sym (append_assoc s.received (x ∷ []) rest);
        consumers =
            subst (λ j. Crowd n rounds j (update s.consumers k w)) (sym (length-snoc s.received x))
              (done-Crowd n rounds (length s.received) s.consumers v.consumers k lt go);
        producers = heard.crowd;
        counts =
            subst (λ p. Waits b p (total inside n (update s.consumers k w))) (sym heard.same)
              counts;
        callers_to-get = λ pos.
            let old = v.callers_to-get (omega (arith, pos, asleep_, before)) in
            omega (arith, old, shrunk, awake_, stirs-le (s.consumers k).place);
        callers_to-put = λ pos.
            let some_ : 0 < total sleeping n s.producers = omega (arith, pos, heard.fewer) in
            omega (arith, heard.more some_, v.callers_to-put some_, shrunk);
      }

  pub Step-Inv : (t : State) → Step calls n rounds s t → Inv Waits n rounds sz t
  Step-Inv t (put_waits k item {b} lt go h) = put_waits-Inv k item b lt go h
  Step-Inv t (put_returns k item {b} {x} {signals} {f} lt go h sig) =
      put_returns-Inv k item b x signals f lt go h sig
  Step-Inv t (get_waits k {b} lt go h) = get_waits-Inv k b lt go h
  Step-Inv t (get_returns k {b} {x} {signals} {f} lt go h sig) =
      get_returns-Inv k b x signals f lt go h sig

-- Waking up moves a thread from one count to the other.
module _ (n rounds calls : ℕ) (f : ℕ → Worker) (v : Crowd n rounds calls f) (k : ℕ)
    (e : (f k).place ≡ asleep) where
  woken-lt : k < n
  woken-lt = asleep-lt n rounds calls f v k (λ q. cc (q, e))

  inside-woken : total inside n f ≡ total inside n (update f k (at awake (f k)))
  inside-woken =
      omega (arith, total-update inside n f k (at awake (f k)) woken-lt, ap sleeps e, ap stirs e)

  sleeping-woken : total sleeping n (update f k (at awake (f k))) ≤ total sleeping n f
  sleeping-woken = omega (arith, total-update sleeping n f k (at awake (f k)) woken-lt)

  stirring-woken : total stirring n f ≤ total stirring n (update f k (at awake (f k)))
  stirring-woken = omega (arith, total-update stirring n f k (at awake (f k)) woken-lt, ap stirs e)

module _ (calls : RingCalls) (Waits : Counts) (ring : IsRing calls Waits) where
  SomeStep-Inv :
      (n rounds sz : ℕ)
      → n + 1 < word
      → (s t : State) → SomeStep calls n rounds s t
      → Inv Waits n rounds sz s
      → Inv Waits n rounds sz t
  SomeStep-Inv n rounds sz fits s t (step st) v =
      Step-Inv calls Waits ring n rounds sz fits s v t st
  SomeStep-Inv n rounds sz fits s t (wake_producer k e) v =
      let here_ = is_asleep_lem (s.producers k).place e in
      let less = sleeping-woken n rounds (length s.sent) s.producers v.producers k here_ in
      let more = stirring-woken n rounds (length s.sent) s.producers v.producers k here_ in
      record {
        contents = v.contents;
        holds = v.holds;
        size = v.size;
        order = v.order;
        producers = wake-Crowd n rounds (length s.sent) s.producers v.producers k here_;
        consumers = v.consumers;
        counts =
            subst (λ p. Waits s.bbuf p (total inside n s.consumers))
              (inside-woken n rounds (length s.sent) s.producers v.producers k here_) v.counts;
        callers_to-put = λ pos. omega (arith, v.callers_to-put (omega (arith, pos, less)), more);
        callers_to-get = v.callers_to-get;
      }
  SomeStep-Inv n rounds sz fits s t (wake_consumer k e) v =
      let here_ = is_asleep_lem (s.consumers k).place e in
      let less = sleeping-woken n rounds (length s.received) s.consumers v.consumers k here_ in
      let more = stirring-woken n rounds (length s.received) s.consumers v.consumers k here_ in
      record {
        contents = v.contents;
        holds = v.holds;
        size = v.size;
        order = v.order;
        producers = v.producers;
        consumers = wake-Crowd n rounds (length s.received) s.consumers v.consumers k here_;
        counts =
            subst (Waits s.bbuf (total inside n s.producers))
              (inside-woken n rounds (length s.received) s.consumers v.consumers k here_) v.counts;
        callers_to-put = v.callers_to-put;
        callers_to-get = λ pos. omega (arith, v.callers_to-get (omega (arith, pos, less)), more);
      }

  started-Inv :
      (b : BoundedBuf) (n rounds : ℕ)
      → Holds b []
      → Waits b 0 0
      → Inv Waits n rounds b.max_size (started b)
  started-Inv b n rounds holds none_ =
      let nobody = total-zero inside n (λ k. starting) (λ k lt. refl) in
      let awake_ = total-zero sleeping n (λ k. starting) (λ k lt. refl) in
      record {
        contents = [];
        holds = holds;
        size = refl;
        order = refl;
        producers = starting-Crowd n rounds;
        consumers = starting-Crowd n rounds;
        counts = subst (λ j. Waits b j j) (sym nobody) none_;
        callers_to-put = λ h. absurd (omega (arith, h, awake_));
        callers_to-get = λ h. absurd (omega (arith, h, awake_));
      }

  pub Reach-Inv :
      (b : BoundedBuf) (n rounds : ℕ) (s : State)
      → n + 1 < word
      → Holds b []
      → Waits b 0 0
      → Reach (SomeStep calls n rounds) (started b) s
      → Inv Waits n rounds b.max_size s
  Reach-Inv b n rounds s few holds none_ r =
      Reach-inv (SomeStep calls n rounds) (Inv Waits n rounds b.max_size)
        (SomeStep-Inv n rounds b.max_size few) (started-Inv b n rounds holds none_) r
