-- ===== src/Sctbench/BoundedBuffer/Threads/Runs.antt =====
-- sctbench/inspect_examples/boundedBuffer.c, bbuf.c: all threads end, whichever ring they call.
use benchamel.Base.{
  ℕ, ◌+◌, ◌*◌, ◌<◌, ◌≤◌, ◌≡◌, refl, sym, ap, ◌∙◌, arith, true, false, List, [], ◌∷◌, ◌++◌,
  append-nil, length, length-append, total, total-all, one_or_none, Terminates, kept-Terminates,
  ◌⊎◌, inl, inr,
}
use native.Mathlib.Decide.{ℕ_discrete}
use benchamel.Sctbench.BoundedBuffer.{word, BoundedBuf, returned, waits, freed_items}
use benchamel.Sctbench.BoundedBuffer.Teardown.{freed_items-eq}
use benchamel.Sctbench.BoundedBuffer.Threads.{
  RingCalls, starting, State, started, in_wait, Step, put_waits, put_returns, get_waits,
  get_returns,
}
use benchamel.Sctbench.BoundedBuffer.Threads.Crowd.{sleeping}
use benchamel.Sctbench.BoundedBuffer.Threads.Effort.{
  effort, can_go, effort_asleep, effort-done, effort_heard, can_signal, calls-le, none_stirs,
  all_ended, calls-eq,
}
use benchamel.Sctbench.BoundedBuffer.Threads.Interface.{Counts, IsRing, put_up, get_up}
use benchamel.Sctbench.BoundedBuffer.Threads.Invariant.{Inv, Step-Inv}

-- How many steps the threads can still take, if no wait ends without a signal.
abbrev pub steps_left : ℕ → ℕ → State → ℕ
steps_left n rounds s = total (effort rounds) n s.producers + total (effort rounds) n s.consumers

pub record IsOver (n rounds : ℕ) (s : State) : Type 0 where
  pub producers : (k : ℕ) → k < n → (s.producers k).i ≡ rounds
  pub consumers : (k : ℕ) → k < n → (s.consumers k).i ≡ rounds
  pub all : length s.sent ≡ n * rounds
  pub delivered : s.received ≡ s.sent
  pub freed : freed_items s.bbuf ≡ []

-- Where a side sleeps, the other side has been left to end alone.
nobody_asleep :
    (sent received items producers consumers all sz : ℕ)
    → 2 ≤ sz
    → sent ≡ received + items
    → sent + producers ≤ all
    → received + consumers ≤ all
    → (producers ≡ 0 → sent ≡ all)
    → (consumers ≡ 0 → received ≡ all)
    → (0 < producers → sz ≤ items + 1)
    → (0 < consumers → items ≡ 0)
    → (producers ≡ 0) × (consumers ≡ 0)
nobody_asleep sent received items producers consumers all sz two e p c p_all c_all to_put to_get =
    elim (ℕ_discrete producers 0) [
      | yes p0 ↦ elim (ℕ_discrete consumers 0) [
        | yes c0 ↦ (p0, c0)
        | no c1 ↦ absurd (omega (arith, e, c, c1, p_all p0, to_get (omega (arith, c1))))
      ]
      | no p1 ↦ elim (ℕ_discrete consumers 0) [
        | yes c0 ↦ absurd (omega (arith, e, p, p1, c_all c0))
        | no c1 ↦
            absurd (omega (arith, two, to_put (omega (arith, p1)), to_get (omega (arith, c1))))
      ]
    ]

nil_of : (l : List ℕ) → length l ≡ 0 → l ≡ []
nil_of [] e = refl
nil_of (x ∷ l) e = absurd (omega (arith, e))

module _ (calls : RingCalls) (Waits : Counts) (ring : IsRing calls Waits) (n rounds sz : ℕ)
    (s : State) (v : Inv Waits n rounds sz s) where
  Step-effort :
      (t : State) → Step calls n rounds s t → steps_left n rounds t < steps_left n rounds s
  Step-effort t (put_waits k item {b} lt go h) =
      let up = put_up calls (s.producers k).place s.bbuf item (waits b) h in
      omega (arith, effort_asleep n rounds s.producers k lt up)
  Step-effort t (put_returns k item {b} {x} {signals} {f} lt go h sig) =
      let up = put_up calls (s.producers k).place s.bbuf item (returned b x signals 0) h in
      omega (
        arith,
        effort-done n rounds s.producers k lt up go,
        effort_heard n rounds (length s.received) s.consumers f signals v.consumers sig,
      )
  Step-effort t (get_waits k {b} lt go h) =
      let up = get_up calls (s.consumers k).place s.bbuf (waits b) h in
      omega (arith, effort_asleep n rounds s.consumers k lt up)
  Step-effort t (get_returns k {b} {x} {signals} {f} lt go h sig) =
      let up = get_up calls (s.consumers k).place s.bbuf (returned b x signals 0) h in
      omega (
        arith,
        effort-done n rounds s.consumers k lt up go,
        effort_heard n rounds (length s.sent) s.producers f signals v.producers sig,
      )

  put-Step :
      (k : ℕ) → k < n → can_go rounds (s.producers k) ≡ true → (t : State) × Step calls n rounds s t
  put-Step k lt e =
      let up : in_wait (s.producers k).place ≡ false = ground (arith, e) in
      let go : (s.producers k).i < rounds = ground (arith, e) in
      elim (ring.put_goes s.bbuf v.contents (s.producers k).place v.holds up) [
        | inl (c, h) ↦ (_, put_waits k 0 lt go h)
        | inr (c, x, signals, h) ↦
            let (f, sig) =
              can_signal n rounds (length s.received) s.consumers signals v.consumers in
            (_, put_returns k 0 lt go h sig)
      ]

  get-Step :
      (k : ℕ) → k < n → can_go rounds (s.consumers k) ≡ true → (t : State) × Step calls n rounds s t
  get-Step k lt e =
      let up : in_wait (s.consumers k).place ≡ false = ground (arith, e) in
      let go : (s.consumers k).i < rounds = ground (arith, e) in
      elim (ring.get_goes s.bbuf v.contents (s.consumers k).place v.holds up) [
        | inl (c, h) ↦ (_, get_waits k lt go h)
        | inr (c, x, signals, h) ↦
            let (f, sig) = can_signal n rounds (length s.sent) s.producers signals v.producers in
            (_, get_returns k lt go h sig)
      ]

  module _ (two : 2 ≤ sz) (no_producer : (k : ℕ) → k < n → can_go rounds (s.producers k) ≡ false)
      (no_consumer : (k : ℕ) → k < n → can_go rounds (s.consumers k) ≡ false) where
    lengths : length s.sent ≡ length s.received + length v.contents
    lengths = ap length v.order ∙ length-append s.received v.contents

    none_asleep : (total sleeping n s.producers ≡ 0) × (total sleeping n s.consumers ≡ 0)
    none_asleep =
        let p_still = none_stirs n rounds (length s.sent) s.producers v.producers no_producer in
        let c_still = none_stirs n rounds (length s.received) s.consumers v.consumers no_consumer in
        nobody_asleep (length s.sent) (length s.received) (length v.contents)
          (total sleeping n s.producers) (total sleeping n s.consumers) (n * rounds) sz two lengths
          (calls-le n rounds (length s.sent) s.producers v.producers)
          (calls-le n rounds (length s.received) s.consumers v.consumers)
          (calls-eq n rounds (length s.sent) s.producers v.producers no_producer)
          (calls-eq n rounds (length s.received) s.consumers v.consumers no_consumer)
          (λ pos. omega (arith, v.callers_to-put pos, p_still))
          (λ pos. omega (arith, v.callers_to-get pos, c_still))

    at_rest-IsOver : IsOver n rounds s
    at_rest-IsOver =
        let (p0, c0) = none_asleep in
        let p = v.producers in
        let c = v.consumers in
        let all = calls-eq n rounds (length s.sent) s.producers p no_producer p0 in
        let got = calls-eq n rounds (length s.received) s.consumers c no_consumer c0 in
        let nothing : v.contents ≡ [] = nil_of v.contents (omega (arith, all, got, lengths)) in
        record {
          producers = all_ended n rounds (length s.sent) s.producers p no_producer p0;
          consumers = all_ended n rounds (length s.received) s.consumers c no_consumer c0;
          all = all;
          delivered = sym (v.order ∙ ap (λ l. s.received ++ l) nothing ∙ append-nil s.received);
          freed = freed_items-eq s.bbuf v.contents v.holds ∙ nothing;
        }

  ends_or-goes : 2 ≤ sz → IsOver n rounds s ⊎ ((t : State) × Step calls n rounds s t)
  ends_or-goes two = elim (one_or_none (can_go rounds) n s.producers) [
    | inl (k, lt, e) ↦ inr (put-Step k lt e)
    | inr no_producer ↦ elim (one_or_none (can_go rounds) n s.consumers) [
      | inl (k, lt, e) ↦ inr (get-Step k lt e)
      | inr no_consumer ↦ inl (at_rest-IsOver two no_producer no_consumer)
    ]
  ]

-- From every state that keeps the invariant the threads go on to their end.
pub Inv-Terminates :
    (calls : RingCalls) (Waits : Counts) (ring : IsRing calls Waits) (n rounds sz : ℕ) (s : State)
    → n + 1 < word
    → 2 ≤ sz
    → Inv Waits n rounds sz s
    → Terminates (Step calls n rounds) (IsOver n rounds) (steps_left n rounds) s
Inv-Terminates calls Waits ring n rounds sz s few two v =
    kept-Terminates (Step calls n rounds) (Inv Waits n rounds sz) (IsOver n rounds)
      (steps_left n rounds) (λ t u w st. Step-Inv calls Waits ring n rounds sz few t w u st)
      (λ t w. ends_or-goes calls Waits ring n rounds sz t w two)
      (λ t u w st. Step-effort calls Waits ring n rounds sz t w u st) s v

pub started_effort :
    (b : BoundedBuf) (n rounds : ℕ) → steps_left n rounds (started b) ≡ n * (6 * rounds + 4)
started_effort b n rounds =
    let one = total-all (effort rounds) (3 * rounds + 2) n (λ k. starting) (λ k lt. omega arith) in
    grind (arith, one)
