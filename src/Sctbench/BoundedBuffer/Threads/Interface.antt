-- ===== src/Sctbench/BoundedBuffer/Threads/Interface.antt =====
-- sctbench/inspect_examples/boundedBuffer.c, bbuf.c: what the threads rely on when they call a ring.
use benchamel.Base.{
  ℕ, ◌+◌, ◌<◌, ◌≡◌, ◌≢◌, Bool, Option, some, List, ◌∷◌, ◌++◌, [], ◌⊎◌, inl, inr, refl, ap, true,
  false, if◌then◌else◌, length,
}
use benchamel.Sctbench.BoundedBuffer.{word, BoundedBuf, Called, waits, returned}
use benchamel.Sctbench.BoundedBuffer.Ring.{Holds}
use benchamel.Sctbench.BoundedBuffer.Threads.{
  Place, calling, asleep, awake, in_wait, RingCalls, producer_routine, consumer_routine,
}
use benchamel.Sctbench.BoundedBuffer.Threads.Crowd.{stirs}

-- A thread that gets the mutex waits, or its call returns 0.
abbrev pub Goes : Option Called → Type 0
Goes r =
    ((c : BoundedBuf) × (r ≡ some (waits c)))
    ⊎ ((c : BoundedBuf) × (x : ℕ) × (signals : Bool) × (r ≡ some (returned c x signals 0)))

pub Goes-if :
    (test : Bool) (a c : BoundedBuf) (x status : ℕ) (signals : Bool)
    → status ≡ 0
    → Goes (some (if test then waits a else returned c x signals status))
Goes-if true a c x status signals e = inl (a, refl)
Goes-if false a c x status signals e =
    inr (c, x, signals, ap (λ k. some (returned c x signals k)) e)

pub put_up :
    (calls : RingCalls) (at : Place) (b : BoundedBuf) (item : ℕ) (r : Called)
    → producer_routine calls at b item ≡ some r
    → at ≢ asleep
put_up calls calling b item r e = λ q. cc q
put_up calls asleep b item r e = cc e
put_up calls awake b item r e = λ q. cc q

pub get_up :
    (calls : RingCalls) (at : Place) (b : BoundedBuf) (r : Called)
    → consumer_routine calls at b ≡ some r
    → at ≢ asleep
get_up calls calling b r e = λ q. cc q
get_up calls asleep b r e = cc e
get_up calls awake b r e = λ q. cc q

-- What a buffer keeps about the producers and the consumers in a wait, of which there are so many.
abbrev pub Counts : Type 1
Counts = BoundedBuf → (producers consumers : ℕ) → Type 0

-- The calls of a queue of fewer items than the buffer has cells. A call that does not signal knows
-- that no thread of the other side waits.
pub record IsRing (calls : RingCalls) (Waits : Counts) : Type 0 where
  pub put_goes :
      (b : BoundedBuf) (l : List ℕ) (at : Place)
      → Holds b l
      → in_wait at ≡ false
      → Goes (producer_routine calls at b 0)
  pub get_goes :
      (b : BoundedBuf) (l : List ℕ) (at : Place)
      → Holds b l
      → in_wait at ≡ false
      → Goes (consumer_routine calls at b)
  pub put_waits :
      (b c : BoundedBuf) (l : List ℕ) (p p₁ q item : ℕ) (at : Place)
      → Holds b l
      → Waits b p q
      → p + 1 < word
      → p₁ + stirs at ≡ p + 1
      → producer_routine calls at b item ≡ some (waits c)
      → (length l + 1 ≡ b.max_size) × (c.max_size ≡ b.max_size) × Holds c l × Waits c p₁ q
  pub put_returns :
      (b c : BoundedBuf) (l : List ℕ) (p p₁ q item x : ℕ) (signals : Bool) (at : Place)
      → Holds b l
      → Waits b p q
      → p + 1 < word
      → p₁ + stirs at ≡ p
      → producer_routine calls at b item ≡ some (returned c x signals 0)
      → (c.max_size ≡ b.max_size) × Holds c (l ++ x ∷ []) × Waits c p₁ q × (signals ≡ false → q ≡ 0)
  pub get_waits :
      (b c : BoundedBuf) (l : List ℕ) (p q q₁ : ℕ) (at : Place)
      → Holds b l
      → Waits b p q
      → q + 1 < word
      → q₁ + stirs at ≡ q + 1
      → consumer_routine calls at b ≡ some (waits c)
      → (length l ≡ 0) × (c.max_size ≡ b.max_size) × Holds c l × Waits c p q₁
  pub get_returns :
      (b c : BoundedBuf) (l : List ℕ) (p q q₁ x : ℕ) (signals : Bool) (at : Place)
      → Holds b l
      → Waits b p q
      → q + 1 < word
      → q₁ + stirs at ≡ q
      → consumer_routine calls at b ≡ some (returned c x signals 0)
      → (rest : List ℕ) × (l ≡ x ∷ rest)
        × (c.max_size ≡ b.max_size)
        × Holds c rest
        × Waits c p q₁
        × (signals ≡ false → p ≡ 0)
