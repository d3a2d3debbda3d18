-- ===== src/Sctbench/BoundedBuffer/Refines.antt =====
-- sctbench/inspect_examples/boundedBuffer.c: the calls as those of a bounded queue of items.
use benchamel.Base.{
  ℕ, ◌+◌, ◌<◌, ◌≡◌, ◌≢◌, refl, arith, Bool, false, not, ◌&&◌, List, [], ◌∷◌, ◌++◌, length, ltb,
  ◌==◌, if◌then◌else◌, inl, inr, Bool-cases,
}
use benchamel.Sctbench.BoundedBuffer.{
  BoundedBuf, Statuses, increment, decrement, Called, refused, waits, returned, bounded_buf_put,
  put_woken, bounded_buf_get, get_woken,
}
use benchamel.Sctbench.BoundedBuffer.Ring.{Holds, stored, stored-Holds, taken-Holds, first-Holds}
use benchamel.Sctbench.BoundedBuffer.Calls.{
  counted-Holds, put_lem, put_woken_lem, get_lem, get_woken_lem,
}

-- A call of a queue of items, which may have to wait.
pub data QueueCall : Type 0 where
  refuses : (status : ℕ) → QueueCall
  blocks : (items : List ℕ) → QueueCall
  ends : (items : List ℕ) (item status : ℕ) → QueueCall

abbrev pub queue_put : ℕ → List ℕ → ℕ → ℕ → QueueCall
queue_put max_size items item status =
    if length items + 1 == max_size then blocks items else ends (items ++ item ∷ []) item status

abbrev pub queue_get : List ℕ → ℕ → QueueCall
queue_get [] status = blocks []
queue_get (item ∷ items) status = ends items item status

abbrev pub Represents : Called → QueueCall → Type 0
Represents (refused status) (refuses other) = status ≡ other
Represents (waits b) (blocks items) = Holds b items
Represents (returned b item signals status) (ends items other status₁) =
    Holds b items × (item ≡ other) × (status ≡ status₁)
Represents r q = ⊥

-- The status of a call of `bounded_buf_get` that takes an item
abbrev pub get_status : Statuses → BoundedBuf → ℕ
get_status c b = if ltb 0 b.p_wait && not (c.signal == 0) then c.signal else c.unlock

pub record IsQueue (c : Statuses) (b : BoundedBuf) (items : List ℕ) : Type 0 where
  pub puts :
      (item : ℕ)
      → c.lock ≡ 0
      → Represents (bounded_buf_put c b item) (queue_put b.max_size items item c.unlock)
  pub puts_woken :
      (item : ℕ) → Represents (put_woken c b item 0) (queue_put b.max_size items item c.unlock)
  pub gets : c.lock ≡ 0 → Represents (bounded_buf_get c b) (queue_get items (get_status c b))
  pub gets_woken : Represents (get_woken c b 0) (queue_get items (get_status c b))
  -- The mutex cannot be taken, or the wait fails.
  pub refuses_put : (item : ℕ) → c.lock ≢ 0 → bounded_buf_put c b item ≡ refused c.lock
  pub refuses_get : c.lock ≢ 0 → bounded_buf_get c b ≡ refused c.lock
  pub fails_put :
      (item status : ℕ)
      → status ≢ 0
      → Represents (put_woken c b item status) (ends items item status)
  pub fails_get :
      (status : ℕ) → status ≢ 0 → Represents (get_woken c b status) (ends items 0 status)

-- A call that stores an item, after its test
module _ (b a d : BoundedBuf) (items : List ℕ) (item status : ℕ) (signals : Bool)
    (v : Holds b items) (w : Holds a items) where
  store_if :
      (length items + 1 < b.max_size → Holds d (items ++ item ∷ []))
      → Represents
          (if length items + 1 == b.max_size then waits a else returned d item signals status)
          (queue_put b.max_size items item status)
  store_if g = elim (Bool-cases (length items + 1 == b.max_size)) [
    | inl e ↦ rw e w
    | inr e ↦
        let free : length items + 1 < b.max_size = ground (arith, e, v.room) in
        rw e (g free, refl, refl)
  ]

module _ (c : Statuses) (b : BoundedBuf) (items : List ℕ) (v : Holds b items) where
  put-queue :
      (item : ℕ)
      → c.lock ≡ 0
      → Represents (bounded_buf_put c b item) (queue_put b.max_size items item c.unlock)
  put-queue item l =
      rw (put_lem c b items v item, l)
        (store_if b (record b { p_wait = increment b.p_wait }) (stored b item) items item c.unlock
          (ltb 0 b.c_wait) v (counted-Holds b items (increment b.p_wait) b.c_wait v)
          (stored-Holds b items item v))

  put_woken-queue :
      (item : ℕ) → Represents (put_woken c b item 0) (queue_put b.max_size items item c.unlock)
  put_woken-queue item = rw (put_woken_lem c b items v item 0) (
      store_if b b (stored (record b { p_wait = decrement b.p_wait }) item) items item c.unlock
        (ltb 0 b.c_wait) v v
        (stored-Holds (record b { p_wait = decrement b.p_wait }) items item
          (counted-Holds b items (decrement b.p_wait) b.c_wait v)))

  fail_put :
      (item status : ℕ)
      → status ≢ 0
      → Represents (put_woken c b item status) (ends items item status)
  fail_put item status ne =
      let e : (status == 0) ≡ false = ground (arith, ne) in
      rw (put_woken_lem c b items v item status, e)
        (counted-Holds b items (decrement b.p_wait) b.c_wait v, refl, refl)

  fail_get : (status : ℕ) → status ≢ 0 → Represents (get_woken c b status) (ends items 0 status)
  fail_get status ne =
      let e : (status == 0) ≡ false = ground (arith, ne) in
      rw (get_woken_lem c b items v status, e)
        (counted-Holds b items b.p_wait (decrement b.c_wait) v, refl, refl)

  refuse_put : (item : ℕ) → c.lock ≢ 0 → bounded_buf_put c b item ≡ refused c.lock
  refuse_put item ne = ground (arith, ne, put_lem c b items v item)

  refuse_get : c.lock ≢ 0 → bounded_buf_get c b ≡ refused c.lock
  refuse_get ne = ground (arith, ne, get_lem c b items v)

get-queue :
    (c : Statuses) (b : BoundedBuf) (items : List ℕ)
    → Holds b items
    → c.lock ≡ 0
    → Represents (bounded_buf_get c b) (queue_get items (get_status c b))
get-queue c b [] v l = rw (get_lem c b [] v, l) (counted-Holds b [] b.p_wait (increment b.c_wait) v)
get-queue c b (x ∷ items) v l =
    let some_ : (length (x ∷ items) == 0) ≡ false = ground arith in
    rw (get_lem c b (x ∷ items) v, l, some_)
      (taken-Holds b items x v, first-Holds b items x v, refl)

get_woken-queue :
    (c : Statuses) (b : BoundedBuf) (items : List ℕ)
    → Holds b items
    → Represents (get_woken c b 0) (queue_get items (get_status c b))
get_woken-queue c b [] v = rw (get_woken_lem c b [] v 0) v
get_woken-queue c b (x ∷ items) v =
    let some_ : (length (x ∷ items) == 0) ≡ false = ground arith in
    rw (get_woken_lem c b (x ∷ items) v 0, some_)
      (
        taken-Holds (record b { c_wait = decrement b.c_wait }) items x
            (counted-Holds b (x ∷ items) b.p_wait (decrement b.c_wait) v),
        first-Holds b items x v,
        refl,
      )

-- On a buffer that holds known items, and whatever the POSIX calls return. If the mutex is locked,
-- a put is a put of a bounded queue, with the status of the unlock, and a get is a get, with the
-- status of the signal if it sends one that fails and of the unlock otherwise: both wait exactly
-- when the queue makes them wait, and move the right item. The same holds when a wait has ended
-- well. If the wait has failed, its status is returned and the items stay; if the lock fails, its
-- status is returned.
pub Holds-IsQueue :
    (c : Statuses) (b : BoundedBuf) (items : List ℕ) → Holds b items → IsQueue c b items
Holds-IsQueue c b items v = record {
  puts = put-queue c b items v;
  puts_woken = put_woken-queue c b items v;
  gets = get-queue c b items v;
  gets_woken = get_woken-queue c b items v;
  refuses_put = refuse_put c b items v;
  refuses_get = refuse_get c b items v;
  fails_put = fail_put c b items v;
  fails_get = fail_get c b items v;
}
