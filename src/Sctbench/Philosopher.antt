-- ===== src/Sctbench/Philosopher.antt =====
-- sctbench/inspect_examples/philosopher.c: the forks. What the calls of the POSIX threads return is
-- an argument. An `int` is its pattern of 32 bits.
pub mod Forks
pub mod Table
mod Tests
use benchamel.Base.{
  ℕ, ◌+◌, ◌-◌, ◌%◌, ◌≡◌, Bool, true, false, not, ◌&&◌, ◌||◌, ltb, ◌==◌, if◌then◌else◌,
}

-- 0xABDADA
abbrev pub fork_valid : ℕ
fork_valid = 11262682

abbrev pub einval : ℕ
einval = 22

abbrev pub ebusy : ℕ
ebusy = 16

pub record Fork : Type 0 where
  pub valid : ℕ
  pub being_used : ℕ
  pub waiting : ℕ

-- `n > 0` of an `int`
abbrev pub is_positive : ℕ → Bool
is_positive n = ltb 0 n && ltb n 2147483648

abbrev pub int_plus : ℕ → ℕ
int_plus n = (n + 1) % 4294967296

abbrev pub int_minus : ℕ → ℕ
int_minus n = (n + 4294967295) % 4294967296

-- What the calls return.
pub record ForkStatuses : Type 0 where
  pub init_mutex : ℕ
  pub init_cond : ℕ
  pub lock : ℕ
  pub unlock : ℕ
  pub signal : ℕ
  pub destroy_mutex : ℕ
  pub destroy_cond : ℕ

abbrev pub first_failure : ℕ → ℕ → ℕ
first_failure status status₁ = if status == 0 then status₁ else status

unfoldable pub fork_init : ForkStatuses → Fork → Fork × ℕ
fork_init c f =
    if not (c.init_mutex == 0)
    then (record f { valid = fork_valid }, c.init_mutex)
    else if not (c.init_cond == 0)
    then (record f { valid = fork_valid }, c.init_cond)
    else (record { valid = fork_valid; being_used = 0; waiting = 0 }, 0)

unfoldable pub fork_destroy : ForkStatuses → Fork → Fork × ℕ
fork_destroy c f =
    if not (f.valid == fork_valid)
    then (f, einval)
    else if not (c.lock == 0)
    then (f, c.lock)
    else if is_positive f.being_used || is_positive f.waiting
    then (f, if c.unlock == 0 then ebusy else c.unlock)
    else if not (c.unlock == 0)
    then (record f { valid = 0 }, c.unlock)
    else (record f { valid = 0 }, first_failure c.destroy_mutex c.destroy_cond)

-- Where a call on a fork leads before it is back or waits.
pub data ForkCall : Type 0 where
  refused : (status : ℕ) → ForkCall
  waits : Fork → ForkCall  -- in pthread_cond_wait, which releases the mutex
  returned : Fork → (signals : Bool) (status : ℕ) → ForkCall

-- `fork_get` after its wait, if any, has ended with this status
unfoldable pub get_finish : ForkStatuses → Fork → ℕ → ForkCall
get_finish c f status =
    returned (if status == 0 then record f { being_used = 1 } else f) false
      (first_failure status c.unlock)

unfoldable pub fork_get : ForkStatuses → Fork → ForkCall
fork_get c f =
    if not (f.valid == fork_valid)
    then refused einval
    else if not (c.lock == 0)
    then refused c.lock
    else if is_positive f.being_used
    then waits (record f { waiting = int_plus f.waiting })
    else get_finish c f 0

-- The same call when pthread_cond_wait has returned
unfoldable pub fork_woken : ForkStatuses → Fork → ℕ → ForkCall
fork_woken c f status =
    if (status == 0) && is_positive f.being_used
    then waits f
    else get_finish c (record f { waiting = int_minus f.waiting }) status

unfoldable pub fork_putdown : ForkStatuses → Fork → ForkCall
fork_putdown c f =
    if not (f.valid == fork_valid)
    then refused einval
    else if not (c.lock == 0)
    then refused c.lock
    else returned (record f { being_used = 0 }) (is_positive f.waiting)
        (first_failure (if is_positive f.waiting then c.signal else 0) c.unlock)
