-- ===== src/Sctbench/CircularBuffer.antt =====
-- sctbench/concurrent-software-benchmarks/circular_buffer_ok.c: a buffer that one thread fills and
-- another empties, an element at a time; `n` stands for N. Each thread takes the mutex for a whole
-- round of its loop, so that a round is one step. The elements are numbers below 128, which a
-- `char` holds.
pub mod Laws
use benchamel.Base.{
  ℕ, ◌+◌, ◌%◌, ◌<◌, ◌≡◌, Bool, true, false, Option, none, some, List, get_or, set, replicate, ltb,
  ◌==◌, ◌&&◌, if◌then◌else◌,
}

abbrev pub buffer_max : ℕ
buffer_max = 10

pub record Log : Type 0 where
  pub buffer : List ℕ
  pub first : ℕ
  pub next : ℕ
  pub buffer_size : ℕ

abbrev pub init_log : Log → ℕ → Log
init_log l max = record l { first = 0; next = 0; buffer_size = max }

-- ERROR is `none`.
unfoldable pub remove_log_element : Log → Log × Option ℕ
remove_log_element l =
    if ltb 0 l.next && ltb l.first l.buffer_size
    then (record l { first = l.first + 1 }, some (get_or l.buffer l.first 0))
    else (l, none)

-- The last part tells whether the assertion in the function holds.
unfoldable pub insert_log_element : Log → ℕ → Log × Option ℕ × Bool
insert_log_element l b =
    if ltb l.next l.buffer_size && ltb 0 l.buffer_size
    then (
      record l { buffer = set l.buffer l.next b; next = (l.next + 1) % l.buffer_size },
      some b,
      ltb ((l.next + 1) % l.buffer_size) l.buffer_size,
    )
    else (l, none, true)

abbrev pub is_value : Option ℕ → ℕ → Bool
is_value none value = false
is_value (some x) value = x == value

pub record State : Type 0 where
  pub log : Log
  pub send : Bool
  pub receive : Bool
  pub value : ℕ
  pub i1 : ℕ  -- the rounds that t1 has done
  pub i2 : ℕ
  pub asserted : Bool  -- no assertion has failed

abbrev pub main : State
main = record {
  log =
      init_log (record { buffer = replicate buffer_max 0; first = 0; next = 0; buffer_size = 0 })
        10;
  send = true;
  receive = false;
  value = 0;
  i1 = 0;
  i2 = 0;
  asserted = true;
}

unfoldable pub send_one : State → State
send_one s =
    let (log, result, in_bounds) = insert_log_element s.log s.i1 in
    record s {
      log = log;
      asserted = in_bounds && is_value result s.i1;
      value = s.i1;
      send = false;
      receive = true;
    }

unfoldable pub receive_one : State → State
receive_one s =
    let (log, result) = remove_log_element s.log in
    record s { log = log; asserted = is_value result s.value; receive = false; send = true }

pub data Step (n : ℕ) (s : State) : State → Type 0 where
  t1 :
      s.i1 < n
      → s.asserted ≡ true
      → Step n s (record (if s.send then send_one s else s) { i1 = s.i1 + 1 })
  t2 :
      s.i2 < n
      → s.asserted ≡ true
      → Step n s (record (if s.receive then receive_one s else s) { i2 = s.i2 + 1 })
