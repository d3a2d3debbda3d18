-- ===== src/BufRing/Driver.antt =====
-- buf_ring/test.c: threads that send their messages through the ring and count what they receive.
-- `n` stands for NTHREADS and `loops` for LOOPS. A pointer into the ring stands for the message in
-- its buffer, which is written before the call that enqueues it and read after the one that
-- dequeues it. `malloc` never gives a buffer again here: `free` is left out.
pub mod Invariant
pub mod Tracks
pub mod Laws
pub mod Schedule
use benchamel.Base.{
  ℕ, ◌+◌, ◌*◌, ◌<◌, ◌≡◌, Bool, true, false, Option, none, some, ◌==◌, if◌then◌else◌,
}
use benchamel.BufRing.{Fixes, Ring}
use benchamel.BufRing.Threads.{
  update, Pc, idle, enq, enqueued, deq, dequeued, Move, System, init, note_claim, count_claim,
  note_load,
}

pub record State : Type 0 where
  pub system : System
  pub round : ℕ → ℕ  -- the `i` of each thread
  pub consumed : ℕ → ℕ

abbrev pub message : ℕ → ℕ → ℕ → ℕ
message n r tid = r * n + tid

abbrev pub called : System → ℕ → Pc → System
called s i p = record s { pc = update s.pc i p }

abbrev pub moved : System → ℕ → Ring → Pc → System
moved s i m p = record {
  mem = m;
  pc = update s.pc i p;
  log = note_claim s.log s.claims p;
  claims = count_claim s.claims p;
  taken = note_load s.taken p;
}

pub data Step (f : Fixes) (n loops : ℕ) (s : State) : State → Type 0 where
  send_first :
      (tid : ℕ)
      → tid < n
      → 0 < loops
      → s.system.pc tid ≡ idle
      → Step f n loops s (record s {
        system = called s.system tid (enq (message n 0 tid));
        round = update s.round tid 0;
      })
  send_next :
      (tid : ℕ)
      → s.round tid + 1 < loops
      → s.system.pc tid ≡ dequeued none
      → Step f n loops s (record s {
        system = called s.system tid (enq (message n (s.round tid + 1) tid));
        round = update s.round tid (s.round tid + 1);
      })
  drain :
      (tid : ℕ) {success : Bool}
      → s.system.pc tid ≡ enqueued success
      → Step f n loops s (record s { system = called s.system tid deq })
  consume :
      (tid : ℕ) {buf : ℕ}
      → s.system.pc tid ≡ dequeued (some buf)
      → Step f n loops s (record s {
        system = called s.system tid deq;
        consumed = update s.consumed buf (s.consumed buf + 1);
      })
  move :
      (tid : ℕ) {m : Ring} {p : Pc}
      → Move f s.system.mem (s.system.pc tid) m p
      → Step f n loops s (record s { system = moved s.system tid m p })

abbrev pub main : Ring → State
main br = record { system = init br; round = λ i. 0; consumed = λ b. 0 }
