-- ===== src/BufRing/Driver/Schedule.antt =====
-- buf_ring/test.c: running its threads in a given order.
use benchamel.Base.{ℕ, zero, suc, none, some, Reach, here, next}
use benchamel.BufRing.{Fixes, Ring}
use benchamel.BufRing.Schedule.{advance}
use benchamel.BufRing.Driver.{State, Step, move, main}

pub record Driven (f : Fixes) (n loops : ℕ) (br : Ring) : Type 0 where
  pub last : State
  pub reach : Reach (Step f n loops) (main br) last

abbrev pub started : (f : Fixes) (n loops : ℕ) (br : Ring) → Driven f n loops br
started f n loops br = record { last = main br; reach = here }

abbrev pub followed :
    {f : Fixes} {n loops : ℕ} {br : Ring} (r : Driven f n loops br) {t : State}
    → Step f n loops r.last t
    → Driven f n loops br
followed r st = record { last = _; reach = next r.reach st }

-- So many steps of one thread in a call, unless it has to wait.
abbrev pub go_on :
    {f : Fixes} {n loops : ℕ} {br : Ring} → ℕ → Driven f n loops br → ℕ → Driven f n loops br
unfolding advance
go_on zero r i = r
go_on {f} (suc k) r i = elim (advance f r.last.system.mem (r.last.system.pc i)) [
  | some (m', p', mv) ↦ go_on k (followed r (move i mv)) i
  | none ↦ r
]
