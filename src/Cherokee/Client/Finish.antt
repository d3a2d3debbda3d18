-- ===== src/Cherokee/Client/Finish.antt =====
-- How the Cherokee clients end: who reads the access log, and what the exit status says.
use benchamel.Base.{
  ℕ, ◌+◌, ◌≡◌, refl, ◌∙◌, Bool, false, Option, none, some, Bytes, arith, ◌==◌, Bool-cases, inl, inr,
  Reach, Reach-inv,
}
use benchamel.Cherokee.Client.{
  Shared, Worker, Client, client_run, client_threads, counted, read_log, Step,
}
use benchamel.Cherokee.Client.Early.{
  is_past, past_count-middle, Knows, Says, IsSound, WorkerStep-Early, All-early_middle, All-replace,
  middle, length-middle, early_bound,
}

counted-Knows : (s : Shared) (n : ℕ) → s.finished_workers ≡ n → Knows s (counted n)
counted-Knows s n e = elim (Bool-cases (n == client_threads)) [
  | inl last ↦ rw last (ground (arith, e, last))
  | inr ne ↦ rw ne tt
]

is_past-counted : (n : ℕ) → is_past (counted n) ≡ 1
is_past-counted n = elim (Bool-cases (n == client_threads)) [
  | inl last ↦ rw last refl
  | inr ne ↦ rw ne refl
]

read_log-Says :
    (corrupt : Bytes → Bool) (s : Shared) (log : Option Bytes)
    → (s.finished_workers ≡ client_threads) × (s.client_failed ≡ false)
    → Says corrupt s (read_log corrupt log)
read_log-Says corrupt s none h = h
read_log-Says corrupt s (some log) h = elim (Bool-cases (corrupt log)) [
  | inl bad ↦ rw bad (h.0, h.1, bad)
  | inr good ↦ rw good (h.0, h.1, good)
]

Step-IsSound :
    (requests : ℕ → Bytes) (corrupt : Bytes → Bool) (c c' : Client)
    → Step requests corrupt c c'
    → IsSound corrupt c
    → IsSound corrupt c'
Step-IsSound requests corrupt c c'
      (Step.worker_moves {s = s} {s' = s'} {w = w} {w' = w'} before after st) v =
    let e = WorkerStep-Early st in
    record {
      two = length-middle before after w w' ∙ v.two;
      counts = omega (
        arith,
        v.counts,
        e.from,
        e.to,
        e.same,
        past_count-middle before after w,
        past_count-middle before after w',
      );
      knows =
          All-early_middle s s' before after w w'
            (early_bound _ before after w e.from v.two v.counts) e.knows v.knows;
      says = tt;
    }
Step-IsSound requests corrupt c c' (Step.worker_counts {s = s} before after) v =
    let n = s.finished_workers + 1 in
    let s' = record s { finished_workers = n } in
    record {
      two = length-middle before after Worker.counting (counted n) ∙ v.two;
      counts = omega (
        arith,
        v.counts,
        is_past-counted n,
        past_count-middle before after Worker.counting,
        past_count-middle before after (counted n),
      );
      knows =
          All-early_middle s s' before after Worker.counting (counted n)
            (early_bound _ before after Worker.counting refl v.two v.counts)
            (counted-Knows s' n refl) v.knows;
      says = tt;
    }
Step-IsSound requests corrupt c c' (Step.failure_judged {s = s} before after failed) v = record {
  two = length-middle before after Worker.judging Worker.over ∙ v.two;
  counts = omega (
    arith,
    v.counts,
    past_count-middle before after Worker.judging,
    past_count-middle before after Worker.over,
  );
  knows = All-replace s before after Worker.judging Worker.over tt v.knows;
  says = (middle s before after Worker.judging v.knows, failed);
}
Step-IsSound requests corrupt c c' (Step.success_judged {s = s} before after fine) v = record {
  two = length-middle before after Worker.judging Worker.reading_log ∙ v.two;
  counts = omega (
    arith,
    v.counts,
    past_count-middle before after Worker.judging,
    past_count-middle before after Worker.reading_log,
  );
  knows =
      All-replace s before after Worker.judging Worker.reading_log
        (middle s before after Worker.judging v.knows, fine) v.knows;
  says = tt;
}
Step-IsSound requests corrupt c c' (Step.log_judged {s = s} log before after) v = record {
  two = length-middle before after Worker.reading_log Worker.over ∙ v.two;
  counts = omega (
    arith,
    v.counts,
    past_count-middle before after Worker.reading_log,
    past_count-middle before after Worker.over,
  );
  knows = All-replace s before after Worker.reading_log Worker.over tt v.knows;
  says = read_log-Says corrupt s log (middle s before after Worker.reading_log v.knows);
}

-- However the two workers interleave: the process exits with 0 only when both have counted
-- themselves, none has failed and the access log then read is clean; it aborts for corruption only
-- when that log is corrupt, and for a log that cannot be opened, both only when none has failed; and
-- otherwise it aborts only when one has failed.
pub client_run-IsSound :
    (requests : ℕ → Bytes) (corrupt : Bytes → Bool) (c : Client)
    → Reach (Step requests corrupt) client_run c
    → IsSound corrupt c
client_run-IsSound requests corrupt c r =
    Reach-inv (Step requests corrupt) (IsSound corrupt) (Step-IsSound requests corrupt)
      (record { two = refl; counts = refl; knows = (tt, (tt, tt)); says = tt }) r
