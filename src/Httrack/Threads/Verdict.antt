-- ===== src/Httrack/Threads/Verdict.antt =====
-- How the client ends: the counting of the workers and the verdict of the last one.
use benchamel.Base.{
  ℕ, ◌+◌, ◌<◌, ◌≡◌, refl, sym, ◌∙◌, Bool, Option, none, some, List, [], ◌∷◌, ◌++◌, arith, length,
  Reach, Reach-inv,
}
use native.Mathlib.Decide.{ℕ_discrete}
use benchamel.Httrack.Buffer.{Allocator}
use benchamel.Httrack.Threads.{
  Shared, finish_worker, Server, Worker, WorkerStep, ServerStep, Client, client_run, client_workers,
  Step,
}

abbrev pub is_over : Worker → ℕ
is_over Worker.finished = 1
is_over _ = 0

abbrev pub over_count : List Worker → ℕ
over_count [] = 0
over_count (w ∷ ws) = is_over w + over_count ws

over_count-middle :
    (before after : List Worker) (w : Worker)
    → over_count (before ++ w ∷ after) ≡ over_count before + is_over w + over_count after
over_count-middle [] after w = omega arith
over_count-middle (b ∷ before) after w =
    let ih = over_count-middle before after w in omega (arith, ih)

length-middle :
    (before after : List Worker) (w : Worker)
    → length (before ++ w ∷ after) ≡ length before + 1 + length after
length-middle [] after w = omega arith
length-middle (b ∷ before) after w = let ih = length-middle before after w in omega (arith, ih)

-- The books are kept: while the client runs, fewer than three workers have ended, and
-- `finished_workers` says how many; the verdict comes with the third, and is `client_failed`.
abbrev pub Verdict : Option Bool → Shared → Type 0
Verdict none s = s.finished_workers < client_workers
Verdict (some v) s = (s.finished_workers ≡ client_workers) × (v ≡ s.client_failed)

pub record IsCounted (c : Client) : Type 0 where
  pub three : length c.workers ≡ client_workers
  pub counted : c.shared.finished_workers ≡ over_count c.workers
  pub verdict : Verdict c.verdict c.shared

WorkerStep-counts :
    {a : Allocator} {pid : ℕ} {w w' : Worker} {s s' : Shared}
    → WorkerStep a pid w s w' s'
    → (is_over w ≡ 0) × (is_over w' ≡ 0) × (s'.finished_workers ≡ s.finished_workers)
WorkerStep-counts (WorkerStep.server_waited x) = (refl, refl, refl)
WorkerStep-counts (WorkerStep.workflow_skipped x) = (refl, refl, refl)
WorkerStep-counts (WorkerStep.workflow_begun x) = (refl, refl, refl)
WorkerStep-counts (WorkerStep.workflow_broken x y z) = (refl, refl, refl)
WorkerStep-counts (WorkerStep.workflow_ended x y z) = (refl, refl, refl)
WorkerStep-counts WorkerStep.workflow_marked = (refl, refl, refl)
WorkerStep-counts WorkerStep.start_notified = (refl, refl, refl)
WorkerStep-counts (WorkerStep.start_missed x y) = (refl, refl, refl)
WorkerStep-counts (WorkerStep.start_seen x y) = (refl, refl, refl)
WorkerStep-counts (WorkerStep.round_begun x y) = (refl, refl, refl)
WorkerStep-counts (WorkerStep.tries_over x) = (refl, refl, refl)
WorkerStep-counts (WorkerStep.round_broken x y z) = (refl, refl, refl)
WorkerStep-counts (WorkerStep.round_ended x y z) = (refl, refl, refl)
WorkerStep-counts WorkerStep.round_marked = (refl, refl, refl)
WorkerStep-counts (WorkerStep.failure_read x) = (refl, refl, refl)

ServerStep-counts :
    {p p' : Server} {s s' : Shared}
    → ServerStep p s p' s'
    → s'.finished_workers ≡ s.finished_workers
ServerStep-counts ServerStep.refused = refl
ServerStep-counts ServerStep.listening = refl
ServerStep-counts (ServerStep.client_served x) = refl
ServerStep-counts ServerStep.accept_failed = refl
ServerStep-counts (ServerStep.stopped x) = refl

finish_worker-Verdict :
    (failed : Bool) (s : Shared)
    → s.finished_workers < client_workers
    → Verdict (finish_worker failed s).1 (finish_worker failed s).0
unfolding finish_worker
finish_worker-Verdict failed s h = elim (ℕ_discrete (s.finished_workers + 1) client_workers) [
  | yes e ↦ ground (arith, e)
  | no ne ↦ ground (arith, ne, h)
]

Step-IsCounted :
    (a : Allocator) (pid : ℕ) (c c' : Client) → Step a pid c c' → IsCounted c → IsCounted c'
unfolding finish_worker
Step-IsCounted a pid c c' (Step.server_moves st) v =
    let e = ServerStep-counts st in
    record { three = v.three; counted = e ∙ v.counted; verdict = omega (arith, v.verdict, e) }
Step-IsCounted a pid c c' (Step.worker_moves {w = w} {w' = w'} before after st) v =
    let (e, e', f) = WorkerStep-counts st in
    let m = over_count-middle before after w in
    let m' = over_count-middle before after w' in
    record {
      three = length-middle before after w' ∙ (sym (length-middle before after w) ∙ v.three);
      counted = omega (arith, v.counted, m, m', e, e', f);
      verdict = omega (arith, v.verdict, f);
    }
Step-IsCounted a pid c c' (Step.worker_ends {s = s} failed before after) v =
    let m = over_count-middle before after (Worker.finishing failed) in
    let m' = over_count-middle before after Worker.finished in
    record {
      three = length-middle before after _ ∙ (sym (length-middle before after _) ∙ v.three);
      counted = omega (arith, v.counted, m, m');
      verdict = finish_worker-Verdict failed s v.verdict;
    }

-- However the threads interleave: as long as the client runs, fewer than its three workers have
-- finished, and `finished_workers` is their number; the client ends when the third has finished, by
-- `abort()` if `client_failed` is set then and by `exit(0)` if it is not.
pub client_run-IsCounted :
    (a : Allocator) (pid : ℕ) (c : Client) → Reach (Step a pid) client_run c → IsCounted c
client_run-IsCounted a pid c r =
    Reach-inv (Step a pid) IsCounted (Step-IsCounted a pid)
      (record { three = refl; counted = refl; verdict = omega arith }) r
