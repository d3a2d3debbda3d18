-- ===== src/Httrack/Threads/Session.antt =====
-- What the cancel workers know: the session of the workflow, or that the client has failed.
use benchamel.Base.{
  ℕ, ◌≡◌, ◌≢◌, refl, Bool, true, false, List, [], ◌∷◌, ◌++◌, Bytes, arith, ◌||◌, All, Bool-cases,
  inl, inr, Reach, Reach-inv,
}
use benchamel.Httrack.Buffer.{Allocator}
use benchamel.Httrack.Workflow.Started.{success-Started}
use benchamel.Httrack.Threads.{
  Shared, finish_worker, wait_for_start_request, copy_sid, Server, Worker, WorkerStep, ServerStep,
  Client, client_run, Step,
}

-- What a worker's position promises about the shared state.
abbrev pub Knows : Shared → Worker → Type 0
Knows s (Worker.workflow_done sid) = sid ≢ []
Knows s (Worker.finishing true) = s.client_failed ≡ true
Knows s _ = Unit

abbrev pub Notified : Shared → Type 0
Notified s = s.start_request_ready ≡ true → s.start_request_sid ≢ []

-- the failure flag is never taken back
abbrev pub Later : Shared → Shared → Type 0
Later s s' = s.client_failed ≡ true → s'.client_failed ≡ true

pub record IsInformed (c : Client) : Type 0 where
  pub notified : Notified c.shared
  pub knows : All (Knows c.shared) c.workers

Knows-Later : (s s' : Shared) (w : Worker) → Later s s' → Knows s w → Knows s' w
Knows-Later s s' (Worker.finishing true) h k = h k
Knows-Later s s' (Worker.finishing false) h k = tt
Knows-Later s s' (Worker.workflow_done sid) h k = k
Knows-Later s s' Worker.awaiting_server h k = tt
Knows-Later s s' Worker.server_known h k = tt
Knows-Later s s' Worker.in_workflow h k = tt
Knows-Later s s' Worker.workflow_failed h k = tt
Knows-Later s s' Worker.awaiting_start h k = tt
Knows-Later s s' (Worker.cancelling i sid) h k = tt
Knows-Later s s' (Worker.in_round i sid) h k = tt
Knows-Later s s' Worker.round_failed h k = tt
Knows-Later s s' Worker.leaving h k = tt
Knows-Later s s' Worker.finished h k = tt

All-Later : (s s' : Shared) (ws : List Worker) → Later s s' → All (Knows s) ws → All (Knows s') ws
All-Later s s' [] h k = tt
All-Later s s' (w ∷ ws) h k = (Knows-Later s s' w h k.0, All-Later s s' ws h k.1)

-- The worker in the middle moves, and the flag may have been set.
All-middle :
    (s s' : Shared) (before after : List Worker) (w w' : Worker)
    → Later s s'
    → (Knows s w → Knows s' w')
    → All (Knows s) (before ++ w ∷ after)
    → All (Knows s') (before ++ w' ∷ after)
All-middle s s' [] after w w' h m k = (m k.0, All-Later s s' after h k.1)
All-middle s s' (b ∷ before) after w w' h m k =
    (Knows-Later s s' b h k.0, All-middle s s' before after w w' h m k.1)

copy_sid_nonempty : (sid : Bytes) → sid ≢ [] → copy_sid sid ≢ []
copy_sid_nonempty [] h = λ e. h refl
copy_sid_nonempty (c ∷ cs) h = λ e. cc e

start_missed_failed :
    (s : Shared)
    → Notified s
    → (s.start_request_ready || s.client_failed) ≡ true
    → wait_for_start_request s ≡ []
    → s.client_failed ≡ true
start_missed_failed s n h e = elim (Bool-cases s.start_request_ready) [
  | inl ready ↦ absurd (copy_sid_nonempty s.start_request_sid (n ready) (rw ready at e))
  | inr early ↦ ground (arith, h, early)
]

WorkerStep-informs :
    {a : Allocator} {pid : ℕ} {w w' : Worker} {s s' : Shared}
    → WorkerStep a pid w s w' s'
    → Notified s
    → Knows s w
    → Later s s' × Notified s' × Knows s' w'
WorkerStep-informs (WorkerStep.server_waited x) n k = (λ e. e, n, tt)
WorkerStep-informs (WorkerStep.workflow_skipped x) n k = (λ e. e, n, tt)
WorkerStep-informs (WorkerStep.workflow_begun x) n k = (λ e. e, n, tt)
WorkerStep-informs (WorkerStep.workflow_broken net net' x) n k = (λ e. e, n, tt)
WorkerStep-informs {a = a} {pid = pid} (WorkerStep.workflow_ended net net' {sid = sid} x) n k =
    (λ e. e, n, (success-Started a pid net net' sid x).has_sid)
WorkerStep-informs WorkerStep.workflow_marked n k = (λ e. refl, n, tt)
WorkerStep-informs (WorkerStep.start_notified {sid = sid}) n k =
    (λ e. e, λ e. copy_sid_nonempty sid k, tt)
WorkerStep-informs (WorkerStep.start_missed {s = s} x y) n k =
    (λ e. e, n, start_missed_failed s n x y)
WorkerStep-informs (WorkerStep.start_seen x y) n k = (λ e. e, n, tt)
WorkerStep-informs (WorkerStep.round_begun x y) n k = (λ e. e, n, tt)
WorkerStep-informs (WorkerStep.tries_over x) n k = (λ e. e, n, tt)
WorkerStep-informs (WorkerStep.round_broken net net' x) n k = (λ e. e, n, tt)
WorkerStep-informs (WorkerStep.round_ended net net' x) n k = (λ e. e, n, tt)
WorkerStep-informs WorkerStep.round_marked n k = (λ e. refl, n, tt)
WorkerStep-informs (WorkerStep.failure_read {failed = true} x) n k = (λ e. e, n, x)
WorkerStep-informs (WorkerStep.failure_read {failed = false} x) n k = (λ e. e, n, tt)

ServerStep-informs :
    {p p' : Server} {s s' : Shared} → ServerStep p s p' s' → Notified s → Later s s' × Notified s'
ServerStep-informs ServerStep.refused n = (λ e. refl, n)
ServerStep-informs ServerStep.listening n = (λ e. e, n)
ServerStep-informs (ServerStep.client_served x) n = (λ e. e, n)
ServerStep-informs ServerStep.accept_failed n = (λ e. refl, n)
ServerStep-informs (ServerStep.stopped x) n = (λ e. e, n)

middle :
    (s : Shared) (before after : List Worker) (w : Worker)
    → All (Knows s) (before ++ w ∷ after)
    → Knows s w
middle s [] after w k = k.0
middle s (b ∷ before) after w k = middle s before after w k.1

finish_worker-Later : (failed : Bool) (s : Shared) → Later s (finish_worker failed s).0
unfolding finish_worker
finish_worker-Later true s e = refl
finish_worker-Later false s e = e

Step-IsInformed :
    (a : Allocator) (pid : ℕ) (c c' : Client) → Step a pid c c' → IsInformed c → IsInformed c'
unfolding finish_worker
Step-IsInformed a pid c c' (Step.server_moves {s = s} {s' = s'} {ws = ws} st) v =
    let (l, n) = ServerStep-informs st v.notified in
    record { notified = n; knows = All-Later s s' ws l v.knows }
Step-IsInformed a pid c c' (Step.worker_moves {s = s} {s' = s'} {w = w} {w' = w'} before after st)
      v =
    let (l, n, k) = WorkerStep-informs st v.notified (middle s before after w v.knows) in
    record { notified = n; knows = All-middle s s' before after w w' l (λ x. k) v.knows }
Step-IsInformed a pid c c' (Step.worker_ends {s = s} failed before after) v = record {
  notified = v.notified;
  knows =
      All-middle s (finish_worker failed s).0 before after _ _ (finish_worker-Later failed s)
        (λ x. tt) v.knows;
}

-- However the threads interleave: a start request that has been announced has a session id that is
-- not empty, and a worker that is about to finish with `failed` set, the cancel worker that has
-- waited in vain among them, does so only when the failure of the client is on record.
pub client_run-IsInformed :
    (a : Allocator) (pid : ℕ) (c : Client) → Reach (Step a pid) client_run c → IsInformed c
client_run-IsInformed a pid c r =
    Reach-inv (Step a pid) IsInformed (Step-IsInformed a pid)
      (record { notified = λ e. cc e; knows = (tt, (tt, (tt, tt))) }) r
