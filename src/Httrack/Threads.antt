-- ===== src/Httrack/Threads.antt =====
-- concurrency-bugs/httrack-3.43.9/httrack-client.c: the state that the client's threads share under
-- `state_mu`, and the threads.
-- Each step of a thread takes the mutex once, so that a step is atomic. A wait is the step that
-- it can take when its condition holds. The asset server, the controller and the cancel workers
-- run interleaved; the process ends where `finish_worker` ends it, and an allocation that is
-- refused, which aborts, is no step.
pub mod Verdict
pub mod Session
use benchamel.Base.{
  ℕ, zero, suc, ◌+◌, ◌-◌, ◌/◌, ◌<◌, ◌≡◌, Bool, true, false, not, ◌&&◌, ◌||◌, Option, none, some,
  List, [], ◌∷◌, ◌++◌, Bytes, codes, take, ltb, ◌==◌, if◌then◌else◌, Reach,
}
use benchamel.Base.Outcome
use benchamel.Base.Outcome.{Outcome, returns}
use benchamel.Libc.{c_str}
use benchamel.Httrack.Buffer.{Allocator, Buf}
use benchamel.Httrack.Forms.{build_cancel_body, build_cancel_file_body}
use benchamel.Httrack.Scan.{extract_input_value, extract_cancel_file_command}
use benchamel.Httrack.Transport.{Network}
use benchamel.Httrack.Http.{http_request}
use benchamel.Httrack.Workflow.{run_start_workflow}

abbrev pub client_workers : ℕ
client_workers = 3

abbrev pub cancel_tries : ℕ
cancel_tries = 128

pub record Shared : Type 0 where
  pub client_failed : Bool
  pub finished_workers : ℕ
  pub asset_server_ready : Bool
  pub start_request_ready : Bool
  pub start_request_sid : Bytes

abbrev pub mark_failed : Shared → Shared
mark_failed s = record s { client_failed = true }

-- The verdict of the last worker: `true` is `abort()` and `false` is `exit(0)`.
unfoldable pub finish_worker : Bool → Shared → Shared × Option Bool
finish_worker failed s =
    let failed' = failed || s.client_failed in
    let n = s.finished_workers + 1 in
    (
      record s { client_failed = failed'; finished_workers = n },
      if n == client_workers then some failed' else none,
    )

-- `strncpy(dst, src, 127); dst[127] = '\0';`
abbrev pub copy_sid : Bytes → Bytes
copy_sid sid = take 127 sid

abbrev pub notify_start_request : Bytes → Shared → Shared
notify_start_request sid s = record s {
  start_request_sid = copy_sid sid;
  start_request_ready = true;
}

-- The result of `wait_for_start_request` once its wait is over.
abbrev pub wait_for_start_request : Shared → Bytes
wait_for_start_request s = if s.start_request_ready then copy_sid s.start_request_sid else []

-- One round of the loop of `cancel_worker`: the session id to go on with, or `none` for
-- `mark_failed` and `break`.
abbrev pub next_sid : Bytes → Option Bytes → Bytes
next_sid sid none = sid
next_sid sid (some []) = sid
next_sid sid (some (c ∷ cs)) = copy_sid (c ∷ cs)

abbrev pub replied : Bytes → Option Bytes × Network → Option Bytes × Network
replied sid (none, net) = (none, net)
replied sid (some r, net) = (some sid, net)

abbrev pub post_cancel :
    Allocator → Bytes → Network → Outcome Buf → Outcome (Option Bytes × Network)
post_cancel a sid net build = Outcome.◌>>=◌ build (λ body.
    Outcome.◌>>=◌
      (http_request a net (codes "POST") (codes "/server/step4.html") (some (c_str body.mem)))
      (λ r. returns (replied sid r)))

abbrev pub cancel_or_not :
    Allocator → ℕ → Bytes → Option Bytes → Network → Outcome (Option Bytes × Network)
cancel_or_not a i sid (some (c ∷ cs)) net =
    post_cancel a sid net (build_cancel_file_body a sid (c ∷ cs))
cancel_or_not a i sid _ net =
    if ltb (cancel_tries / 2) i
    then post_cancel a sid net (build_cancel_body a sid)
    else returns (some sid, net)

abbrev pub refreshed :
    Allocator → ℕ → Bytes → Option Bytes × Network → Outcome (Option Bytes × Network)
refreshed a i sid (none, net) = returns (none, net)
refreshed a i sid (some refresh, net) =
    Outcome.◌>>=◌ (extract_input_value a refresh (codes "sid")) (λ refresh_sid.
      Outcome.◌>>=◌ (extract_cancel_file_command a refresh)
        (λ cancel_command. cancel_or_not a i (next_sid sid refresh_sid) cancel_command net))

pub cancel_round : Allocator → ℕ → Bytes → Network → Outcome (Option Bytes × Network)
cancel_round a i sid net =
    Outcome.◌>>=◌ (http_request a net (codes "GET") (codes "/server/refresh.html") none)
      (refreshed a i sid)

-- Where each thread is.
pub data Server : Type 0 where
  starting serving server_over : Server

pub data Worker : Type 0 where
  awaiting_server : Worker  -- controller_worker, in wait_for_asset_server
  server_known : Worker  -- before its first is_client_failed
  in_workflow : Worker
  workflow_failed : Worker  -- before mark_failed
  workflow_done : Bytes → Worker  -- before notify_start_request
  awaiting_start : Worker  -- cancel_worker, in wait_for_start_request
  cancelling : ℕ → Bytes → Worker  -- at the test of the loop
  in_round : ℕ → Bytes → Worker
  round_failed : Worker
  leaving : Worker  -- before the is_client_failed that finish_worker is given
  finishing : Bool → Worker
  finished : Worker

-- asset_server_thread
pub data ServerStep : Server → Shared → Server → Shared → Type 0 where
  refused : {s : Shared} → ServerStep starting s server_over (mark_failed s)
  listening : {s : Shared} → ServerStep starting s serving (record s { asset_server_ready = true })
  client_served : {s : Shared} → s.client_failed ≡ false → ServerStep serving s serving s
  accept_failed : {s : Shared} → ServerStep serving s server_over (mark_failed s)
  stopped : {s : Shared} → s.client_failed ≡ true → ServerStep serving s server_over s

-- controller_worker and cancel_worker, up to `finish_worker`
pub data WorkerStep (a : Allocator) (pid : ℕ) : Worker → Shared → Worker → Shared → Type 0 where
  server_waited :
      {s : Shared}
      → (s.asset_server_ready || s.client_failed) ≡ true
      → WorkerStep a pid awaiting_server s server_known s
  workflow_skipped :
      {s : Shared} → s.client_failed ≡ true → WorkerStep a pid server_known s leaving s
  workflow_begun :
      {s : Shared} → s.client_failed ≡ false → WorkerStep a pid server_known s in_workflow s
  workflow_broken :
      {s : Shared} (net net' : Network)
      → run_start_workflow a pid net ≡ returns (none, net')
      → WorkerStep a pid in_workflow s workflow_failed s
  workflow_ended :
      {s : Shared} (net net' : Network) {sid : Bytes}
      → run_start_workflow a pid net ≡ returns (some sid, net')
      → WorkerStep a pid in_workflow s (workflow_done sid) s
  workflow_marked : {s : Shared} → WorkerStep a pid workflow_failed s leaving (mark_failed s)
  start_notified :
      {s : Shared} {sid : Bytes}
      → WorkerStep a pid (workflow_done sid) s leaving (notify_start_request sid s)
  start_missed :
      {s : Shared}
      → (s.start_request_ready || s.client_failed) ≡ true
      → wait_for_start_request s ≡ []
      → WorkerStep a pid awaiting_start s (finishing true) s
  start_seen :
      {s : Shared} {c : ℕ} {cs : Bytes}
      → (s.start_request_ready || s.client_failed) ≡ true
      → wait_for_start_request s ≡ c ∷ cs
      → WorkerStep a pid awaiting_start s (cancelling 0 (c ∷ cs)) s
  round_begun :
      {s : Shared} {i : ℕ} {sid : Bytes}
      → i < cancel_tries
      → s.client_failed ≡ false
      → WorkerStep a pid (cancelling i sid) s (in_round i sid) s
  tries_over :
      {s : Shared} {i : ℕ} {sid : Bytes}
      → (not (ltb i cancel_tries) || s.client_failed) ≡ true
      → WorkerStep a pid (cancelling i sid) s leaving s
  round_broken :
      {s : Shared} {i : ℕ} {sid : Bytes} (net net' : Network)
      → cancel_round a i sid net ≡ returns (none, net')
      → WorkerStep a pid (in_round i sid) s round_failed s
  round_ended :
      {s : Shared} {i : ℕ} {sid sid' : Bytes} (net net' : Network)
      → cancel_round a i sid net ≡ returns (some sid', net')
      → WorkerStep a pid (in_round i sid) s (cancelling (i + 1) sid') s
  round_marked : {s : Shared} → WorkerStep a pid round_failed s leaving (mark_failed s)
  failure_read :
      {s : Shared} {failed : Bool}
      → s.client_failed ≡ failed
      → WorkerStep a pid leaving s (finishing failed) s

pub record Client : Type 0 where
  pub shared : Shared
  pub server : Server
  pub workers : List Worker
  pub verdict : Option Bool

-- `client_run`, once it has created the threads
abbrev pub client_run : Client
client_run = record {
  shared = record {
    client_failed = false;
    finished_workers = 0;
    asset_server_ready = false;
    start_request_ready = false;
    start_request_sid = [];
  };
  server = starting;
  workers = awaiting_server ∷ awaiting_start ∷ awaiting_start ∷ [];
  verdict = none;
}

pub data Step (a : Allocator) (pid : ℕ) : Client → Client → Type 0 where
  server_moves :
      {s s' : Shared} {p p' : Server} {ws : List Worker}
      → ServerStep p s p' s'
      → Step a pid
          (record { shared = s; server = p; workers = ws; verdict = none })
          (record { shared = s'; server = p'; workers = ws; verdict = none })
  worker_moves :
      {s s' : Shared} {p : Server} {w w' : Worker} (before after : List Worker)
      → WorkerStep a pid w s w' s'
      → Step a pid
          (record { shared = s; server = p; workers = before ++ w ∷ after; verdict = none })
          (record { shared = s'; server = p; workers = before ++ w' ∷ after; verdict = none })
  worker_ends :
      {s : Shared} {p : Server} (failed : Bool) (before after : List Worker)
      → Step a pid
          (record {
            shared = s;
            server = p;
            workers = before ++ finishing failed ∷ after;
            verdict = none;
          })
          (record {
            shared = (finish_worker failed s).0;
            server = p;
            workers = before ++ finished ∷ after;
            verdict = (finish_worker failed s).1;
          })
