-- ===== src/Cherokee/Client.antt =====
-- concurrency-bugs/cherokee-0.9.2/cherokee-client.c: the workers, their sockets and how they end.
-- The functions are over the request and the check of the access log, in which the two clients
-- differ. Each step of a worker reads or changes the shared state at most once, as the atomic
-- operations of the source do; the sleeps are left out. `connect_once`, `connect_with_retry` and
-- `send_all` have the text of the httrack client's functions.
pub mod Early
pub mod Finish
use benchamel.Base.{
  ℕ, zero, suc, ◌+◌, ◌<◌, ◌≡◌, Bool, true, false, not, ◌||◌, Option, none, some, List, [], ◌∷◌,
  ◌++◌, Bytes, codes, length, ltb, ◌==◌, if◌then◌else◌,
}
use benchamel.Base.Outcome.{Outcome, returns, aborts, unfinished, ◌>>=◌}
use benchamel.Httrack.Transport
use benchamel.Httrack.Transport.{
  Connection, Network, SendResult, RecvResult, received, recv_interrupted, recv_failed,
}
use benchamel.Cherokee.Log.{path0, path1}

abbrev pub client_threads : ℕ
client_threads = 2

abbrev pub client_loops : ℕ
client_loops = 50

abbrev pub startup_tries : ℕ
startup_tries = 400

abbrev pub connect_tries : ℕ
connect_tries = 100

abbrev pub connect_once : Network → Option Connection × Network
connect_once = Transport.connect_once

abbrev pub connect_with_retry : ℕ → Network → Option Connection × Network
connect_with_retry = Transport.connect_with_retry

abbrev pub send_all : List SendResult → Bytes → Bytes → Outcome (Bool × Bytes)
send_all = Transport.send_all

-- `true` is 0 and `false` is -1.
unfoldable pub drain_socket : List RecvResult → Outcome Bool
drain_socket [] = unfinished
drain_socket (received [] ∷ results) = returns true
drain_socket (received (c ∷ cs) ∷ results) = drain_socket results
drain_socket (recv_interrupted ∷ results) = drain_socket results
drain_socket (recv_failed ∷ results) = returns false

unfoldable pub wait_for_server_ready : Network → Bool × Network
wait_for_server_ready net =
    let (fd, net') = connect_with_retry startup_tries net in
    elim fd [ none ↦ (false, net') | some c ↦ (true, net') ]

-- The request of each thread.
abbrev pub request_path : ℕ → Bytes
request_path zero = path0
request_path (suc n) = path1

unfoldable pub request_text : ℕ → Bytes
request_text index =
    codes "GET "
    ++ (request_path index ++ codes " HTTP/1.0\r\nHost: 127.0.0.1\r\nConnection: close\r\n\r\n")

-- One round of the loop of `client_worker` on a connection; `false` is `mark_failed` and `break`.
abbrev pub drained : List RecvResult → Bool × Bytes → Outcome (Bool × Bytes)
drained recvs (false, wire) = returns (false, wire)
drained recvs (true, wire) = do ok ← drain_socket recvs; returns (ok, wire)

abbrev pub round_on : Bytes → Option Connection × Network → Outcome (Bool × Network)
round_on request (none, net) = returns (false, net)
round_on request (some fd, net) = do
  sent ← send_all fd.sends request []
  r ← drained fd.recvs sent
  returns (r.0, record net { wire = r.1 ∷ net.wire })

unfoldable pub client_round : Bytes → Network → Outcome (Bool × Network)
client_round request net = round_on request (connect_with_retry connect_tries net)

pub record Shared : Type 0 where
  pub client_failed : Bool
  pub finished_workers : ℕ

abbrev pub mark_failed : Shared → Shared
mark_failed s = record s { client_failed = true }

abbrev pub is_client_failed : Shared → Bool
is_client_failed s = s.client_failed

-- Where a worker is.
pub data Worker : Type 0 where
  starting : Worker
  not_started : Worker  -- before mark_failed("connect")
  looping : ℕ → Worker  -- at the test of the loop
  in_round : ℕ → Worker
  round_failed : Worker  -- before mark_failed
  leaving : Worker  -- before the is_client_failed that finish_worker is given
  finish : Bool → Worker  -- in finish_worker, before client_failed is set
  counting : Worker  -- before __sync_add_and_fetch
  judging : Worker  -- the last one, before is_client_failed
  reading_log : Worker  -- before access_log_has_corruption
  over : Worker

pub data Status : Type 0 where
  running : Status
  exited : Bytes → Status  -- exit(0) with this access log
  aborted_failed : Status
  aborted_corrupt : Bytes → Status
  aborted_unopened : Status  -- the access log cannot be opened

-- the rest of `finish_worker` after the count
abbrev pub counted : ℕ → Worker
counted n = if n == client_threads then judging else over

pub data WorkerStep (request : Bytes) : Worker → Shared → Worker → Shared → Type 0 where
  server_ready :
      {s : Shared} (net net' : Network)
      → wait_for_server_ready net ≡ (true, net')
      → WorkerStep request starting s (looping 0) s
  server_missing :
      {s : Shared} (net net' : Network)
      → wait_for_server_ready net ≡ (false, net')
      → WorkerStep request starting s not_started s
  start_marked : {s : Shared} → WorkerStep request not_started s (finish true) (mark_failed s)
  round_begun :
      {s : Shared} {i : ℕ}
      → i < client_loops
      → is_client_failed s ≡ false
      → WorkerStep request (looping i) s (in_round i) s
  loop_over :
      {s : Shared} {i : ℕ}
      → (not (ltb i client_loops) || is_client_failed s) ≡ true
      → WorkerStep request (looping i) s leaving s
  round_ended :
      {s : Shared} {i : ℕ} (net net' : Network)
      → client_round request net ≡ returns (true, net')
      → WorkerStep request (in_round i) s (looping (i + 1)) s
  round_broken :
      {s : Shared} {i : ℕ} (net net' : Network)
      → client_round request net ≡ returns (false, net')
      → WorkerStep request (in_round i) s round_failed s
  round_marked : {s : Shared} → WorkerStep request round_failed s leaving (mark_failed s)
  failure_read :
      {s : Shared} {failed : Bool}
      → is_client_failed s ≡ failed
      → WorkerStep request leaving s (finish failed) s
  failure_kept : {s : Shared} → WorkerStep request (finish true) s counting (mark_failed s)
  no_failure : {s : Shared} → WorkerStep request (finish false) s counting s

pub record Client : Type 0 where
  pub shared : Shared
  pub workers : List Worker
  pub status : Status

-- `client_run`, once it has created the threads
abbrev pub client_run : Client
client_run = record {
  shared = record { client_failed = false; finished_workers = 0 };
  workers = starting ∷ starting ∷ [];
  status = running;
}

-- The access log is `none` when `fopen` fails.
abbrev pub read_log : (Bytes → Bool) → Option Bytes → Status
read_log corrupt none = aborted_unopened
read_log corrupt (some log) = if corrupt log then aborted_corrupt log else exited log

-- The steps of the process: `requests` is what each worker sends, `corrupt` is
-- `access_log_has_corruption` on a file that it has opened, and `log` is what the file holds then.
pub data Step (requests : ℕ → Bytes) (corrupt : Bytes → Bool) : Client → Client → Type 0 where
  worker_moves :
      {s s' : Shared} {w w' : Worker} (before after : List Worker)
      → WorkerStep (requests (length before)) w s w' s'
      → Step requests corrupt
          (record { shared = s; workers = before ++ w ∷ after; status = running })
          (record { shared = s'; workers = before ++ w' ∷ after; status = running })
  worker_counts :
      {s : Shared} (before after : List Worker)
      → Step requests corrupt
          (record { shared = s; workers = before ++ counting ∷ after; status = running })
          (record {
            shared = record s { finished_workers = s.finished_workers + 1 };
            workers = before ++ counted (s.finished_workers + 1) ∷ after;
            status = running;
          })
  failure_judged :
      {s : Shared} (before after : List Worker)
      → is_client_failed s ≡ true
      → Step requests corrupt
          (record { shared = s; workers = before ++ judging ∷ after; status = running })
          (record { shared = s; workers = before ++ over ∷ after; status = aborted_failed })
  success_judged :
      {s : Shared} (before after : List Worker)
      → is_client_failed s ≡ false
      → Step requests corrupt
          (record { shared = s; workers = before ++ judging ∷ after; status = running })
          (record { shared = s; workers = before ++ reading_log ∷ after; status = running })
  log_judged :
      {s : Shared} (log : Option Bytes) (before after : List Worker)
      → Step requests corrupt
          (record { shared = s; workers = before ++ reading_log ∷ after; status = running })
          (record { shared = s; workers = before ++ over ∷ after; status = read_log corrupt log })
