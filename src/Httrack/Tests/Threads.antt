-- ===== src/Httrack/Tests/Threads.antt =====
-- A run of the threads of httrack-client.c in which the asset server fails.
use benchamel.Base.{refl, true, none, [], ◌∷◌, Reach, here, next}
use benchamel.Httrack.Buffer.{Allocator}
use benchamel.Httrack.Threads.{Server, Worker, WorkerStep, ServerStep, Client, client_run, Step}
use benchamel.Httrack.Threads.Verdict.{IsCounted, client_run-IsCounted}
use benchamel.Httrack.Threads.Session.{IsInformed, client_run-IsInformed}

abbrev generous : Allocator
generous = record { grants = λ n. true; junk = λ i. 7 }

-- The server cannot listen, and a cancel worker sees that.
abbrev unserved : Client
unserved = record {
  shared = record client_run.shared { client_failed = true };
  server = Server.server_over;
  workers = Worker.awaiting_server ∷ Worker.finishing true ∷ Worker.awaiting_start ∷ [];
  verdict = none;
}

unserved_reached : Reach (Step generous 5) client_run unserved
unserved_reached = next (next here (Step.server_moves ServerStep.refused)) (
    Step.worker_moves (Worker.awaiting_server ∷ []) (Worker.awaiting_start ∷ [])
      (WorkerStep.start_missed refl refl))

client_run-IsCounted_example : IsCounted unserved
client_run-IsCounted_example = client_run-IsCounted generous 5 unserved unserved_reached

client_run-IsInformed_example : IsInformed unserved
client_run-IsInformed_example = client_run-IsInformed generous 5 unserved unserved_reached
