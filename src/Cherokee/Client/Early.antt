-- ===== src/Cherokee/Client/Early.antt =====
-- concurrency-bugs/cherokee-0.9.2/cherokee-client.c: the steps of a worker before it finishes.
use benchamel.Base.{
  ℕ, ◌+◌, ◌<◌, ◌≡◌, refl, Bool, true, false, List, [], ◌∷◌, ◌++◌, Bytes, arith, All, length,
  length-append,
}
use benchamel.Cherokee.Client.{Shared, Worker, Status, WorkerStep, Client, client_threads}

abbrev pub is_past : Worker → ℕ
is_past Worker.judging = 1
is_past Worker.reading_log = 1
is_past Worker.over = 1
is_past _ = 0

abbrev pub past_count : List Worker → ℕ
past_count [] = 0
past_count (w ∷ ws) = is_past w + past_count ws

pub past_count-middle :
    (before after : List Worker) (w : Worker)
    → past_count (before ++ w ∷ after) ≡ past_count before + is_past w + past_count after
past_count-middle [] after w = omega arith
past_count-middle (b ∷ before) after w =
    let ih = past_count-middle before after w in omega (arith, ih)

is_past-bound : (w : Worker) → is_past w < 2
is_past-bound Worker.starting = omega arith
is_past-bound Worker.not_started = omega arith
is_past-bound (Worker.looping x) = omega arith
is_past-bound (Worker.in_round x) = omega arith
is_past-bound Worker.round_failed = omega arith
is_past-bound Worker.leaving = omega arith
is_past-bound (Worker.finish x) = omega arith
is_past-bound Worker.counting = omega arith
is_past-bound Worker.judging = omega arith
is_past-bound Worker.reading_log = omega arith
is_past-bound Worker.over = omega arith

past_count-bound : (ws : List Worker) → past_count ws < length ws + 1
past_count-bound [] = omega arith
past_count-bound (w ∷ ws) =
    let ih = past_count-bound ws in let b = is_past-bound w in omega (arith, ih, b)

-- What a worker that has counted itself knows.
abbrev pub Knows : Shared → Worker → Type 0
Knows s Worker.judging = s.finished_workers ≡ client_threads
Knows s Worker.reading_log = (s.finished_workers ≡ client_threads) × (s.client_failed ≡ false)
Knows s _ = Unit

abbrev pub Says : (Bytes → Bool) → Shared → Status → Type 0
Says corrupt s Status.running = Unit
Says corrupt s (Status.exited log) =
    (s.finished_workers ≡ client_threads) × (s.client_failed ≡ false) × (corrupt log ≡ false)
Says corrupt s Status.aborted_failed =
    (s.finished_workers ≡ client_threads) × (s.client_failed ≡ true)
Says corrupt s (Status.aborted_corrupt log) =
    (s.finished_workers ≡ client_threads) × (s.client_failed ≡ false) × (corrupt log ≡ true)
Says corrupt s Status.aborted_unopened =
    (s.finished_workers ≡ client_threads) × (s.client_failed ≡ false)

pub record IsSound (corrupt : Bytes → Bool) (c : Client) : Type 0 where
  pub two : length c.workers ≡ client_threads
  pub counts : c.shared.finished_workers ≡ past_count c.workers
  pub knows : All (Knows c.shared) c.workers
  pub says : Says corrupt c.shared c.status

-- A step of a worker before it counts itself.
pub record Early (w w' : Worker) (s s' : Shared) : Type 0 where
  pub from : is_past w ≡ 0
  pub to : is_past w' ≡ 0
  pub same : s'.finished_workers ≡ s.finished_workers
  pub knows : Knows s' w'

pub WorkerStep-Early :
    {request : Bytes} {w w' : Worker} {s s' : Shared}
    → WorkerStep request w s w' s'
    → Early w w' s s'
WorkerStep-Early (WorkerStep.server_ready x y z) = record {
  from = refl;
  to = refl;
  same = refl;
  knows = tt;
}
WorkerStep-Early (WorkerStep.server_missing x y z) = record {
  from = refl;
  to = refl;
  same = refl;
  knows = tt;
}
WorkerStep-Early WorkerStep.start_marked = record {
  from = refl;
  to = refl;
  same = refl;
  knows = tt;
}
WorkerStep-Early (WorkerStep.round_begun x y) = record {
  from = refl;
  to = refl;
  same = refl;
  knows = tt;
}
WorkerStep-Early (WorkerStep.loop_over x) = record {
  from = refl;
  to = refl;
  same = refl;
  knows = tt;
}
WorkerStep-Early (WorkerStep.round_ended x y z) = record {
  from = refl;
  to = refl;
  same = refl;
  knows = tt;
}
WorkerStep-Early (WorkerStep.round_broken x y z) = record {
  from = refl;
  to = refl;
  same = refl;
  knows = tt;
}
WorkerStep-Early WorkerStep.round_marked = record {
  from = refl;
  to = refl;
  same = refl;
  knows = tt;
}
WorkerStep-Early (WorkerStep.failure_read x) = record {
  from = refl;
  to = refl;
  same = refl;
  knows = tt;
}
WorkerStep-Early WorkerStep.failure_kept = record {
  from = refl;
  to = refl;
  same = refl;
  knows = tt;
}
WorkerStep-Early WorkerStep.no_failure = record { from = refl; to = refl; same = refl; knows = tt }

-- Nobody knows anything yet when a worker is still to be counted.
Knows-early :
    (s s' : Shared) (w : Worker) → s.finished_workers < client_threads → Knows s w → Knows s' w
Knows-early s s' Worker.starting h k = tt
Knows-early s s' Worker.not_started h k = tt
Knows-early s s' (Worker.looping x) h k = tt
Knows-early s s' (Worker.in_round x) h k = tt
Knows-early s s' Worker.round_failed h k = tt
Knows-early s s' Worker.leaving h k = tt
Knows-early s s' (Worker.finish x) h k = tt
Knows-early s s' Worker.counting h k = tt
Knows-early s s' Worker.judging h k = absurd (omega (arith, h, k))
Knows-early s s' Worker.reading_log h k = absurd (omega (arith, h, k.0))
Knows-early s s' Worker.over h k = tt

All-early :
    (s s' : Shared) (ws : List Worker)
    → s.finished_workers < client_threads
    → All (Knows s) ws
    → All (Knows s') ws
All-early s s' [] h k = tt
All-early s s' (w ∷ ws) h k = (Knows-early s s' w h k.0, All-early s s' ws h k.1)

pub All-early_middle :
    (s s' : Shared) (before after : List Worker) (w w' : Worker)
    → s.finished_workers < client_threads
    → Knows s' w'
    → All (Knows s) (before ++ w ∷ after)
    → All (Knows s') (before ++ w' ∷ after)
All-early_middle s s' [] after w w' h m k = (m, All-early s s' after h k.1)
All-early_middle s s' (b ∷ before) after w w' h m k =
    (Knows-early s s' b h k.0, All-early_middle s s' before after w w' h m k.1)

pub All-replace :
    (s : Shared) (before after : List Worker) (w w' : Worker)
    → Knows s w'
    → All (Knows s) (before ++ w ∷ after)
    → All (Knows s) (before ++ w' ∷ after)
All-replace s [] after w w' m k = (m, k.1)
All-replace s (b ∷ before) after w w' m k = (k.0, All-replace s before after w w' m k.1)

pub middle :
    (s : Shared) (before after : List Worker) (w : Worker)
    → All (Knows s) (before ++ w ∷ after)
    → Knows s w
middle s [] after w k = k.0
middle s (b ∷ before) after w k = middle s before after w k.1

pub length-middle :
    (before after : List Worker) (w w' : Worker)
    → length (before ++ w' ∷ after) ≡ length (before ++ w ∷ after)
length-middle before after w w' =
    omega (arith, length-append before (w ∷ after), length-append before (w' ∷ after))

-- while one of the two is still to be counted
pub early_bound :
    (n : ℕ) (before after : List Worker) (w : Worker)
    → is_past w ≡ 0
    → length (before ++ w ∷ after) ≡ client_threads
    → n ≡ past_count (before ++ w ∷ after)
    → n < client_threads
early_bound n before after w e l c = omega (
  arith,
  e,
  l,
  c,
  past_count-middle before after w,
  past_count-bound before,
  past_count-bound after,
  length-append before (w ∷ after),
)
