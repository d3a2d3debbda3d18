-- ===== src/Sctbench/ThreadPool/Worker.antt =====
-- sctbench/inspect_examples/thread-pool.example.c: one thread of the pool and its entry, with the
-- thread that gives it jobs and the one that stops it. A step is the code from taking the mutex of the
-- entry, or from waking up, to releasing it or waiting, or an access to the entry without the mutex.
-- A thread that ends keeps the mutex.
use benchamel.Base.{
  ℕ, ◌≡◌, ◌≢◌, refl, ap, arith, true, false, List, [], ◌∷◌, ◌++◌, Reach, Reach-inv, here, next, ◌⊎◌,
  inl, inr,
}
use benchamel.Sctbench.ThreadPool.{ThreadInfo}

-- Where the thread stands in its loop.
pub data Spot : Type 0 where
  arrives : Spot  -- before the mutex
  in_wait : Spot
  signalled : Spot
  works : Spot  -- before it reads its job
  processes : (job : ℕ) → Spot
  over : Spot

-- Where the call of `tp_process_job` stands that has found the thread idle.
pub data Giver : Type 0 where
  absent : Giver
  marked : (worker job : ℕ) → Giver  -- the entry is busy, without the job
  written : Giver  -- before the signal

pub record Slot : Type 0 where
  pub info : ThreadInfo
  pub spot : Spot
  pub giver : Giver
  pub jobs : List ℕ  -- those that it has done

-- pthread_cond_signal is lost on a thread that does not wait.
abbrev pub signal : Spot → Spot
signal in_wait = signalled
signal s = s

-- The loop of `tp_work_thread`
pub data Work (s : Slot) : Slot → Type 0 where
  waits : s.spot ≡ arrives → s.info.stop ≡ 0 → Work s (record s { spot = in_wait })
  exits : s.spot ≡ arrives → s.info.stop ≢ 0 → Work s (record s { spot = over })
  wakes : s.spot ≡ signalled → s.info.stop ≡ 0 → Work s (record s { spot = works })
  exits_woken : s.spot ≡ signalled → s.info.stop ≢ 0 → Work s (record s { spot = over })
  reads : s.spot ≡ works → Work s (record s { spot = processes s.info.th_job })
  finishes :
      (job : ℕ)
      → s.spot ≡ processes job
      → Work s (record s {
        info = record s.info { is_busy = false };
        spot = arrives;
        jobs = s.jobs ++ job ∷ [];
      })

-- The steps of all three. Stopping is a part of `tp_delete_thread` and of `tp_close`.
pub data Step (s : Slot) : Slot → Type 0 where
  work : {t : Slot} → Work s t → Step s t
  marks :
      (worker job : ℕ)
      → s.giver ≡ absent
      → s.spot ≢ over
      → s.info.is_busy ≡ false
      → Step s (record s { info = record s.info { is_busy = true }; giver = marked worker job })
  writes :
      (worker job : ℕ)
      → s.giver ≡ marked worker job
      → Step s
          (record s { info = record s.info { th_work = worker; th_job = job }; giver = written })
  signals : s.giver ≡ written → Step s (record s { spot = signal s.spot; giver = absent })
  stops : Step s (record s { info = record s.info { stop = 1 } })
  signals_stop : s.info.stop ≡ 1 → Step s (record s { spot = signal s.spot })

-- A wait may also end without a signal.
pub data SomeStep (s : Slot) : Slot → Type 0 where
  step : {t : Slot} → Step s t → SomeStep s t
  wakes_alone : s.spot ≡ in_wait → SomeStep s (record s { spot = signalled })

-- The thread waits, its entry is busy with the job, and the job has been given to the end.
pub record IsLost (job : ℕ) (s : Slot) : Type 0 where
  pub busy : s.info.is_busy ≡ true
  pub given_to : s.info.th_job ≡ job
  pub signal_sent : s.giver ≡ absent
  pub asleep : s.spot ≡ in_wait
  -- It does no job, unless a wait ends without a signal.
  pub undone : (t : Slot) → Reach Step s t → (t.jobs ≡ []) × (t.info.is_busy ≡ true)

-- The thread sleeps, or it has been stopped.
record Stuck (s : Slot) : Type 0 where
  none_done : s.jobs ≡ []
  is_busy : s.info.is_busy ≡ true
  nobody : s.giver ≡ absent
  where_ : (s.spot ≡ in_wait) ⊎ (((s.spot ≡ signalled) ⊎ (s.spot ≡ over)) × (s.info.stop ≡ 1))

Work-Stuck : (s t : Slot) → Work s t → Stuck s → Stuck t
Work-Stuck s t (waits e f) v = absurd (elim v.where_ [
  | inl q ↦ cc (e, q)
  | inr there ↦ elim there.0 [ inl q ↦ cc (e, q) | inr q ↦ cc (e, q) ]
])
Work-Stuck s t (exits e f) v = absurd (elim v.where_ [
  | inl q ↦ cc (e, q)
  | inr there ↦ elim there.0 [ inl q ↦ cc (e, q) | inr q ↦ cc (e, q) ]
])
Work-Stuck s t (wakes e f) v =
    absurd (elim v.where_ [ inl q ↦ cc (e, q) | inr there ↦ omega (arith, f, there.1) ])
Work-Stuck s t (exits_woken e f) v = record {
  none_done = v.none_done;
  is_busy = v.is_busy;
  nobody = v.nobody;
  where_ = inr (inr refl, elim v.where_ [ inl q ↦ absurd (cc (e, q)) | inr there ↦ there.1 ]);
}
Work-Stuck s t (reads e) v = absurd (elim v.where_ [
  | inl q ↦ cc (e, q)
  | inr there ↦ elim there.0 [ inl q ↦ cc (e, q) | inr q ↦ cc (e, q) ]
])
Work-Stuck s t (finishes job e) v = absurd (elim v.where_ [
  | inl q ↦ cc (e, q)
  | inr there ↦ elim there.0 [ inl q ↦ cc (e, q) | inr q ↦ cc (e, q) ]
])

Step-Stuck : (s t : Slot) → Step s t → Stuck s → Stuck t
Step-Stuck s t (work w) v = Work-Stuck s t w v
Step-Stuck s t (marks worker job e f g) v = absurd (cc (g, v.is_busy))
Step-Stuck s t (writes worker job e) v = absurd (cc (e, v.nobody))
Step-Stuck s t (signals e) v = absurd (cc (e, v.nobody))
Step-Stuck s t stops v = record {
  none_done = v.none_done;
  is_busy = v.is_busy;
  nobody = v.nobody;
  where_ = elim v.where_ [ inl asleep ↦ inl asleep | inr there ↦ inr (there.0, refl) ];
}
Step-Stuck s t (signals_stop e) v = record {
  none_done = v.none_done;
  is_busy = v.is_busy;
  nobody = v.nobody;
  where_ = inr (
    elim v.where_ [
      | inl asleep ↦ inl (ap signal asleep)
      | inr there ↦ elim there.0 [ inl up ↦ inl (ap signal up) | inr out ↦ inr (ap signal out) ]
    ],
    e,
  );
}

-- A job that is given to an idle thread before the thread waits can be lost: a state can be reached
-- in which the thread waits, its entry is busy with the job, and the signal has been sent; and from
-- there, as long as no wait ends without a signal, the thread does no job and its entry stays busy,
-- also if it is stopped.
pub post_to-IsLost :
    (info : ThreadInfo) (worker job : ℕ)
    → info.is_busy ≡ false
    → info.stop ≡ 0
    → (s : Slot) × Reach SomeStep
        (record { info = info; spot = arrives; giver = absent; jobs = [] })
        s
      × IsLost job s
post_to-IsLost info worker job idle going =
    let busy = record info { is_busy = true; th_work = worker; th_job = job } in
    let lost : Slot = record { info = busy; spot = in_wait; giver = absent; jobs = [] } in
    (
      lost,
      next
          (next
            (next (next here (step (marks worker job refl (λ q. cc q) idle)))
              (step (writes worker job refl)))
            (step (signals refl)))
          (step (work (waits refl going))),
      record {
        busy = refl;
        given_to = refl;
        signal_sent = refl;
        asleep = refl;
        undone = λ t r.
            let v =
              Reach-inv Step Stuck Step-Stuck
                (record { none_done = refl; is_busy = refl; nobody = refl; where_ = inl refl }) r in
            (v.none_done, v.is_busy);
      },
    )
