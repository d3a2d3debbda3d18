-- ===== src/Sctbench/ThreadPool/Start.antt =====
-- sctbench/inspect_examples/thread-pool.example.c: the threads that `tp_init` creates.
use benchamel.Base.{
  ℕ, zero, suc, ◌+◌, ◌<◌, ◌≤◌, ◌≡◌, ◌≢◌, refl, sym, ap, ◌∙◌, arith, true, none, some, List, length,
  set, length-set, get_or-set_self, get_or-set_ne, ◌==◌, inl, inr,
}
use native.Mathlib.Decide.{dec_lt, ℕ_discrete}
use benchamel.Sctbench.ThreadPool.{
  ThreadInfo, Pool, no_info, info_at, creat_thread_pool, init_threads, tp_init, tp_get_thread_by_id,
}
use benchamel.Sctbench.ThreadPool.Find.{find-cases, put_info-some}

-- The entries from `i` on have been set up, `left` of them.
pub record Made (ids : ℕ → ℕ) (i left : ℕ) (pool after : Pool) : Type 0 where
  pub sizes :
      (after.min_th_num ≡ pool.min_th_num)
      × (after.cur_th_num ≡ pool.cur_th_num)
      × (after.max_th_num ≡ pool.max_th_num)
      × (length after.thread_info ≡ length pool.thread_info)
  pub made :
      (j : ℕ)
      → i ≤ j
      → j < i + left
      → ((info_at after j).thread_id ≡ ids j) × ((info_at after j).stop ≡ 0)
  pub kept : (j : ℕ) → j < i → info_at after j ≡ info_at pool j

init_threads-Made :
    (ids : ℕ → ℕ) (left i : ℕ) (pool : Pool)
    → i + left ≤ length pool.thread_info
    → (after : Pool) × (init_threads (λ j. some (ids j)) left i pool ≡ some (after, true))
      × Made ids i left pool after
unfolding init_threads
init_threads-Made ids zero i pool fits = (
  pool,
  refl,
  record {
    sizes = (refl, refl, refl, refl);
    made = λ j lo hi. absurd (omega (arith, lo, hi));
    kept = λ j lt. refl;
  },
)
init_threads-Made ids (suc left) i pool fits =
    let info = record (info_at pool i) { stop = 0; thread_id = ids i } in
    let one = record pool { stop = 0; thread_info = set pool.thread_info i info } in
    let grown = length-set pool.thread_info i info in
    let written = put_info-some (record pool { stop = 0 }) i info (omega (arith, fits)) in
    let (after, e, v) = init_threads-Made ids left (i + 1) one (omega (arith, fits, grown)) in
    (
      after,
      rw written e,
      record {
        sizes = (v.sizes.0, v.sizes.1, v.sizes.2, v.sizes.3 ∙ grown);
        made = λ j lo hi. elim (ℕ_discrete i j) [
          | yes same ↦
              let mine : info_at after i ≡ info =
                v.kept i (omega arith)
                ∙ get_or-set_self pool.thread_info i info no_info (omega (arith, fits)) in
              (
                ap (λ k. (info_at after k).thread_id) (sym same)
                    ∙ ap (λ (x : ThreadInfo). x.thread_id) mine
                    ∙ ap ids same,
                ap (λ k. (info_at after k).stop) (sym same) ∙ ap (λ (x : ThreadInfo). x.stop) mine,
              )
          | no other ↦ v.made j (omega (arith, lo, other)) (omega (arith, hi))
        ];
        kept = λ j lt.
            v.kept j (omega (arith, lt))
            ∙ get_or-set_ne pool.thread_info i j info no_info (omega (arith, lt));
      },
    )

pub record IsStarted (ids : ℕ → ℕ) (after : Pool) : Type 0 where
  pub running : (j : ℕ) → j < after.cur_th_num → (info_at after j).stop ≡ 0
  pub found : (j : ℕ) → j < after.cur_th_num → tp_get_thread_by_id after (ids j) ≡ some j
  pub others :
      (id : ℕ) → ((j : ℕ) → j < after.cur_th_num → ids j ≢ id) → tp_get_thread_by_id after id ≡ none

module _ (ids : ℕ → ℕ) (after : Pool) (inside : after.cur_th_num ≤ length after.thread_info)
    (made : (j : ℕ) → j < after.cur_th_num → (info_at after j).thread_id ≡ ids j) where
  get_found :
      ((j k : ℕ) → j < k → k < after.cur_th_num → ids j ≢ ids k)
      → (j : ℕ) → j < after.cur_th_num
      → tp_get_thread_by_id after (ids j) ≡ some j
  unfolding tp_get_thread_by_id
  get_found apart j lt =
      elim (find-cases (λ info. info.thread_id == ids j) after.cur_th_num 0 after.thread_info
        inside) [
          | inl (e, nobody) ↦
              let mine = nobody j lt in let id = made j lt in absurd (ground (arith, mine, id))
          | inr (d, e, first) ↦ elim (ℕ_discrete d j) [
            | yes same ↦ e ∙ ap some (omega (arith, same))
            | no other ↦ elim (dec_lt d j) [
              | yes before ↦
                  let hit = first.passes in
                  let id = made d (omega (arith, before, lt)) in
                  let ne = apart d j before lt in absurd (ground (arith, hit, id, ne))
              | no after_ ↦
                  let missed = first.before j (omega (arith, other, after_)) in
                  let id = made j lt in absurd (ground (arith, missed, id))
            ]
          ]
        ]

  get_missed :
      (id : ℕ) → ((j : ℕ) → j < after.cur_th_num → ids j ≢ id) → tp_get_thread_by_id after id ≡ none
  unfolding tp_get_thread_by_id
  get_missed id others =
      elim (find-cases (λ info. info.thread_id == id) after.cur_th_num 0 after.thread_info inside) [
        | inl (e, nobody) ↦ e
        | inr (d, e, first) ↦
            let hit = first.passes in
            let mine = made d first.inside in
            let ne = others d first.inside in absurd (ground (arith, hit, mine, ne))
      ]

pub tp_init-IsStarted :
    (ids : ℕ → ℕ) (min_num max_num : ℕ) (raw : List ThreadInfo)
    → length raw ≡ max_num
    → min_num ≤ max_num
    → ((j k : ℕ) → j < k → k < min_num → ids j ≢ ids k)
    → (after : Pool) × (tp_init (λ j. some (ids j)) true (creat_thread_pool min_num max_num raw)
        ≡ some (after, true))
      × IsStarted ids after
unfolding tp_init
tp_init-IsStarted ids min_num max_num raw block le apart =
    let pool = creat_thread_pool min_num max_num raw in
    let (after, e, v) = init_threads-Made ids min_num 0 pool (omega (arith, block, le)) in
    let made : (j : ℕ) → j < after.cur_th_num → (info_at after j).thread_id ≡ ids j =
      λ j lt. (v.made j (omega arith) (omega (arith, lt, v.sizes.1))).0 in
    let inside : after.cur_th_num ≤ length after.thread_info =
      omega (arith, v.sizes.1, v.sizes.3, block, le) in
    (
      after,
      rw e refl,
      record {
        running = λ j lt. (v.made j (omega arith) (omega (arith, lt, v.sizes.1))).1;
        found =
            get_found ids after inside made
              (λ j k lt hi. apart j k lt (omega (arith, hi, v.sizes.1)));
        others = get_missed ids after inside made;
      },
    )
