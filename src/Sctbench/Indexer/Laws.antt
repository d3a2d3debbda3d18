-- ===== src/Sctbench/Indexer/Laws.antt =====
-- sctbench/concurrent-software-benchmarks/indexer_ok.c: every entry gets a cell, and keeps it.
use benchamel.Base.{
  ℕ, ◌+◌, ◌-◌, ◌*◌, ◌%◌, ◌<◌, ◌≤◌, ◌≡◌, ◌≢◌, refl, ap, sym, ◌∙◌, arith, length, get_or, set, update,
  update_other, total, total-update, length-set, get_or-set_self, Reach, Reach-inv,
}
use mathlib.Core.Path.{subst}
use native.Mathlib.Decide.{dec_lt, ℕ_discrete}
use benchamel.Sctbench.Indexer.{
  size, max, num_threads, looking, probing, ended, State, main, entry, Step, read_tid, next_entry,
  exit_thread, probe,
}
use benchamel.Sctbench.Indexer.Table.{used, used-set, walk_all}
use benchamel.Sctbench.Indexer.Invariant.{
  Holds, Met, Fine, placed, Inv, used-le, active, update-Fine, moved-Inv, set-Holds, set-Fine,
  cas_empty, cas_taken,
}

-- A call of `cas` that finds its cell empty.
put-Inv :
    (s : State) (i tid m w h tries : ℕ)
    → s.threads i ≡ probing tid m w h tries
    → get_or s.table h 0 ≡ 0
    → Inv s
    → Inv (record { table = set s.table h w; threads = update s.threads i (looking tid m) })
put-Inv s i tid m w h tries e empty v =
    let fine = subst (Fine s.table) e (v.threads i) in
    let lt = active s i v (λ q. cc (q, e)) in
    let in_table : h < length s.table = omega (arith, fine, v.block) in
    let placed_here : (k : ℕ)
        → 0 < k
        → k ≤ m
        → (j : ℕ) × (get_or (set s.table h w) j 0 ≡ entry tid k) =
      λ k lo hi. elim (ℕ_discrete k m) [
        | yes same ↦ (h, get_or-set_self s.table h w 0 in_table ∙ omega (arith, fine, same))
        | no other ↦ set-Holds s.table h w empty tid (m - 1) fine.6 k lo (omega (arith, hi, other))
      ] in
    record {
      block = length-set s.table h w ∙ v.block;
      threads =
          update-Fine (set s.table h w) s.threads i (looking tid m)
            (λ j. set-Fine s.table h w empty (s.threads j) (v.threads j)) (fine.1, placed_here);
      few = λ j le. update_other s.threads i j (looking tid m) (omega (arith, lt, le)) ∙ v.few j le;
      filled = omega (
        arith,
        v.filled,
        used-set s.table h w in_table empty (omega (arith, fine)),
        fine,
        ap placed e,
        total-update placed num_threads s.threads i (looking tid m) lt,
      );
    }

-- A call that finds it taken: the search cannot have met all cells.
missed-Inv :
    (s : State) (i tid m w h tries : ℕ)
    → s.threads i ≡ probing tid m w h tries
    → get_or s.table h 0 ≢ 0
    → Inv s
    → Inv (record s { threads = update s.threads i (probing tid m w ((h + 1) % size) (tries + 1)) })
missed-Inv s i tid m w h tries e taken v =
    let fine = subst (Fine s.table) e (v.threads i) in
    let met : Met s.table w (tries + 1) = λ k lt q. elim (dec_lt k tries) [
      | yes old ↦ fine.5 k old q
      | no new ↦ taken (ap (λ j. get_or s.table j 0) (omega (arith, fine, lt, new)) ∙ q)
    ] in
    let more : tries + 1 < size = elim (dec_lt (tries + 1) size) [
      | yes lt ↦ lt
      | no ge ↦ absurd (
          omega (
            arith,
            used-le s v,
            walk_all s.table (w * 7) v.block (λ k lt. met k (omega (arith, lt, ge))),
          ))
    ] in
    moved-Inv s i (probing tid m w ((h + 1) % size) (tries + 1)) v (active s i v (λ q. cc (q, e)))
      (fine.0, fine.1, fine.2, omega (arith, fine), more, met, fine.6) (omega (arith, ap placed e))

Step-Inv : (s t : State) → Step s t → Inv s → Inv t
Step-Inv s t (read_tid i tid lt small e) v =
    moved-Inv s i (looking tid 0) v lt (omega arith, λ k lo hi. absurd (omega (arith, lo, hi)))
      (sym (ap placed e))
Step-Inv s t (next_entry i {tid} {m} e lt) v =
    let fine = subst (Fine s.table) e (v.threads i) in
    moved-Inv s i (probing tid (m + 1) (entry tid (m + 1)) (entry tid (m + 1) * 7 % size) 0) v
      (active s i v (λ q. cc (q, e)))
      (
        omega arith,
        omega (arith, lt),
        refl,
        omega arith,
        omega arith,
        λ k none. absurd (omega (arith, none)),
        λ k lo hi. fine.1 k lo (omega (arith, hi)),
      )
      (omega (arith, ap placed e))
Step-Inv s t (exit_thread i {tid} {m} e ge) v =
    let fine = subst (Fine s.table) e (v.threads i) in
    moved-Inv s i (ended tid) v (active s i v (λ q. cc (q, e)))
      (λ k lo hi. fine.1 k lo (omega (arith, hi, ge))) (omega (arith, ap placed e, fine, ge))
Step-Inv s t (probe i {tid} {m} {w} {h} {tries} e) v = elim (ℕ_discrete (get_or s.table h 0) 0) [
  | yes empty ↦ rw (cas_empty s.table h w empty) (put-Inv s i tid m w h tries e empty v)
  | no taken ↦ rw (cas_taken s.table h w taken) (missed-Inv s i tid m w h tries e taken v)
]

pub record IsIndexed (s : State) : Type 0 where
  pub filled : used s.table ≡ total placed num_threads s.threads
  pub kept : (i tid : ℕ) → s.threads i ≡ ended tid → Holds s.table tid max
  pub searches : (i tid m w h tries : ℕ) → s.threads i ≡ probing tid m w h tries → tries < size

main-Inv : (s : State) → Reach Step main s → Inv s
main-Inv s r =
    Reach-inv Step Inv Step-Inv
      (record { block = refl; threads = λ i. tt; few = λ i le. refl; filled = refl }) r

-- However the threads interleave, and whatever numbers below 13 they read: as many cells are filled
-- as entries have been put in, when a thread has ended, its four entries are in the table, and no
-- search for a cell fails 128 times.
pub main-IsIndexed : (s : State) → Reach Step main s → IsIndexed s
main-IsIndexed s r =
    let v = main-Inv s r in
    record {
      filled = v.filled;
      kept = λ i tid e. subst (Fine s.table) e (v.threads i);
      searches = λ i tid m w h tries e. (subst (Fine s.table) e (v.threads i)).4;
    }
