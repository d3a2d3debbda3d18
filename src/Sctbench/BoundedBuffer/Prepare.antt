-- ===== src/Sctbench/BoundedBuffer/Prepare.antt =====
-- sctbench/inspect_examples/boundedBuffer.c: what bounded_buf_init leaves, on each of its ways out.
use benchamel.Base.{ℕ, ◌<◌, ◌≡◌, ◌≢◌, arith, Bool, true, false, List, [], ◌∷◌, if◌then◌else◌}
use benchamel.Sctbench.BoundedBuffer.{
  cells_max, BoundedBuf, InitCalls, Object, mutex, not_full, not_empty, Action, inits, destroys,
  bounded_buf_init, allocate,
}
use benchamel.Sctbench.BoundedBuffer.Ring.{Holds}
use benchamel.Sctbench.BoundedBuffer.Calls.{init-Holds}

-- What has been initialised and not destroyed.
abbrev same_object : Object → Object → Bool
same_object mutex mutex = true
same_object not_full not_full = true
same_object not_empty not_empty = true
same_object a b = false

abbrev without : Object → List Object → List Object
without o [] = []
without o (x ∷ xs) = if same_object o x then xs else x ∷ without o xs

abbrev pub left_after : List Action → List Object → List Object
left_after [] live = live
left_after (inits o ∷ rest) live = left_after rest (o ∷ live)
left_after (destroys o ∷ rest) live = left_after rest (without o live)

-- Every call that `bounded_buf_init` makes succeeds.
abbrev pub AllGood : InitCalls → Type 0
AllGood c = (c.mutex_status ≡ 0) × (c.full_status ≡ 0) × (c.empty_status ≡ 0) × (c.allocates ≡ true)

pub record IsPrepared (c : InitCalls) (raw : BoundedBuf) (sz : ℕ) : Type 0 where
  pub good :
      AllGood c
      → ((bounded_buf_init c raw sz).status ≡ 0)
        × (left_after (bounded_buf_init c raw sz).actions [] ≡ not_empty ∷ not_full ∷ mutex ∷ [])
        × Holds (bounded_buf_init c raw sz).bbuf []
  pub bad :
      ¬ AllGood c
      → ((bounded_buf_init c raw sz).status ≢ 0)
        × (left_after (bounded_buf_init c raw sz).actions [] ≡ [])

module _ (c : InitCalls) (raw : BoundedBuf) (sz : ℕ) where
  init_good :
      AllGood c
      → ((bounded_buf_init c raw sz).status ≡ 0)
        × (left_after (bounded_buf_init c raw sz).actions [] ≡ not_empty ∷ not_full ∷ mutex ∷ [])
  unfolding bounded_buf_init allocate
  init_good (m, f, e, a) = (ground (arith, m, f, e, a), ground (arith, m, f, e, a))

  init_bad :
      ¬ AllGood c
      → ((bounded_buf_init c raw sz).status ≢ 0)
        × (left_after (bounded_buf_init c raw sz).actions [] ≡ [])
  unfolding bounded_buf_init allocate
  init_bad bad = (ground (arith, bad), ground (arith, bad))

-- For a size from 1 to 2^31 - 1: if the initialisations and `malloc` succeed, `bounded_buf_init`
-- returns 0 and leaves an empty buffer and three live objects; if one of them fails, it returns
-- another status and every object that it has initialised is destroyed.
pub init-IsPrepared :
    (c : InitCalls) (raw : BoundedBuf) (sz : ℕ) → 0 < sz → sz < cells_max → IsPrepared c raw sz
init-IsPrepared c raw sz pos fits = record {
  good = λ g.
      let (status, live) = init_good c raw sz g in
      (status, live, init-Holds raw sz c pos fits g.0 g.1 g.2 g.3);
  bad = init_bad c raw sz;
}
