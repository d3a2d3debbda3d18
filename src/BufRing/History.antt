-- ===== src/BufRing/History.antt =====
-- buf_ring/buf_ring.h with both fixes: an earlier state of the call that a thread is in.
use benchamel.Base.{
  ℕ, ◌≤◌, ◌≡◌, ◌≢◌, update_same, update_other, ap, ◌∙◌, sym, false, arith, Reach, here, next,
}
use mathlib.Core.Path.{subst}
use native.Mathlib.Decide.{ℕ_discrete}
use benchamel.BufRing.{Ring}
use benchamel.BufRing.Index.{both_fixes}
use benchamel.BufRing.Threads.{
  Pc, enq, deq, Move, System, Step, enqueue, dequeue, move, is_between, init,
}
use benchamel.BufRing.Safety.{Step-claims}

-- Steps of any threads, through which thread `i` stays in one call.
abbrev pub During : ℕ → System → System → Type 0
During i = Reach (λ u v. Step both_fixes u v × (is_between (v.pc i) ≡ false))

-- An earlier state of the same call of thread `i`, in which `P` held.
pub record Earlier (P : System → Type 0) (m : Ring) (i : ℕ) (s : System) : Type 0 where
  pub then : System
  pub reached : Reach (Step both_fixes) (init m) then
  pub begun : is_between (then.pc i) ≡ false
  pub lasts : During i then s
  pub held : P then

-- What thread `i` has done last when it stands at `q`, which is inside a call and not its start.
module _ (m : Ring) (i : ℕ) (q : Pc) (P : System → Type 0) (inside : is_between q ≡ false)
    (not_enq : (b : ℕ) → enq b ≢ q) (not_deq : deq ≢ q)
    (into : (s : System) (m' : Ring) (p : Pc)
      → Move both_fixes s.mem (s.pc i) m' p
      → p ≡ q
      → P s × (is_between (s.pc i) ≡ false)) where
  pub last_seen : {s : System} → Reach (Step both_fixes) (init m) s → s.pc i ≡ q → Earlier P m i s
  last_seen here e = absurd (cc (ap is_between e, inside))
  last_seen (next {t = s} r (enqueue j b free)) e = elim (ℕ_discrete j i) [
    | yes same ↦ absurd (not_enq b (sym (update_same s.pc j i (enq b) same) ∙ e))
    | no other ↦
        let v = last_seen r (sym (update_other s.pc j i (enq b) other) ∙ e) in
        record {
          then = v.then;
          reached = v.reached;
          begun = v.begun;
          lasts = next v.lasts (enqueue j b free, ap is_between e ∙ inside);
          held = v.held;
        }
  ]
  last_seen (next {t = s} r (dequeue j free)) e = elim (ℕ_discrete j i) [
    | yes same ↦ absurd (not_deq (sym (update_same s.pc j i deq same) ∙ e))
    | no other ↦
        let v = last_seen r (sym (update_other s.pc j i deq other) ∙ e) in
        record {
          then = v.then;
          reached = v.reached;
          begun = v.begun;
          lasts = next v.lasts (dequeue j free, ap is_between e ∙ inside);
          held = v.held;
        }
  ]
  last_seen (next {t = s} r (move j {m = m'} {p = p} mv)) e = elim (ℕ_discrete j i) [
    | yes same ↦
        let mine = subst (λ k. Move both_fixes s.mem (s.pc k) m' p) same mv in
        let (held, begun) = into s m' p mine (sym (update_same s.pc j i p same) ∙ e) in
        record {
          then = s;
          reached = r;
          begun = begun;
          lasts = next here (move j mv, ap is_between e ∙ inside);
          held = held;
        }
    | no other ↦
        let v = last_seen r (sym (update_other s.pc j i p other) ∙ e) in
        record {
          then = v.then;
          reached = v.reached;
          begun = v.begun;
          lasts = next v.lasts (move j mv, ap is_between e ∙ inside);
          held = v.held;
        }
  ]

pub During-claims : (i : ℕ) (u v : System) → During i u v → u.claims ≤ v.claims
During-claims i u v here = omega arith
During-claims i u v (next {t = w} d (st, inside)) =
    omega (arith, During-claims i u w d, Step-claims st)
