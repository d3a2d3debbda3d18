-- ===== src/BufRing/Index.antt =====
-- buf_ring/buf_ring.h: the arithmetic of the indices with both fixes, as long as no counter wraps.
use Prim.Native.Nat.{bit_and}
use benchamel.Base.{
  ℕ, zero, suc, ◌+◌, ◌-◌, ◌%◌, ◌^◌, ◌<◌, ◌≤◌, ◌≡◌, ap, sym, ◌∙◌, true, false, arith, ◌==◌,
}
use benchamel.Base.Masks.{bit_and_mask}
use native.Mathlib.Nat.{
  mod-lt, mod-add-mod, mod-mod_of_dvd, dvd_refl, dvd-add, two-pow-succ, pow-le-pow_right,
}
use mathlib.Core.Path.{subst}
use native.Mathlib.Decide.{dec_lt}
use Prim.Native.Nat.{◌∣◌}
use benchamel.BufRing.{Fixes, Ring, next_of, is_full, slot_of}

abbrev pub both_fixes : Fixes
both_fixes = record { bugfix1 = true; bugfix2 = true }

-- A ring of 2^k cells.
pub record IsSized (k : ℕ) (m : Ring) : Type 0 where
  pub size : m.size ≡ 2 ^ k
  pub mask : m.mask ≡ 2 ^ k - 1
  pub small : m.size < 2 ^ 31
  pub some_cell : 0 < m.size

pub next_of_small : (m : Ring) (t : ℕ) → t + 1 < 2 ^ 32 → next_of both_fixes m t ≡ t + 1
unfolding next_of
next_of_small m t h = omega arith

pub slot_of-mod : (k : ℕ) (m : Ring) (t : ℕ) → IsSized k m → slot_of both_fixes m t ≡ t % m.size
unfolding slot_of
slot_of-mod k m t v =
    ap (bit_and t) v.mask ∙ (bit_and_mask t k ∙ ap (λ (n : ℕ). t % n) (sym v.size))

pub is_full-size :
    (m : Ring) (t c : ℕ) → c ≤ t → t < 2 ^ 32 → is_full both_fixes m t c ≡ (t - c == m.size)
unfolding is_full
is_full-size m t c h g = ap (λ n. n == m.size) (omega arith)

-- A head that was read long ago never looks full.
pub is_full_stale :
    (m : Ring) (t c : ℕ) → t < c → c < 2 ^ 31 → m.size < 2 ^ 31 → is_full both_fixes m t c ≡ false
unfolding is_full
is_full_stale m t c h g l = ground arith

abbrev pub no_fix : Fixes
no_fix = record { bugfix1 = false; bugfix2 = false }

-- The index that a fresh ring without the fixes has after `t` steps.
unfoldable pub wrapped : Ring → ℕ → ℕ
wrapped m zero = 0
wrapped m (suc t) = next_of no_fix m (wrapped m t)

wrapped-mod : (k : ℕ) (m : Ring) (t : ℕ) → IsSized k m → wrapped m t ≡ t % m.size
unfolding next_of wrapped
wrapped-mod k m zero v = omega (arith, v.some_cell)
wrapped-mod k m (suc t) v =
    let before = wrapped-mod k m t v in
    let small = mod-lt t v.some_cell in
    ap (λ n. bit_and n m.mask) {y = t % m.size + 1} (omega (arith, before, small, v.small))
    ∙ (ap (bit_and (t % m.size + 1)) v.mask
        ∙ (bit_and_mask (t % m.size + 1) k
            ∙ (ap (λ (n : ℕ). (t % m.size + 1) % n) (sym v.size)
                ∙ (mod-add-mod t m.size 1 ∙ ap (λ (n : ℕ). n % m.size) {x = t + 1} (omega arith)))))

-- The counter that a fresh ring with both fixes has after `t` steps. It wraps at 2^32.
unfoldable pub counter : Ring → ℕ → ℕ
counter m zero = 0
counter m (suc t) = next_of both_fixes m (counter m t)

counter-mod : (m : Ring) (t : ℕ) → counter m t ≡ t % 2 ^ 32
unfolding next_of counter
counter-mod m zero = omega arith
counter-mod m (suc t) =
    ap (λ n. (n + 1) % 2 ^ 32) (counter-mod m t)
    ∙ (mod-add-mod t (2 ^ 32) 1 ∙ ap (λ n. n % 2 ^ 32) {x = t + 1} (omega arith))

divides_power : (k j : ℕ) → 2 ^ k ∣ 2 ^ (j + k)
divides_power k zero =
    subst (λ n. 2 ^ k ∣ 2 ^ n) {x = k} {y = zero + k} (omega arith) (dvd_refl (2 ^ k))
divides_power k (suc j) =
    subst (λ n. 2 ^ k ∣ n)
      (sym (two-pow-succ (j + k)) ∙ ap (λ n. 2 ^ n) {x = suc (j + k)} (omega arith))
      (dvd-add (2 ^ k) (divides_power k j) (divides_power k j))

divides_word : (k : ℕ) → 2 ^ k < 2 ^ 31 → 2 ^ k ∣ 2 ^ 32
divides_word k lt = elim (dec_lt k 31) [
  | yes less ↦
      subst (λ n. 2 ^ k ∣ 2 ^ n) {x = 32 - k + k} {y = 32} (omega (arith, less))
        (divides_power k (32 - k))
  | no ge ↦
      let le = pow-le-pow_right {n = 2} (omega arith) {i = 31} {j = k} (omega (arith, ge)) in
      absurd (omega (arith, le, lt))
]

-- In a ring of 2^k cells, the index of the code without the fixes, which wraps at the size at every
-- step, and the counter of the code with them, which wraps at 2^32 and is masked at every use,
-- address the same cell after any number of steps.
pub wrapped_slots :
    (k : ℕ) (m : Ring) (t : ℕ)
    → IsSized k m
    → slot_of no_fix m (wrapped m t) ≡ slot_of both_fixes m (counter m t)
unfolding slot_of
wrapped_slots k m t v =
    wrapped-mod k m t v
    ∙ ap (λ (n : ℕ). t % n) v.size
    ∙ sym (mod-mod_of_dvd (2 ^ k) t (divides_word k (omega (arith, v.size, v.small))))
    ∙ ap (λ n. n % 2 ^ k) (sym (counter-mod m t))
    ∙ ap (λ (n : ℕ). counter m t % n) (sym v.size)
    ∙ sym (slot_of-mod k m (counter m t) v)
