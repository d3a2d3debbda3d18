-- ===== src/Base/Masks.antt =====
-- Masking by `2^k - 1`, which ring buffers use for the index.
use Prim.Native.Nat.{
  ℕ, zero, suc, ◌+◌, ◌-◌, ◌*◌, ◌/◌, ◌%◌, ◌^◌, ◌≤◌, ◌<◌, min, bit_and, digits, bit_and-bitwise,
}
use mathlib.Core.Path.{◌≡◌, refl, sym, ap, ◌∙◌}
use native.Mathlib.Nat.{
  mod-one, mod-lt, div-add-mod, mul-add-mod_self_left, mul_assoc, one-le-pow, mod-add-mod,
  mod-eq-sub-mod, mod-eq_of_lt, two-pow-succ,
}
use native.Mathlib.Decide.{dec_lt}
use native.Mathlib.Omega.{arith}

abbrev masked_digits : ℕ → ℕ → ℕ → ℕ
masked_digits n a b = digits (λ b. zero) min n a b

no_digits : (n a : ℕ) → masked_digits n a 0 ≡ 0
no_digits zero a = refl
no_digits (suc n) zero = refl
no_digits (suc n) (suc a) = omega (arith, no_digits n (suc a / 2))

-- the remainder by `2 m` from that of the half
half_mod : (x m : ℕ) → 0 < m → (x / 2 % m) * 2 + x % 2 ≡ x % (2 * m)
half_mod x m h =
    let q = x / 2 in
    let d = div-add-mod q m in
    let l = mod-lt q h in
    let small = mod-eq_of_lt {n = q % m * 2 + x % 2} {m = 2 * m} (omega (arith, l)) in
    let whole = mul-add-mod_self_left (2 * m) (q / m) (q % m * 2 + x % 2) in
    let e : 2 * m * (q / m) + (q % m * 2 + x % 2) ≡ x = omega (arith, mul_assoc 2 m (q / m), d) in
    sym small ∙ (sym whole ∙ ap (λ k. k % (2 * m)) e)

masked_digits-mod : (n k a : ℕ) → a ≤ n → masked_digits n a (2 ^ k - 1) ≡ a % 2 ^ k
masked_digits-mod n zero a h = omega (arith, no_digits n a, mod-one a)
masked_digits-mod zero (suc k) zero h = omega arith
masked_digits-mod zero (suc k) (suc a) h = absurd (omega arith)
masked_digits-mod (suc n) (suc k) zero h = omega arith
masked_digits-mod (suc n) (suc k) (suc a) h =
    let p = two-pow-succ k in
    let pos = one-le-pow k 2 (omega arith) in
    let b : (2 ^ suc k - 1) / 2 ≡ 2 ^ k - 1 = omega (arith, p, pos) in
    let r : (2 ^ suc k - 1) % 2 ≡ 1 = omega (arith, p, pos) in
    let ih = masked_digits-mod n k (suc a / 2) (omega arith) in
    let half = half_mod (suc a) (2 ^ k) (omega (arith, pos)) in
    let two : 2 ^ suc k ≡ 2 * 2 ^ k = omega (arith, p) in rw (b, r, ih, two) (omega (arith, half))

-- `n & (2^k - 1)`
pub bit_and_mask : (a k : ℕ) → bit_and a (2 ^ k - 1) ≡ a % 2 ^ k
bit_and_mask a k = bit_and-bitwise a (2 ^ k - 1) ∙ masked_digits-mod a k a (omega arith)

-- Numbers less than `n` apart that leave the same remainder are equal.
pub mod_close : (a b n : ℕ) → a ≤ b → b < a + n → a % n ≡ b % n → a ≡ b
mod_close a b n h close e =
    let d = b - a in
    let l = mod-lt a {m = n} (omega arith) in
    let sum : b % n ≡ (a % n + d) % n =
      sym (mod-add-mod a n d ∙ ap (λ (k : ℕ). k % n) (omega arith)) in
    elim (dec_lt (a % n + d) n) [
      | yes p ↦ omega (arith, e, sum, mod-eq_of_lt {n = a % n + d} {m = n} p)
      | no p ↦ omega (
        arith,
        e,
        sum,
        l,
        mod-eq-sub-mod {n = a % n + d} {m = n} (omega arith),
        mod-eq_of_lt {n = a % n + d - n} {m = n} (omega arith),
      )
    ]
