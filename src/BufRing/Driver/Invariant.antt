-- ===== src/BufRing/Driver/Invariant.antt =====
-- buf_ring/test.c: where a message can be.
use benchamel.Base.{
  ℕ, ◌+◌, ◌*◌, ◌/◌, ◌%◌, ◌<◌, ◌≤◌, ◌≡◌, ◌≢◌, refl, ap, sym, ◌∙◌, Bool, true, false, Option, none,
  some, arith,
}
use native.Mathlib.Nat.{mul-add-mod_self_right, mod-eq_of_lt, mul-div_cancel, add_right_cancel}
use benchamel.BufRing.Threads.{Pc, idle, enq, enq_read, enq_ready, deq_loaded, deq_turn, dequeued}
use benchamel.BufRing.Driver.{message}

-- The message that a thread has not put into the ring yet.
abbrev pub unsent : Pc → Option ℕ
unsent (enq b) = some b
unsent (enq_read b h) = some b
unsent (enq_ready b h c) = some b
unsent _ = none

-- A thread that has not claimed a cell for the message of its round.
abbrev pub is_early : Pc → Bool
is_early idle = true
is_early (enq b) = true
is_early (enq_read b h) = true
is_early (enq_ready b h c) = true
is_early _ = false

-- The message that a thread has read out and not counted yet.
abbrev pub received : Pc → Option ℕ
received (deq_loaded h n b) = some b
received (deq_turn h n b) = some b
received (dequeued r) = r
received _ = none

pub record Tracks (n : ℕ) (pc : ℕ → Pc) (log : ℕ → ℕ) (claims : ℕ) (taken : ℕ → Option ℕ)
    (round consumed : ℕ → ℕ) : Type 0 where
  pub few : (i : ℕ) → n ≤ i → pc i ≡ idle
  pub start : (i : ℕ) → pc i ≡ idle → round i ≡ 0
  pub own : (i b : ℕ) → unsent (pc i) ≡ some b → b ≡ message n (round i) i
  pub sent :
      (t : ℕ)
      → t < claims
      → (r i : ℕ) × (i < n)
        × (log t ≡ message n r i)
        × (r ≤ round i)
        × (is_early (pc i) ≡ true → r < round i)
  pub distinct : (t u : ℕ) → t < claims → u < claims → log t ≡ log u → t ≡ u
  pub from_ring : (i b : ℕ) → received (pc i) ≡ some b → (t : ℕ) × (taken t ≡ some b)
  pub one_receives : (i j b : ℕ) → received (pc i) ≡ some b → received (pc j) ≡ some b → i ≡ j
  pub counted :
      (b : ℕ)
      → 0 < consumed b
      → (consumed b ≡ 1) × ((t : ℕ) × (taken t ≡ some b)) × ((i : ℕ) → received (pc i) ≢ some b)

pub message_unique :
    (n r i x j : ℕ) → i < n → j < n → message n r i ≡ message n x j → (i ≡ j) × (r ≡ x)
message_unique n r i x j lt lt' e =
    let rest : i ≡ j =
      sym (mul-add-mod_self_right r n i ∙ mod-eq_of_lt lt)
      ∙ (ap (λ (k : ℕ). k % n) e ∙ (mul-add-mod_self_right x n j ∙ mod-eq_of_lt lt')) in
    let rows : r * n ≡ x * n = add_right_cancel i (e ∙ ap (λ (k : ℕ). x * n + k) (sym rest)) in
    let some_row : 0 < n = omega (arith, lt) in
    (
      rest,
      sym (mul-div_cancel r some_row) ∙ (ap (λ (k : ℕ). k / n) rows ∙ mul-div_cancel x some_row),
    )

pub unsent-is_early : (p : Pc) (b : ℕ) → unsent p ≡ some b → is_early p ≡ true
unsent-is_early (enq c) b e = refl
unsent-is_early (enq_read c h) b e = refl
unsent-is_early (enq_ready c h t) b e = refl
unsent-is_early p b e = cc e
