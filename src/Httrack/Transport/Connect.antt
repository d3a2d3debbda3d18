-- ===== src/Httrack/Transport/Connect.antt =====
-- `connect_with_retry`: which attempt is used.
use benchamel.Base.{
  ℕ, zero, suc, ◌+◌, ◌<◌, ◌≡◌, ap, sym, ◌∙◌, inl, inr, Option, none, some, arith, Option-cases,
}
use mathlib.Core.Path.{subst}
use benchamel.Httrack.Transport.{Connection, Network, connect_once, connect_with_retry}

-- Of the next `tries` attempts the first that succeeds is used, and no later one is made; if none
-- succeeds, the call fails after exactly `tries` attempts.
abbrev pub Connects : ℕ → Network → Option Connection × Network → Type 0
Connects tries net (some c, net') =
    (k : ℕ) × (k < tries)
    × (net.attempts (net.at + k) ≡ some c)
    × ((j : ℕ) → j < k → net.attempts (net.at + j) ≡ none)
    × (net' ≡ record net { at = net.at + k + 1 })
Connects tries net (none, net') =
    ((j : ℕ) → j < tries → net.attempts (net.at + j) ≡ none)
    × (net' ≡ record net { at = net.at + tries })

Connects-later :
    (tries : ℕ) (net : Network) (r : Option Connection × Network)
    → net.attempts net.at ≡ none
    → Connects tries (record net { at = net.at + 1 }) r
    → Connects (suc tries) net r
Connects-later tries net (some c, net') e (k, lt, hit, miss, same) = (
  suc k,
  omega arith,
  ap net.attempts (omega arith) ∙ hit,
  first_too,
  same ∙ ap (λ n. record net { at = n }) (omega arith),
)
  where
    first_too : (j : ℕ) → j < suc k → net.attempts (net.at + j) ≡ none
    first_too zero h = ap net.attempts (omega arith) ∙ e
    first_too (suc j) h = ap net.attempts (omega arith) ∙ miss j (omega arith)
Connects-later tries net (none, net') e (miss, same) =
    (first_too, same ∙ ap (λ n. record net { at = n }) (omega arith))
  where
    first_too : (j : ℕ) → j < suc tries → net.attempts (net.at + j) ≡ none
    first_too zero h = ap net.attempts (omega arith) ∙ e
    first_too (suc j) h = ap net.attempts (omega arith) ∙ miss j (omega arith)

connect_again :
    (tries : ℕ) (net : Network)
    → net.attempts net.at ≡ none
    → connect_with_retry (suc tries) net ≡ connect_with_retry tries (record net { at = net.at + 1 })
unfolding connect_with_retry connect_once
connect_again tries net e = ground (arith, e)

connect_at_once :
    (tries : ℕ) (net : Network) (c : Connection)
    → net.attempts net.at ≡ some c
    → connect_with_retry (suc tries) net ≡ (some c, record net { at = net.at + 1 })
unfolding connect_with_retry connect_once
connect_at_once tries net c e = ground (arith, e)

-- The first of the next `tries` attempts that succeeds is used and no later one is made; if none
-- succeeds, the call fails after exactly `tries` attempts.
pub connect_with_retry-Connects :
    (tries : ℕ) (net : Network) → Connects tries net (connect_with_retry tries net)
connect_with_retry-Connects zero net =
    unfold connect_with_retry in (λ j h. elim h [ ], ap (λ n. record net { at = n }) (omega arith))
connect_with_retry-Connects (suc tries) net = elim (Option-cases (net.attempts net.at)) [
  | inl e ↦ subst (Connects (suc tries) net) (sym (connect_again tries net e)) (
      Connects-later tries net _ e
        (connect_with_retry-Connects tries (record net { at = net.at + 1 })))
  | inr (c, e) ↦ subst (Connects (suc tries) net) (sym (connect_at_once tries net c e)) (
    0,
    omega arith,
    ap net.attempts (omega arith) ∙ e,
    λ j h. elim h [ ],
    ap (λ n. record net { at = n }) (omega arith),
  )
]

-- If the k-th of the next attempts is the first to succeed, it is the one that is used.
pub connect_with_retry_first :
    (tries k : ℕ) (net : Network) (c : Connection)
    → k < tries
    → net.attempts (net.at + k) ≡ some c
    → ((j : ℕ) → j < k → net.attempts (net.at + j) ≡ none)
    → connect_with_retry tries net ≡ (some c, record net { at = net.at + k + 1 })
connect_with_retry_first zero k net c h hit miss = elim h [ ]
connect_with_retry_first (suc tries) zero net c h hit miss =
    connect_at_once tries net c (ap net.attempts (omega arith) ∙ hit)
    ∙ ap (λ n. (some c, record net { at = n })) (omega arith)
connect_with_retry_first (suc tries) (suc k) net c h hit miss =
    connect_again tries net (ap net.attempts (omega arith) ∙ miss 0 (omega arith))
    ∙ (connect_with_retry_first tries k (record net { at = net.at + 1 }) c (omega arith)
          (ap net.attempts (omega arith) ∙ hit)
          (λ j lt. ap net.attempts (omega arith) ∙ miss (suc j) (omega arith))
        ∙ ap (λ n. (some c, record net { at = n })) (omega arith))

pub connect_with_retry_never :
    (tries : ℕ) (net : Network)
    → ((j : ℕ) → j < tries → net.attempts (net.at + j) ≡ none)
    → connect_with_retry tries net ≡ (none, record net { at = net.at + tries })
connect_with_retry_never zero net miss =
    unfold connect_with_retry in ap (λ n. (none, record net { at = n })) (omega arith)
connect_with_retry_never (suc tries) net miss =
    connect_again tries net (ap net.attempts (omega arith) ∙ miss 0 (omega arith))
    ∙ (connect_with_retry_never tries (record net { at = net.at + 1 })
          (λ j lt. ap net.attempts (omega arith) ∙ miss (suc j) (omega arith))
        ∙ ap (λ n. (none, record net { at = n })) (omega arith))
