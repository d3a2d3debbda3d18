-- ===== src/Memcached/Parse.antt =====
-- concurrency-bugs/memcached-127/client.c: reading back the decimal numbers that the server prints.
use benchamel.Base.{
  ℕ, ◌^◌, ◌<◌, ◌≤◌, ◌≡◌, refl, ap, ◌∙◌, true, false, some, [], ◌∷◌, ◌++◌, arith, Bytes, append-nil,
}
use mathlib.Core.Path.{subst}
use benchamel.Libc.{is_space, is_digit}
use benchamel.Libc.Decimal.{read_decimal, IsDigits}
use benchamel.Httrack.Http.{scan_blank}
use benchamel.Memcached.Numbers.{
  digits, sign, unsigned, signed, scan_digits, scan_signed, scan_unsigned, atoi,
}

abbrev pub EndsDigits : Bytes → Type 0
EndsDigits [] = Unit
EndsDigits (c ∷ s) = is_digit c ≡ false

is_digit-true : (c : ℕ) → (b'0' ≤ c) × (c ≤ b'9') → is_digit c ≡ true
unfolding is_digit
is_digit-true c h = ground (arith, h)

digit-not_space : (c : ℕ) → (b'0' ≤ c) × (c ≤ b'9') → is_space c ≡ false
unfolding is_space
digit-not_space c h = ground (arith, h)

pub digits-append :
    (ds rest : Bytes) → IsDigits ds → EndsDigits rest → digits (ds ++ rest) ≡ (ds, rest)
unfolding digits
digits-append [] [] h e = refl
digits-append [] (c ∷ rest) h e = rw e refl
digits-append (d ∷ ds) rest h e = rw (digits-append ds rest h.1 e, is_digit-true d h.0) refl

digits-whole : (ds : Bytes) → IsDigits ds → digits ds ≡ (ds, [])
digits-whole ds h = subst (λ s. digits s ≡ (ds, [])) (append-nil ds) (digits-append ds [] h tt)

sign-digit : (c : ℕ) (s : Bytes) → (b'0' ≤ c) × (c ≤ b'9') → sign (c ∷ s) ≡ (false, c ∷ s)
unfolding sign
sign-digit c s h = ground (arith, h)

unsigned_small : (n : ℕ) → n < 2 ^ 64 → unsigned false n ≡ n
unfolding unsigned
unsigned_small n h = ground (arith, h)

signed_small : (n : ℕ) → n < 2 ^ 31 → signed false n ≡ n
unfolding signed
signed_small n h = ground (arith, h)

scan_blank-digit : (d : ℕ) (s : Bytes) → (b'0' ≤ d) × (d ≤ b'9') → scan_blank (b' ' ∷ d ∷ s) ≡ d ∷ s
unfolding scan_blank is_space
scan_blank-digit d s h = ground (arith, h)

pub scan_unsigned-digits :
    (d : ℕ) (ds rest : Bytes)
    → IsDigits (d ∷ ds)
    → EndsDigits rest
    → read_decimal 0 (d ∷ ds) < 2 ^ 64
    → scan_unsigned (b' ' ∷ d ∷ ds ++ rest) ≡ some (read_decimal 0 (d ∷ ds), rest)
unfolding scan_unsigned
scan_unsigned-digits d ds rest h e small =
    ap scan_signed (ap sign (scan_blank-digit d (ds ++ rest) h.0) ∙ sign-digit d (ds ++ rest) h.0)
    ∙ (ap (scan_digits false) (digits-append (d ∷ ds) rest h e)
        ∙ ap (λ n. some (n, rest)) (unsigned_small _ small))

pub atoi-digits :
    (d : ℕ) (ds : Bytes)
    → IsDigits (d ∷ ds)
    → read_decimal 0 (d ∷ ds) < 2 ^ 31
    → atoi (d ∷ ds) ≡ read_decimal 0 (d ∷ ds)
unfolding atoi scan_blank
atoi-digits d ds h small =
    rw (digit-not_space d h.0, sign-digit d ds h.0, digits-whole (d ∷ ds) h) (signed_small _ small)
