-- ===== src/Memcached/Numbers.antt =====
-- concurrency-bugs/memcached-127/client.c: the numbers that it reads with `sscanf` and `atoi`.
use benchamel.Base.{
  ℕ, ◌-◌, ◌%◌, ◌^◌, Bool, true, false, Option, none, some, [], ◌∷◌, Bytes, ltb, ◌==◌, if◌then◌else◌,
}
use benchamel.Libc.{is_digit}
use benchamel.Libc.Decimal.{read_decimal}
use benchamel.Httrack.Http.{scan_blank, scan_word}

-- The digits at the front, and the text behind them.
unfoldable pub digits : Bytes → Bytes × Bytes
digits [] = ([], [])
digits (c ∷ cs) = let (ds, rest) = digits cs in if is_digit c then (c ∷ ds, rest) else ([], c ∷ cs)

-- A sign, if there is one: is it a minus?
unfoldable pub sign : Bytes → Bool × Bytes
sign [] = (false, [])
sign (c ∷ cs) =
    if c == b'-' then (true, cs) else (if c == b'+' then (false, cs) else (false, c ∷ cs))

-- What `strtoul` returns: a number too large is the largest, and a minus negates modulo 2^64.
unfoldable pub unsigned : Bool → ℕ → ℕ
unsigned minus n =
    if ltb n (2 ^ 64) then (if minus then (2 ^ 64 - n) % 2 ^ 64 else n) else 2 ^ 64 - 1

abbrev pub scan_digits : Bool → Bytes × Bytes → Option (ℕ × Bytes)
scan_digits minus ([], rest) = none
scan_digits minus (d ∷ ds, rest) = some (unsigned minus (read_decimal 0 (d ∷ ds)), rest)

abbrev pub scan_signed : Bool × Bytes → Option (ℕ × Bytes)
scan_signed (minus, t) = scan_digits minus (digits t)

-- `%u` and `%zu`: the value, before it is cut to the type, and the text behind it.
unfoldable pub scan_unsigned : Bytes → Option (ℕ × Bytes)
scan_unsigned s = scan_signed (sign (scan_blank s))

abbrev pub scan_bytes : Option (ℕ × Bytes) → Option ℕ
scan_bytes none = none
scan_bytes (some (n, s)) = some n

abbrev pub scan_flags : Option (ℕ × Bytes) → Option ℕ
scan_flags none = none
scan_flags (some (n, s)) = scan_bytes (scan_unsigned s)

abbrev pub scan_key : Bytes × Bytes → Option ℕ
scan_key ([], s) = none
scan_key (c ∷ cs, s) = scan_flags (scan_unsigned s)

-- `sscanf(line, "VALUE %127s %u %zu", ...)` on a line that begins with "VALUE": the third number, if
-- all three are there.
unfoldable pub scan_value : Bytes → Option ℕ
scan_value (v ∷ a ∷ l ∷ u ∷ e ∷ s) = scan_key (scan_word 127 (scan_blank s))
scan_value _ = none

-- `atoi`, as an `int` modulo 2^32: `strtol` stops at the bounds of a 64-bit number.
unfoldable pub signed : Bool → ℕ → ℕ
signed true n = (2 ^ 64 - (if ltb (2 ^ 63) n then 2 ^ 63 else n)) % 2 ^ 32
signed false n = (if ltb n (2 ^ 63) then n else 2 ^ 63 - 1) % 2 ^ 32

abbrev pub read_signed : Bool × Bytes → ℕ
read_signed (minus, t) = signed minus (read_decimal 0 (digits t).0)

unfoldable pub atoi : Bytes → ℕ
atoi s = read_signed (sign (scan_blank s))
