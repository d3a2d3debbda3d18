-- ===== src/Cherokee/Stamps.antt =====
-- concurrency-bugs/cherokee-0.9.2/cherokee-client.c: the lines that the server prints pass the check.
use benchamel.Base.{
  ℕ, zero, suc, ◌+◌, ◌/◌, ◌%◌, ◌<◌, ◌≤◌, ◌≡◌, ◌≢◌, refl, ap, ◌∙◌, ◌⊎◌, ◌*◌, ◌&&◌, Bool, take, drop,
  true, false, some, [], ◌∷◌, ◌++◌, Bytes, codes, arith, Lacks,
}
use benchamel.Libc.{strstr, strchr, strncmp_eq, is_prefix, is_digit, is_space}
use benchamel.Libc.Search.{strchr-append}
use benchamel.Libc.Decimal.{read_decimal}
use benchamel.Httrack.Http.{scan_blank}
use benchamel.Cherokee.Sscanf.{
  Number, int_of, digits_within, signed_within, scan_int, scan_char, is_letter, letters_within,
  scan_letters,
}
use benchamel.Cherokee.Log.{
  Stamp, scan_stamp, is_valid_stamp, is_valid_month, line_has_valid_timestamp, stamp_at,
}

-- `%02d` and `%04d`
abbrev pub two_digits : ℕ → Bytes
two_digits n = (b'0' + n / 10) ∷ (b'0' + n % 10) ∷ []

abbrev pub four_digits : ℕ → Bytes
four_digits n =
    (b'0' + n / 1000) ∷ (b'0' + n / 100 % 10) ∷ (b'0' + n / 10 % 10) ∷ (b'0' + n % 10) ∷ []

abbrev IsDigit : ℕ → Type 0
IsDigit c = (b'0' ≤ c) × (c ≤ b'9')

is_digit-true : (c : ℕ) → IsDigit c → is_digit c ≡ true
unfolding is_digit
is_digit-true c h = ground (arith, h)

scan_int-start :
    (w c : ℕ) (s : Bytes) → IsDigit c → scan_int w (c ∷ s) ≡ int_of false (digits_within w (c ∷ s))
unfolding scan_int signed_within scan_blank is_space
scan_int-start w c s h = ground (arith, h)

digits_within-two :
    (x y : ℕ) (s : Bytes) → IsDigit x → IsDigit y → digits_within 2 (x ∷ y ∷ s) ≡ (x ∷ y ∷ [], s)
unfolding digits_within
digits_within-two x y s h g = rw (is_digit-true x h, is_digit-true y g) refl

digits_within-four :
    (x y z w : ℕ) (s : Bytes)
    → IsDigit x
    → IsDigit y
    → IsDigit z
    → IsDigit w
    → digits_within 4 (x ∷ y ∷ z ∷ w ∷ s) ≡ (x ∷ y ∷ z ∷ w ∷ [], s)
unfolding digits_within
digits_within-four x y z w s h g i j =
    rw (is_digit-true x h, is_digit-true y g, is_digit-true z i, is_digit-true w j) refl

abbrev pub int : ℕ → Number
int n = record { minus = false; size = n }

scan_int-two : (n : ℕ) (s : Bytes) → n < 100 → scan_int 2 (two_digits n ++ s) ≡ some (int n, s)
unfolding read_decimal
scan_int-two n s h =
    scan_int-start 2 _ _ (omega arith)
    ∙ (ap (int_of false) (digits_within-two _ _ s (omega arith) (omega arith))
        ∙ ap (λ k. some (int k, s)) (omega arith))

scan_int-four : (n : ℕ) (s : Bytes) → n < 10000 → scan_int 4 (four_digits n ++ s) ≡ some (int n, s)
unfolding read_decimal
scan_int-four n s h =
    scan_int-start 4 _ _ (omega arith)
    ∙ (ap (int_of false)
          (digits_within-four _ _ _ _ s (omega arith) (omega arith) (omega arith) (omega arith))
        ∙ ap (λ k. some (int k, s)) (omega arith))

scan_letters-three :
    (a b c : ℕ) (s : Bytes)
    → is_letter a ≡ true
    → is_letter b ≡ true
    → is_letter c ≡ true
    → scan_letters 3 (a ∷ b ∷ c ∷ s) ≡ some (a ∷ b ∷ c ∷ [], s)
unfolding scan_letters letters_within
scan_letters-three a b c s h g i = ground (arith, h, g, i)

-- A time stamp as the server prints it, and its fields in range.
pub record Time : Type 0 where
  pub day : ℕ
  pub month0 : ℕ
  pub month1 : ℕ
  pub month2 : ℕ
  pub year : ℕ
  pub hour : ℕ
  pub minute : ℕ
  pub second : ℕ
  pub sign : ℕ
  pub tz_hour : ℕ
  pub tz_minute : ℕ

abbrev pub month : Time → Bytes
month t = t.month0 ∷ t.month1 ∷ t.month2 ∷ []

-- The `%b` of the month with this number, from 0 on
abbrev pub month_text : ℕ → Bytes
month_text n = take 3 (drop (3 * n) (codes "JanFebMarAprMayJunJulAugSepOctNovDec"))

pub record IsTime (t : Time) : Type 0 where
  pub day : (1 ≤ t.day) × (t.day ≤ 31)
  pub is_month : (n : ℕ) × (n < 12) × (month t ≡ month_text n)
  pub year : (1970 ≤ t.year) × (t.year < 10000)
  pub hour : t.hour < 24
  pub minute : t.minute < 60
  pub second : t.second ≤ 60
  pub sign : (t.sign ≡ b'+') ⊎ (t.sign ≡ b'-')
  pub tz_hour : t.tz_hour < 24
  pub tz_minute : t.tz_minute < 60

are_letters : Bytes → Bool
are_letters [] = true
are_letters (c ∷ cs) = is_letter c && are_letters cs

-- Each month is one of the client's, and its text consists of letters.
month_text-good :
    (n : ℕ) → n < 12 → (is_valid_month (month_text n) ≡ true) × (are_letters (month_text n) ≡ true)
unfolding is_valid_month strncmp_eq are_letters
month_text-good zero lt = (refl, refl)
month_text-good (suc zero) lt = (refl, refl)
month_text-good (suc (suc zero)) lt = (refl, refl)
month_text-good (suc (suc (suc zero))) lt = (refl, refl)
month_text-good (suc (suc (suc (suc zero)))) lt = (refl, refl)
month_text-good (suc (suc (suc (suc (suc zero))))) lt = (refl, refl)
month_text-good (suc (suc (suc (suc (suc (suc zero)))))) lt = (refl, refl)
month_text-good (suc (suc (suc (suc (suc (suc (suc zero))))))) lt = (refl, refl)
month_text-good (suc (suc (suc (suc (suc (suc (suc (suc zero)))))))) lt = (refl, refl)
month_text-good (suc (suc (suc (suc (suc (suc (suc (suc (suc zero))))))))) lt = (refl, refl)
month_text-good (suc (suc (suc (suc (suc (suc (suc (suc (suc (suc zero)))))))))) lt = (refl, refl)
month_text-good (suc (suc (suc (suc (suc (suc (suc (suc (suc (suc (suc zero))))))))))) lt =
    (refl, refl)
month_text-good (suc (suc (suc (suc (suc (suc (suc (suc (suc (suc (suc (suc n)))))))))))) lt =
    absurd (omega (arith, lt))

module _ (t : Time) (v : IsTime t) where
  month-valid : is_valid_month (month t) ≡ true
  month-valid = let (n, lt, e) = v.is_month in ap is_valid_month e ∙ (month_text-good n lt).0

  month-letters :
      (is_letter t.month0 ≡ true) × (is_letter t.month1 ≡ true) × (is_letter t.month2 ≡ true)
  unfolding are_letters
  month-letters =
      let (n, lt, e) = v.is_month in
      let all : are_letters (month t) ≡ true = ap are_letters e ∙ (month_text-good n lt).1 in
      (ground (arith, all), ground (arith, all), ground (arith, all))

-- `dd/Mon/yyyy:hh:mm:ss +zzzz`, and what follows
abbrev pub print_tz : Time → Bytes → Bytes
print_tz t s = t.sign ∷ (two_digits t.tz_hour ++ (two_digits t.tz_minute ++ s))

abbrev pub print_clock : Time → Bytes → Bytes
print_clock t s =
    two_digits t.hour
    ++ (b':' ∷ (two_digits t.minute ++ (b':' ∷ (two_digits t.second ++ (b' ' ∷ print_tz t s)))))

abbrev pub print_time : Time → Bytes → Bytes
print_time t s =
    two_digits t.day
    ++ (b'/'
        ∷ t.month0
        ∷ t.month1
        ∷ t.month2
        ∷ b'/'
        ∷ (four_digits t.year ++ (b':' ∷ print_clock t s)))

abbrev pub stamp : Time → Stamp
stamp t = record {
  day = int t.day;
  month = month t;
  year = int t.year;
  hour = int t.hour;
  minute = int t.minute;
  second = int t.second;
  sign = t.sign;
  tz_hour = int t.tz_hour;
  tz_minute = int t.tz_minute;
}

scan_blank-sign : (c : ℕ) (s : Bytes) → (c ≡ b'+') ⊎ (c ≡ b'-') → scan_blank (b' ' ∷ c ∷ s) ≡ c ∷ s
unfolding scan_blank is_space
scan_blank-sign c s h = ground (arith, h)

-- Scanning the printed time gives its fields back.
scan_stamp-print_time :
    (t : Time) (s : Bytes) → IsTime t → scan_stamp (print_time t s) ≡ some (stamp t)
unfolding scan_stamp scan_char
scan_stamp-print_time t s v =
    let l = month-letters t v in
    rw
      (
        scan_int-two t.day _ (omega (arith, v.day)),
        scan_letters-three t.month0 t.month1 t.month2 _ l.0 l.1 l.2,
        scan_int-four t.year _ v.year.1,
        scan_int-two t.hour _ (omega (arith, v.hour)),
        scan_int-two t.minute _ (omega (arith, v.minute)),
        scan_int-two t.second _ (omega (arith, v.second)),
        scan_blank-sign t.sign (two_digits t.tz_hour ++ (two_digits t.tz_minute ++ s)) v.sign,
        scan_int-two t.tz_hour _ (omega (arith, v.tz_hour)),
        scan_int-two t.tz_minute s (omega (arith, v.tz_minute)),
      )
      refl

is_valid_stamp-stamp : (t : Time) → IsTime t → is_valid_stamp (stamp t) ≡ true
unfolding is_valid_stamp
is_valid_stamp-stamp t v = ground (
  arith,
  v.day,
  month-valid t v,
  v.year,
  v.hour,
  v.minute,
  v.second,
  v.sign,
  v.tz_hour,
  v.tz_minute,
)

letter-not_bracket : (c : ℕ) → is_letter c ≡ true → c ≢ b']'
letter-not_bracket c h = λ e. absurd (ground (arith, h, e))

print_time-Lacks : (t : Time) → IsTime t → Lacks b']' (print_time t [])
print_time-Lacks t v =
    let l = month-letters t v in
    let l0 = letter-not_bracket t.month0 l.0 in
    let l1 = letter-not_bracket t.month1 l.1 in
    let l2 = letter-not_bracket t.month2 l.2 in
    omega
      (arith, l0, l1, l2, v.day, v.year, v.hour, v.minute, v.second, v.sign, v.tz_hour, v.tz_minute)

-- The first " [" is where the bracket is, if there is none before.
strstr-bracket :
    (before s : Bytes)
    → Lacks b'[' before
    → strstr (before ++ codes " [" ++ s) (codes " [") ≡ some (codes " [" ++ s)
unfolding strstr is_prefix
strstr-bracket [] s h = refl
strstr-bracket (c ∷ []) s h = ground (arith, h.0)
strstr-bracket (c ∷ d ∷ before) s h = rw (strstr-bracket (d ∷ before) s h.1) (ground (arith, h.1.0))

-- A line of the access log with a time stamp whose numbers are in range and whose month is one of the
-- twelve English abbreviations, behind text without an opening bracket and
-- before the quoted request, has a valid time stamp for the client.
pub line_has_valid_timestamp-print_time :
    (before rest : Bytes) (t : Time)
    → Lacks b'[' before
    → IsTime t
    → line_has_valid_timestamp (before ++ codes " [" ++ print_time t (codes "] \"" ++ rest)) ≡ true
unfolding line_has_valid_timestamp strchr
line_has_valid_timestamp-print_time before rest t h v =
    ap stamp_at (strstr-bracket before (print_time t (codes "] \"" ++ rest)) h)
    ∙ rw
        (
          strchr-append (print_time t []) (codes "] \"" ++ rest) b']' (print_time-Lacks t v),
          scan_stamp-print_time t (codes "] \"" ++ rest) v,
        )
        (is_valid_stamp-stamp t v)
