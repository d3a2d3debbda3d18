-- ===== src/Cherokee/Log.antt =====
-- concurrency-bugs/cherokee-0.9.2/cherokee-client.c: the check of the access log.
use benchamel.Base.{
  ℕ, zero, suc, Bool, true, false, not, ◌&&◌, ◌||◌, Option, none, some, List, [], ◌∷◌, Bytes, codes,
  length, drop, leb, ◌==◌, if◌then◌else◌, ◌>>=◌,
}
use benchamel.Libc.{strstr, strchr, strncmp_eq, c_str}
use benchamel.Cherokee.Sscanf.{Number, scan_int, scan_char, scan_any, scan_letters}
use benchamel.Httrack.Http.{scan_blank}

pub month_names : List Bytes
month_names =
    codes "Jan"
    ∷ codes "Feb"
    ∷ codes "Mar"
    ∷ codes "Apr"
    ∷ codes "May"
    ∷ codes "Jun"
    ∷ codes "Jul"
    ∷ codes "Aug"
    ∷ codes "Sep"
    ∷ codes "Oct"
    ∷ codes "Nov"
    ∷ codes "Dec"
    ∷ []

abbrev pub is_month_of : Bytes → List Bytes → Bool
is_month_of month [] = false
is_month_of month (m ∷ ms) = strncmp_eq month m 3 || is_month_of month ms

unfoldable pub is_valid_month : Bytes → Bool
unfolding month_names
is_valid_month month = is_month_of month month_names

pub record Stamp : Type 0 where
  pub day : Number
  pub month : Bytes
  pub year : Number
  pub hour : Number
  pub minute : Number
  pub second : Number
  pub sign : ℕ
  pub tz_hour : Number
  pub tz_minute : Number

-- `sscanf(open + 2, "%2d/%3[A-Za-z]/%4d:%2d:%2d:%2d %c%2d%2d", ...)`, if all nine are there
unfoldable pub scan_stamp : Bytes → Option Stamp
scan_stamp s = do
  day ← scan_int 2 s
  s1 ← scan_char b'/' day.1
  month ← scan_letters 3 s1
  s2 ← scan_char b'/' month.1
  year ← scan_int 4 s2
  s3 ← scan_char b':' year.1
  hour ← scan_int 2 s3
  s4 ← scan_char b':' hour.1
  minute ← scan_int 2 s4
  s5 ← scan_char b':' minute.1
  second ← scan_int 2 s5
  sign ← scan_any (scan_blank second.1)
  tz_hour ← scan_int 2 sign.1
  tz_minute ← scan_int 2 tz_hour.1
  some (record {
    day = day.0;
    month = month.0;
    year = year.0;
    hour = hour.0;
    minute = minute.0;
    second = second.0;
    sign = sign.0;
    tz_hour = tz_hour.0;
    tz_minute = tz_minute.0;
  })

-- `low <= i`, for a `low` that is not negative
abbrev pub at_least : ℕ → Number → Bool
at_least low i = if i.minus then low == 0 && i.size == 0 else leb low i.size

abbrev pub within : ℕ → ℕ → Number → Bool
within low high i = at_least low i && leb i.size high

unfoldable pub is_valid_stamp : Stamp → Bool
is_valid_stamp t =
    within 1 31 t.day
    && at_least 1970 t.year
    && within 0 23 t.hour
    && within 0 59 t.minute
    && within 0 60 t.second
    && (t.sign == b'+' || t.sign == b'-')
    && within 0 23 t.tz_hour
    && within 0 59 t.tz_minute
    && is_valid_month t.month

abbrev pub stamp_or_not : Option Stamp → Bool
stamp_or_not none = false
stamp_or_not (some t) = is_valid_stamp t

-- `close[1] == ' ' && close[2] == '"'`
abbrev pub is_closed : Option Bytes → Bool
is_closed (some (c ∷ d ∷ e ∷ s)) = d == b' ' && e == b'"'
is_closed _ = false

abbrev pub stamp_at : Option Bytes → Bool
stamp_at none = false
stamp_at (some found) =
    is_closed (strchr (drop 2 found) b']') && stamp_or_not (scan_stamp (drop 2 found))

unfoldable pub line_has_valid_timestamp : Bytes → Bool
line_has_valid_timestamp line = stamp_at (strstr line (codes " ["))

abbrev pub path0 : Bytes
path0 = codes "/images/powered_by_cherokee.png"

abbrev pub path1 : Bytes
path1 = codes "/images/cherokee-logo.png"

abbrev pub is_found : Option Bytes → Bool
is_found none = false
is_found (some s) = true

abbrev pub xor : Bool → Bool → Bool
xor true b = not b
xor false b = b

unfoldable pub line_has_valid_request : Bytes → Bool
line_has_valid_request line =
    xor (is_found (strstr line path0)) (is_found (strstr line path1))
    && is_found (strstr line (codes "\"GET "))
    && is_found (strstr line (codes " HTTP/1.0\" "))

-- `fgets(line, 8192, fp)`: the bytes up to a line break, at most so many, and the rest of the file.
unfoldable pub fgets : ℕ → Bytes → Bytes × Bytes
fgets zero file = ([], file)
fgets (suc n) [] = ([], [])
fgets (suc n) (c ∷ file) =
    let (line, rest) = fgets n file in if c == b'\n' then (c ∷ [], file) else (c ∷ line, rest)

-- The loop over the lines; the rounds are bounded by the bytes of the file.
abbrev pub is_blank_line : Bytes → Bool
is_blank_line [] = true
is_blank_line (c ∷ cs) = c == b'\n'

unfoldable pub lines_corrupt : ℕ → Bool → Bytes → Bool
lines_corrupt zero saw_request file = not saw_request
lines_corrupt (suc n) saw_request [] = not saw_request
lines_corrupt (suc n) saw_request (c ∷ file) =
    let line = c_str (fgets 8191 (c ∷ file)).0 in
    let rest = (fgets 8191 (c ∷ file)).1 in
    let skipped = lines_corrupt n saw_request rest in
    let passed = lines_corrupt n true rest in
    if is_blank_line line
    then skipped
    else (if line_has_valid_timestamp line && line_has_valid_request line then passed else true)

-- an access log that can be opened
unfoldable pub access_log_has_corruption : Bytes → Bool
access_log_has_corruption file = lines_corrupt (length file) false file
