-- ===== src/Memcached.antt =====
-- concurrency-bugs/memcached-127/client.c: the client that increments a counter from several
-- threads and checks the sum.
-- A socket holds the bytes that the server will send, until it closes or fails, how many of them
-- the operating system offers to each `recv` at most, and what each `send` gives: `none` is an
-- error. A list that has run out is a call that never returns.
pub mod Numbers
pub mod Sockets
pub mod Parse
pub mod Whole
pub mod Verdict
pub mod Bounds
mod Tests
use benchamel.Base.{
  ℕ, zero, suc, ◌+◌, ◌-◌, ◌*◌, ◌%◌, ◌^◌, Bool, true, false, Option, none, some, List, [], ◌∷◌, ◌++◌,
  Bytes, codes, length, take, drop, ltb, ◌==◌, if◌then◌else◌, min,
}
use benchamel.Base.Outcome.{Outcome, returns, aborts, exits, unfinished, ◌>>=◌}
use benchamel.Libc.{strncmp_eq, c_str}
use benchamel.Libc.Decimal.{decimal}
use benchamel.Memcached.Numbers.{scan_value, atoi}

pub record Socket : Type 0 where
  pub incoming : Bytes
  pub offers : List ℕ
  pub sends : List (Option ℕ)
  pub outgoing : Bytes

-- What each connection is, or `none` where `mc_connect` fails.
unfoldable pub mc_connect : Option Socket → Outcome Socket
mc_connect none = exits 1
mc_connect (some fd) = returns fd

-- `n` bytes are taken, at most those there are; `n <= 0` ends the process.
unfoldable pub sends_all : List (Option ℕ) → Bytes → Bytes → Outcome (List (Option ℕ) × Bytes)
sends_all sends [] out = returns (sends, out)
sends_all [] (b ∷ buf) out = unfinished
sends_all (none ∷ sends) (b ∷ buf) out = exits 1
sends_all (some zero ∷ sends) (b ∷ buf) out = exits 1
sends_all (some (suc n) ∷ sends) (b ∷ buf) out =
    sends_all sends (drop n buf) (out ++ b ∷ take n buf)

unfoldable pub send_all : Socket → Bytes → Outcome Socket
send_all fd buf = do
  r ← sends_all fd.sends buf fd.outgoing
  returns (record fd { sends = r.0; outgoing = r.1 })

-- One `recv` of one byte for each round; the rounds are `buflen - 1`.
unfoldable pub line_from : ℕ → Bytes → Outcome (Bytes × Bytes)
line_from zero s = returns ([], s)
line_from (suc n) [] = exits 1
line_from (suc n) (c ∷ s) =
    let rest = line_from n s in
    if c == b'\n' then returns (c ∷ [], s) else (do r ← rest; returns (c ∷ r.0, r.1))

-- The text before the closing NUL, and the socket.
unfoldable pub recv_line : Socket → ℕ → Outcome (Bytes × Socket)
recv_line fd buflen = do
  r ← line_from (buflen - 1) fd.incoming
  returns (r.0, record fd { incoming = r.1 })

-- `recv` gives at most `len` bytes of those that are there, at least one; 0 means closed.
unfoldable pub exact_from : List ℕ → Bytes → ℕ → Outcome (Bytes × Bytes × List ℕ)
exact_from offers s zero = returns ([], s, offers)
exact_from [] s (suc len) = unfinished
exact_from (n ∷ offers) [] (suc len) = exits 1
exact_from (n ∷ offers) (c ∷ s) (suc len) = do
  r ← exact_from offers (drop (min n len) s) (len - min n (min len (length s)))
  returns ((c ∷ take (min n len) s) ++ r.0, r.1, r.2)

-- The bytes written from `buf` on, and the socket.
unfoldable pub recv_exact : Socket → ℕ → Outcome (Bytes × Socket)
recv_exact fd len = do
  r ← exact_from fd.offers fd.incoming len
  returns (r.0, record fd { incoming = r.1; offers = r.2 })

-- The commands. A command longer than its buffer would be cut by `snprintf` and then read past; the
-- texts here are shorter.
abbrev pub set_command : Bytes → Bytes → Bytes
set_command key value =
    codes "set "
    ++ (key
        ++ (codes " 0 0 " ++ (decimal (length value) ++ (codes "\r\n" ++ (value ++ codes "\r\n")))))

abbrev pub incr_command : Bytes → ℕ → Bytes
incr_command key step = codes "incr " ++ (key ++ (codes " " ++ (decimal step ++ codes "\r\n")))

abbrev pub get_command : Bytes → Bytes
get_command key = codes "get " ++ (key ++ codes "\r\n")

unfoldable pub mc_set : Socket → Bytes → Bytes → Outcome Socket
mc_set fd key value = do
  fd1 ← send_all fd (set_command key value)
  r ← recv_line fd1 64
  if strncmp_eq (c_str (r.0)) (codes "STORED") 6 then returns r.1 else exits 1

unfoldable pub mc_incr : Socket → Bytes → ℕ → Outcome Socket
mc_incr fd key step = do
  fd1 ← send_all fd (incr_command key step)
  r ← recv_line fd1 64
  if strncmp_eq (c_str (r.0)) (codes "NOT_FOUND") 9 then exits 1 else returns r.1

-- What `mc_get` leaves: the text in `valbuf`, and how many bytes from `valbuf` on it has written
-- (the closing NUL aside).
pub record Got : Type 0 where
  pub text : Bytes
  pub written : ℕ

-- the end of `mc_get`: the value of `bytes` bytes, the line break behind it, and the line "END"
unfoldable pub get_value : Socket → ℕ → ℕ → Outcome (Option Got × Socket)
get_value fd bytes valbuflen =
    let limit = (valbuflen + 2 ^ 64 - 1) % 2 ^ 64 in
    let to_copy = if ltb bytes limit then bytes else limit in
    (do
      r ← recv_exact fd bytes
      s ← recv_exact r.1 2
      t ← recv_line s.1 256
      returns (some (record { text = c_str (take to_copy r.0); written = length (r.0) }), t.1))

abbrev pub parsed_value : Socket → Option ℕ → ℕ → Outcome (Option Got × Socket)
parsed_value fd none valbuflen = exits 1
parsed_value fd (some bytes) valbuflen = get_value fd bytes valbuflen

-- `none` is -1.
unfoldable pub read_reply : Bytes → Socket → ℕ → Outcome (Option Got × Socket)
read_reply line fd valbuflen =
    if strncmp_eq line (codes "END") 3
    then returns (none, fd)
    else (if strncmp_eq line (codes "VALUE") 5
        then parsed_value fd (scan_value line) valbuflen
        else exits 1)

unfoldable pub mc_get : Socket → Bytes → ℕ → Outcome (Option Got × Socket)
mc_get fd key valbuflen = do
  fd1 ← send_all fd (get_command key)
  r ← recv_line fd1 256
  read_reply (c_str r.0) r.1 valbuflen

-- The parameters, as the program starts with them.
abbrev pub g_key : Bytes
g_key = codes "test"

pub record Options : Type 0 where
  pub g_loop : ℕ
  pub g_threads : ℕ
  pub g_step : ℕ

abbrev pub defaults : Options
defaults = record { g_loop = 1; g_threads = 2; g_step = 10 }

pub increments : ℕ → ℕ → Socket → Outcome Socket
increments zero step fd = returns fd
increments (suc n) step fd = do fd' ← mc_incr fd g_key step; increments n step fd'

unfoldable pub worker : Options → Option Socket → Outcome Socket
worker o c = do fd ← mc_connect c; increments o.g_loop o.g_step fd

-- the connection that `client_start` opens before it starts the threads
unfoldable pub client_start : Option Socket → Outcome Socket
client_start c = do fd ← mc_connect c; mc_set fd g_key (codes "0")

-- An `int` is the number modulo 2^32 of its representation.
abbrev pub expected : Options → ℕ
expected o = o.g_threads * o.g_loop * o.g_step % 2 ^ 32

abbrev pub judge : Options → Option Got × Socket → Outcome (Unit {0})
judge o (none, fd) = exits 1
judge o (some got, fd) = if expected o == atoi got.text then exits 0 else aborts

-- `client_join`, once the threads have been joined
unfoldable pub client_join : Options → Option Socket → Outcome (Unit {0})
client_join o c = do fd ← mc_connect c; r ← mc_get fd g_key 64; judge o r
