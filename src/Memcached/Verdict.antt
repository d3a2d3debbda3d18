-- ===== src/Memcached/Verdict.antt =====
-- concurrency-bugs/memcached-127/client.c: what `client_join` concludes from the server's reply.
use benchamel.Base.{
  ℕ, ◌+◌, ◌*◌, ◌%◌, ◌^◌, ◌<◌, ◌≤◌, ◌≡◌, ◌≢◌, refl, sym, ap, ◌∙◌, Option, some, List, [], ◌∷◌, ◌++◌,
  arith, Bytes, codes, length, All, All-append, Lacks, ◌==◌, if◌then◌else◌, length-append,
  append_assoc,
}
use benchamel.Base.Outcome.{returns, aborts, exits}
use benchamel.Libc.{c_str, strncmp_eq}
use benchamel.Libc.Search.{c_str-Lacks}
use benchamel.Libc.Decimal.{
  decimal, read_decimal, read_decimal-decimal, IsDigits, decimal-IsDigits, length-decimal,
}
use benchamel.Memcached.Numbers.{scan_value, atoi}
use benchamel.Memcached.{
  Socket, send_all, recv_line, get_value, Options, client_join, mc_get, get_command, g_key,
  read_reply, parsed_value, mc_connect,
}
use benchamel.Memcached.Sockets.{Takes, sends_all_whole, line_from_line}
use benchamel.Memcached.Parse.{atoi-digits}
use benchamel.Memcached.Whole.{scan_value-line, get_value_whole}

IsDigits-Lacks : (n : ℕ) (ds : Bytes) → (n < b'0') → IsDigits ds → Lacks n ds
IsDigits-Lacks n [] l h = tt
IsDigits-Lacks n (d ∷ ds) l h = (omega (arith, h.0), IsDigits-Lacks n ds l h.1)

-- What the server sends for the counter when its value is printed as `w`.
abbrev pub reply : Bytes → Bytes
reply w =
    codes "VALUE test 0 " ++ (decimal (length w) ++ (codes "\r\n" ++ (w ++ codes "\r\nEND\r\n")))

abbrev header_line : Bytes → Bytes
header_line ds = codes "VALUE test 0 " ++ (ds ++ codes "\r")

header_line-All :
    (ds : Bytes) (n : ℕ) → n < 14 → n ≢ b'\r' → IsDigits ds → All (λ c. c ≢ n) (header_line ds)
header_line-All ds n l r h =
    All-append (λ c. c ≢ n) (codes "VALUE test 0 ") _ (omega arith)
      (All-append (λ c. c ≢ n) ds _ (IsDigits-Lacks n ds (omega arith) h) (λ e. r (sym e), tt))

reply_line :
    (fd : Socket) (ds rest : Bytes)
    → IsDigits ds
    → length ds < 22
    → fd.incoming ≡ codes "VALUE test 0 " ++ (ds ++ (codes "\r\n" ++ rest))
    → recv_line fd 256
      ≡ returns (codes "VALUE test 0 " ++ (ds ++ codes "\r\n"), record fd { incoming = rest })
unfolding recv_line
reply_line fd ds rest h small e =
    let whole =
      e
      ∙ ap (λ t. codes "VALUE test 0 " ++ t) (sym (append_assoc ds (codes "\r") (b'\n' ∷ rest))) in
    rw
      (
        whole,
        line_from_line 255 (header_line ds) rest
            (header_line-All ds b'\n' (omega arith) (omega arith) h)
            (omega (arith, length-append ds (codes "\r"))),
      )
      (ap (λ t. returns (codes "VALUE test 0 " ++ t, record fd { incoming = rest }))
        (append_assoc ds (codes "\r") (codes "\n")))

scan_value-digits :
    (ds : Bytes)
    → IsDigits ds
    → 0 < length ds
    → read_decimal 0 ds < 2 ^ 64
    → scan_value (codes "VALUE test 0 " ++ (ds ++ codes "\r\n")) ≡ some (read_decimal 0 ds)
scan_value-digits [] h p small = absurd (omega arith)
scan_value-digits (d ∷ ds) h p small = scan_value-line d ds h small

full_line-Lacks :
    (ds : Bytes)
    → IsDigits ds
    → c_str (codes "VALUE test 0 " ++ (ds ++ codes "\r\n"))
      ≡ codes "VALUE test 0 " ++ (ds ++ codes "\r\n")
full_line-Lacks ds h = c_str-Lacks _ (
    All-append (λ c. c ≢ 0) (codes "VALUE test 0 ") _ (omega arith)
      (All-append (λ c. c ≢ 0) ds _ (IsDigits-Lacks 0 ds (omega arith) h) (omega arith)))

read_reply_value :
    (ds : Bytes) (n : ℕ) (fd : Socket)
    → scan_value (codes "VALUE test 0 " ++ (ds ++ codes "\r\n")) ≡ some n
    → read_reply (codes "VALUE test 0 " ++ (ds ++ codes "\r\n")) fd 64 ≡ get_value fd n 64
unfolding read_reply strncmp_eq
read_reply_value ds n fd e = ap (λ v. parsed_value fd v 64) e

send_all_whole :
    (fd : Socket) (buf : Bytes)
    → Takes (length buf) fd.sends
    → (left : List (Option ℕ)) × (send_all fd buf
        ≡ returns (record fd { sends = left; outgoing = fd.outgoing ++ buf }))
unfolding send_all
send_all_whole fd buf h =
    let (left, e) = sends_all_whole fd.sends buf fd.outgoing h in (left, rw e refl)

mc_get_whole :
    (fd : Socket) (w : Bytes)
    → fd.incoming ≡ reply w
    → IsDigits w
    → length w < 63
    → Takes (length (get_command g_key)) fd.sends
    → length w + 2 ≤ length fd.offers
    → (fd' : Socket) × (mc_get fd g_key 64
        ≡ returns (some (record { text = w; written = length w }), fd'))
unfolding mc_get
mc_get_whole fd w e h small t g =
    let ds = decimal (length w) in
    let (left, sent) = send_all_whole fd (get_command g_key) t in
    let fd1 = record fd { sends = left; outgoing = fd.outgoing ++ get_command g_key } in
    let line =
      reply_line fd1 ds (w ++ codes "\r\nEND\r\n") (decimal-IsDigits (length w))
        (length-decimal (length w)).1 e in
    let fd2 = record fd1 { incoming = w ++ codes "\r\nEND\r\n" } in
    let size = read_decimal-decimal (length w) (omega arith) in
    let n =
      scan_value-digits ds (decimal-IsDigits (length w)) (length-decimal (length w)).0
        (omega (arith, size))
      ∙ ap some size in
    let (fd', got) = get_value_whole fd2 w refl (IsDigits-Lacks 0 w (omega arith) h) small g in
    (
      fd',
      rw
          (
            sent,
            line,
            full_line-Lacks ds (decimal-IsDigits (length w)),
            read_reply_value ds (length w) fd2 n,
          )
          got,
    )

atoi-decimal : (v : ℕ) → v < 2 ^ 31 → atoi (decimal v) ≡ v
atoi-decimal v h =
    let e = read_decimal-decimal v (omega arith) in
    digits_case (decimal v) (decimal-IsDigits v) (length-decimal v).0 (omega (arith, e)) ∙ e
  where
    digits_case :
        (ds : Bytes)
        → IsDigits ds
        → 0 < length ds
        → read_decimal 0 ds < 2 ^ 31
        → atoi ds ≡ read_decimal 0 ds
    digits_case [] i p s = absurd (omega arith)
    digits_case (d ∷ ds) i p s = atoi-digits d ds i s

-- When the server answers with the counter's value `v`, below 2^31, in the memcached protocol,
-- and closes only after that, `client_join` ends the process: with `exit(0)` if `v` is the number
-- of all increments together (modulo 2^32), and with `abort()` if not. How the bytes are split over
-- the calls does not matter.
pub client_join_verdict :
    (o : Options) (v : ℕ) (fd : Socket)
    → v < 2 ^ 31
    → fd.incoming ≡ reply (decimal v)
    → Takes 10 fd.sends
    → 23 ≤ length fd.offers
    → client_join o (some fd)
      ≡ (if o.g_threads * o.g_loop * o.g_step % 2 ^ 32 == v then exits 0 else aborts)
unfolding client_join mc_connect
client_join_verdict o v fd small e t g =
    let l = length-decimal v in
    let (fd', got) =
      mc_get_whole fd (decimal v) e (decimal-IsDigits v) (omega (arith, l)) t (omega (arith, l)) in
    rw (got, atoi-decimal v small) refl
