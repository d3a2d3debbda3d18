-- ===== src/Memcached/Whole.antt =====
-- concurrency-bugs/memcached-127/client.c: replies that the socket holds as a whole.
use benchamel.Base.{
  ℕ, zero, suc, ◌+◌, ◌-◌, ◌^◌, ◌<◌, ◌≤◌, ◌≡◌, refl, ap, ◌∙◌, some, List, [], ◌∷◌, ◌++◌, arith,
  Bytes, codes, length, take, drop, min, Lacks, ltb, if◌then◌else◌, length-append, length-drop,
  append-nil, take-append_len, take-append_le, take-append-drop,
}
use mathlib.Core.Path.{subst}
use benchamel.Base.Outcome.{returns, ◌>>=◌}
use benchamel.Libc.{is_space, is_digit, c_str}
use benchamel.Libc.Search.{c_str-Lacks}
use benchamel.Libc.Decimal.{read_decimal, IsDigits}
use benchamel.Httrack.Http.{scan_blank, scan_word}
use benchamel.Memcached.Numbers.{scan_bytes, scan_flags, scan_value}
use benchamel.Memcached.{Socket, recv_line, exact_from, recv_exact, get_value}
use benchamel.Memcached.Sockets.{line_from_line}
use benchamel.Memcached.Parse.{scan_unsigned-digits}

pub scan_value-line :
    (d : ℕ) (ds : Bytes)
    → IsDigits (d ∷ ds)
    → read_decimal 0 (d ∷ ds) < 2 ^ 64
    → scan_value (codes "VALUE test 0 " ++ d ∷ ds ++ codes "\r\n") ≡ some (read_decimal 0 (d ∷ ds))
unfolding scan_value scan_word scan_blank is_space is_digit
scan_value-line d ds h small =
    ap scan_flags (
      scan_unsigned-digits b'0' [] (b' ' ∷ d ∷ ds ++ codes "\r\n") (omega arith) refl
        (unfold read_decimal in omega arith))
    ∙ ap scan_bytes (scan_unsigned-digits d ds (codes "\r\n") h refl small)

drop-append_le : (k : ℕ) (xs ys : Bytes) → k ≤ length xs → drop k (xs ++ ys) ≡ drop k xs ++ ys
drop-append_le zero xs ys h = refl
drop-append_le (suc k) [] ys h = absurd (omega arith)
drop-append_le (suc k) (x ∷ xs) ys h = drop-append_le k xs ys (omega arith)

exact_left :
    (n : ℕ) (w rest : Bytes)
    → length w - min n (min (length w) (length (w ++ rest))) ≡ length (drop (min n (length w)) w)
exact_left n w rest = omega (arith, length-drop (min n (length w)) w, length-append w rest)

-- the bytes that one `recv` has left to the next
exact_from_next :
    (n c : ℕ) (offers : List ℕ) (w rest : Bytes)
    → exact_from (n ∷ offers) (c ∷ w ++ rest) (suc (length w)) ≡ (do
      r ← exact_from offers (drop (min n (length w)) w ++ rest) (length (drop (min n (length w)) w))
      returns ((c ∷ take (min n (length w)) w) ++ r.0, r.1, r.2))
unfolding exact_from
exact_from_next n c offers w rest =
    rw
      (
        take-append_le (min n (length w)) w rest (omega arith),
        drop-append_le (min n (length w)) w rest (omega arith),
        exact_left n w rest,
      )
      refl

exact_from_whole :
    (offers : List ℕ) (w rest : Bytes)
    → length w ≤ length offers
    → (left : List ℕ) × (exact_from offers (w ++ rest) (length w) ≡ returns (w, rest, left))
      × (length offers ≤ length left + length w)
exact_from_whole offers [] rest h = (offers, unfold exact_from in refl, omega arith)
exact_from_whole [] (c ∷ w) rest h = absurd (omega arith)
exact_from_whole (n ∷ offers) (c ∷ w) rest h =
    let l = length-drop (min n (length w)) w in
    let (left, e, f) =
      exact_from_whole offers (drop (min n (length w)) w) rest (omega (arith, l)) in
    (
      left,
      exact_from_next n c offers w rest
          ∙ (ap (λ o. do r ← o; returns ((c ∷ take (min n (length w)) w) ++ r.0, r.1, r.2)) e
              ∙ ap (λ t. returns (c ∷ t, rest, left)) (take-append-drop (min n (length w)) w)),
      omega (arith, f, l),
    )

-- the text asked for, when all of it is there and enough calls are answered
pub recv_exact_whole :
    (fd : Socket) (w rest : Bytes)
    → fd.incoming ≡ w ++ rest
    → length w ≤ length fd.offers
    → (left : List ℕ) × (recv_exact fd (length w)
        ≡ returns (w, record fd { incoming = rest; offers = left }))
      × (length fd.offers ≤ length left + length w)
unfolding recv_exact
recv_exact_whole fd w rest e h =
    let (left, f, g) = exact_from_whole fd.offers w rest h in (left, rw (e, f) refl, g)

end_line :
    (fd : Socket)
    → fd.incoming ≡ codes "END\r\n"
    → recv_line fd 256 ≡ returns (codes "END\r\n", record fd { incoming = [] })
unfolding recv_line
end_line fd e = rw (e, line_from_line 255 (codes "END\r") [] (omega arith) (omega arith)) refl

take_all : (w : Bytes) → take (length w) w ≡ w
take_all w =
    subst (λ s. take (length w) s ≡ w) (append-nil w) (take-append_len (length w) w [] refl)

copied_length : (n : ℕ) → n < 63 → (if ltb n 63 then n else 63) ≡ n
copied_length n h = ground (arith, h)

take_copied :
    (w : Bytes)
    → Lacks 0 w
    → length w < 63
    → c_str (take (if ltb (length w) 63 then length w else 63) w) ≡ w
take_copied w z h =
    ap (λ n. c_str (take n w)) (copied_length (length w) h)
    ∙ (ap c_str (take_all w) ∙ c_str-Lacks w z)

pub get_value_whole :
    (fd : Socket) (w : Bytes)
    → fd.incoming ≡ w ++ codes "\r\nEND\r\n"
    → Lacks 0 w
    → length w < 63
    → length w + 2 ≤ length fd.offers
    → (fd' : Socket) × (get_value fd (length w) 64
        ≡ returns (some (record { text = w; written = length w }), fd'))
unfolding get_value
get_value_whole fd w e z h g =
    let (l1, e1, g1) = recv_exact_whole fd w (codes "\r\nEND\r\n") e (omega arith) in
    let fd1 = record fd { incoming = codes "\r\nEND\r\n"; offers = l1 } in
    let (l2, e2, g2) =
      recv_exact_whole fd1 (codes "\r\n") (codes "END\r\n") refl (omega (arith, g1, g)) in
    let fd2 = record fd { incoming = codes "END\r\n"; offers = l2 } in
    (
      record fd2 { incoming = [] },
      rw (e1, e2, end_line fd2 refl)
          (ap
            (λ t.
              returns
                (some (record { text = t; written = length w }), record fd2 { incoming = [] }))
            (take_copied w z h)),
    )
