-- ===== src/Memcached/Bounds.antt =====
-- concurrency-bugs/memcached-127/client.c: how far `mc_get` writes into the caller's buffer.
use benchamel.Base.{
  ℕ, ◌+◌, ◌-◌, ◌%◌, ◌^◌, ◌≤◌, ◌≡◌, ap, ◌∙◌, some, arith, Bytes, length, take, ltb, if◌then◌else◌,
  length-take, inl, inr, Bool-cases,
}
use mathlib.Core.Path.{subst}
use benchamel.Base.Outcome.{returns, >>=-eq-returns}
use benchamel.Libc.{c_str}
use benchamel.Libc.Search.{length-c_str}
use benchamel.Memcached.{Socket, recv_line, exact_from, recv_exact, get_value, Got}
use benchamel.Memcached.Sockets.{ExactOf, exact_from-ExactOf}

recv_exact-length :
    (fd : Socket) (len : ℕ) (w : Bytes) (fd' : Socket)
    → recv_exact fd len ≡ returns (w, fd')
    → length w ≡ len
unfolding recv_exact
recv_exact-length fd len w fd' h =
    let (r, e, f) = >>=-eq-returns (exact_from fd.offers fd.incoming len) _ h in
    ap length {x = w} {y = r.0} (cc f)
    ∙ (subst (ExactOf len fd.incoming) e (exact_from-ExactOf fd.offers fd.incoming len)).1

got_lem :
    (w : Bytes) (bytes limit : ℕ) (got : Got)
    → length w ≡ bytes
    → record {
      text = c_str (take (if ltb bytes limit then bytes else limit) w);
      written = length w;
    }
      ≡ got
    → (got.written ≡ bytes) × (length got.text ≤ limit) × (length got.text ≤ bytes)
got_lem w bytes limit got n e =
    subst (λ g. (g.written ≡ bytes) × (length g.text ≤ limit) × (length g.text ≤ bytes)) e
      (n, limits.0, limits.1)
  where
    cut :
        (k : ℕ)
        → k ≤ limit
        → k ≤ bytes
        → (length (c_str (take k w)) ≤ limit) × (length (c_str (take k w)) ≤ bytes)
    cut k h g = let l = length-c_str (take k w) in let m = length-take k w in omega (arith, l, m)

    limits :
        (length (c_str (take (if ltb bytes limit then bytes else limit) w)) ≤ limit)
        × (length (c_str (take (if ltb bytes limit then bytes else limit) w)) ≤ bytes)
    limits = elim (Bool-cases (ltb bytes limit)) [
      | inl lt ↦ rw lt (cut bytes (ground (arith, lt)) (omega arith))
      | inr ge ↦ rw ge (cut limit (omega arith) (ground (arith, ge)))
    ]

-- A `mc_get` that returns a value has written as many bytes into `valbuf` as the server announced,
-- whatever the size of `valbuf`; only the text that the caller sees is cut, to `valbuflen - 1` as a
-- `size_t`, which is 2^64 - 1 where `valbuflen` is 0.
pub get_value_writes :
    (fd fd' : Socket) (bytes valbuflen : ℕ) (got : Got)
    → get_value fd bytes valbuflen ≡ returns (some got, fd')
    → (got.written ≡ bytes)
      × (length got.text ≤ (valbuflen + 2 ^ 64 - 1) % 2 ^ 64)
      × (length got.text ≤ bytes)
unfolding get_value
get_value_writes fd fd' bytes valbuflen got h =
    let (r, e, f) = >>=-eq-returns (recv_exact fd bytes) _ h in
    let (s, e2, f2) = >>=-eq-returns (recv_exact r.1 2) _ f in
    let (t, e3, f3) = >>=-eq-returns (recv_line s.1 256) _ f2 in
    let n = recv_exact-length fd bytes r.0 r.1 e in
    got_lem r.0 bytes ((valbuflen + 2 ^ 64 - 1) % 2 ^ 64) got n (cc f3)
