-- ===== src/Httrack/Http/Exchange.antt =====
-- What one request to the server does.
use benchamel.Base.{
  ℕ, ◌+◌, ◌<◌, ◌^◌, ◌≡◌, refl, ap, ◌∙◌, inl, inr, ◌⊎◌, Bool, true, false, Option, none, some, [],
  ◌∷◌, ◌++◌, arith, List, Bytes, codes, All, Lacks, length, length-append, drop, Option-cases,
}
use mathlib.Core.Path.{subst}
use benchamel.Base.Outcome.{Outcome, returns, unfinished, ◌>>=◌}
use benchamel.Libc.{is_prefix, strstr, c_str}
use benchamel.Libc.Search.{First, strstr-First, strstr-none, is_prefix-split, c_str-Lacks}
use benchamel.Libc.Decimal.{decimal, IsDigits, decimal-IsDigits}
use benchamel.Httrack.Buffer.{Allocator, Buf, null_buf}
use benchamel.Httrack.Buffer.Laws.{IsBuf, IsGenerous, Appended, xstrdup_lem}
use benchamel.Httrack.Buffer.Chain.{null_buf-IsBuf}
use benchamel.Httrack.Transport.{Connection, Network, send_all, recv_all}
use benchamel.Httrack.Transport.Laws.{
  End, closed, broken, waiting, stream_end, stream_text, Receives, recv_all-Receives, send_all_sent,
}
use benchamel.Httrack.Transport.Connect.{connect_with_retry_first, connect_with_retry_never}
use benchamel.Httrack.Http.{
  append_cstrs, request_pieces, response_body, exchange, connect_tries, request_over, http_request,
}
use benchamel.Httrack.Http.Text.{joined, append_cstrs-Appended, joined-Lacks, c_str-mem}

digits-Lacks : (s : Bytes) → IsDigits s → Lacks 0 s
digits-Lacks [] h = tt
digits-Lacks (c ∷ s) (h, hs) = (omega arith, digits-Lacks s hs)

-- A body that is sent is a C string.
abbrev pub IsBody : Option Bytes → Type 0
IsBody none = Unit
IsBody (some body) = Lacks 0 body

request-Lacks :
    (method path : Bytes) (body : Option Bytes)
    → Lacks 0 method
    → Lacks 0 path
    → IsBody body
    → All (Lacks 0) (request_pieces method path body)
request-Lacks method path none m p b = (m, (omega arith, (p, (omega arith, (omega arith, tt)))))
request-Lacks method path (some body) m p b = (
  m,
  (
    omega arith,
    (
      p,
      (
        omega arith,
        (
          omega arith,
          (
            omega arith,
            (
              digits-Lacks (decimal (length body)) (decimal-IsDigits (length body)),
              (omega arith, (omega arith, (b, tt))),
            ),
          ),
        ),
      ),
    ),
  ),
)

-- The bytes behind the first blank line of a response, or the response if it has none.
abbrev pub IsResponseBody : Bytes → Bytes → Type 0
IsResponseBody response body =
    First (codes "\r\n\r\n") response (codes "\r\n\r\n" ++ body)
    ⊎ (((k : ℕ) → is_prefix (codes "\r\n\r\n") (drop k response) ≡ false) × (body ≡ response))

response_body_lem :
    (a : Allocator) (response : Bytes)
    → IsGenerous a
    → (body : Bytes) × (response_body a response ≡ returns body) × IsResponseBody response body
unfolding response_body
response_body_lem a response g = elim (Option-cases (strstr response (codes "\r\n\r\n"))) [
  | inl e ↦ (response, ground (arith, e), inr (strstr-none response (codes "\r\n\r\n") e, refl))
  | inr (end, e) ↦
      let f = strstr-First response (codes "\r\n\r\n") end e in
      (
        drop 4 end,
        rw (e, response_body) (xstrdup_lem a (drop 4 end) g),
        inl (
            subst (First (codes "\r\n\r\n") response)
              (is_prefix-split (codes "\r\n\r\n") end f.starts) f),
      )
]

-- The outcome of an exchange, after the call that sends the request has said whether it was sent
-- and the stream of the response has ended so.
abbrev pub Answers : Network → Bool → End → Bytes → Outcome (Option Bytes × Network) → Type 0
Answers net false e text r = r ≡ returns (none, net)
Answers net true broken text r = r ≡ returns (none, net)
Answers net true waiting text r = r ≡ unfinished
Answers net true closed text r =
    (body : Bytes) × (r ≡ returns (some body, net)) × IsResponseBody (c_str text) body

-- What `exchange` does with what `recv_all` gives it.
on_response : Allocator → Network → Option Buf → Outcome (Option Bytes × Network)
on_response a net none = returns (none, net)
on_response a net (some response) =
    response_body a (c_str response.mem) >>= λ text. returns (some text, net)

answer :
    (a : Allocator) (net : Network) (e : End) (text : Bytes) (r : Outcome (Option Buf))
    → IsGenerous a
    → Receives text e r
    → Answers net true e text (r >>= on_response a net)
unfolding on_response
answer a net broken text r g h = rw h
answer a net waiting text r g h = rw h
answer a net closed text r g (out, e, v, t, pos) =
    let (body, f, b) = response_body_lem a (c_str out.mem) g in
    (
      body,
      rw (e, on_response, f),
      subst (λ s. IsResponseBody s body) (c_str-mem out v pos ∙ ap c_str t) b,
    )

joined-pos : (m : Bytes) (c : ℕ) (ps : List Bytes) → 0 < length (joined (m ∷ (c ∷ []) ∷ ps))
unfolding joined
joined-pos m c ps = omega (arith, length-append m (c ∷ joined ps))

cap-pos : (b : Buf) → IsBuf b → 0 < b.len → 0 < b.cap
cap-pos b v h = ground (arith, v.room)

module _ (a : Allocator) (fd : Connection) (net : Network) (method path : Bytes)
    (body : Option Bytes) (g : IsGenerous a) (m : Lacks 0 method) (p : Lacks 0 path)
    (b : IsBody body) (fits : length (joined (request_pieces method path body)) < 2 ^ 63) where
  abbrev request : Bytes
  request = joined (request_pieces method path body)

  built : Appended null_buf request (append_cstrs a null_buf (request_pieces method path body))
  built = append_cstrs-Appended a null_buf _ g null_buf-IsBuf (omega arith)

  request-pos : 0 < length request
  request-pos = joined-pos method b' ' _

  c_str-request : c_str built.out.mem ≡ request
  c_str-request =
      c_str-mem built.out built.valid (cap-pos built.out built.valid longer)
      ∙ (ap c_str built.text
          ∙ c_str-Lacks request (joined-Lacks _ (request-Lacks method path body m p b)))
    where
      longer : 0 < built.out.len
      longer = omega (arith, built.longer, request-pos)

  exchange-Answers :
      (ok : Bool) (out : Bytes)
      → length (stream_text fd.recvs) < 2 ^ 63
      → send_all fd.sends request [] ≡ returns (ok, out)
      → Answers
          (record net { wire = out ∷ net.wire })
          ok
          (stream_end fd.recvs)
          (stream_text fd.recvs)
          (exchange a fd net method path body)
  unfolding exchange on_response
  exchange-Answers false out small e = rw (built.returned, c_str-request, e)
  exchange-Answers true out small e =
      rw (built.returned, c_str-request, e)
        (answer a (record net { wire = out ∷ net.wire }) (stream_end fd.recvs)
          (stream_text fd.recvs) (recv_all a fd.recvs null_buf) g
          (recv_all-Receives a g fd.recvs small))

-- The server is reached at the k-th attempt of 200 and the request, shorter than 2^63 bytes like the
-- response, is handed to `send`. Then no further attempt is made, and what was sent is recorded: the
-- whole request if sending succeeded. If sending or receiving fails the call fails; if the peer
-- closes, the call returns the bytes behind the first blank line of the response, or all of a
-- response without one (up to a NUL in it). The allocator never refuses.
pub http_request-Answers :
    (a : Allocator) (fd : Connection) (net : Network) (method path : Bytes) (body : Option Bytes)
    (k : ℕ) (ok : Bool) (out : Bytes)
    → IsGenerous a
    → Lacks 0 method
    → Lacks 0 path
    → IsBody body
    → length (joined (request_pieces method path body)) < 2 ^ 63
    → k < connect_tries
    → net.attempts (net.at + k) ≡ some fd
    → ((j : ℕ) → j < k → net.attempts (net.at + j) ≡ none)
    → length (stream_text fd.recvs) < 2 ^ 63
    → send_all fd.sends (joined (request_pieces method path body)) [] ≡ returns (ok, out)
    → Answers
        (record net { at = net.at + k + 1; wire = out ∷ net.wire })
        ok
        (stream_end fd.recvs)
        (stream_text fd.recvs)
        (http_request a net method path body)
      × ((ok ≡ false) ⊎ (out ≡ joined (request_pieces method path body)))
unfolding http_request request_over
http_request-Answers a fd net method path body k ok out g m p b fits lt hit miss small e = (
  rw (connect_with_retry_first connect_tries k net fd lt hit miss) (
      exchange-Answers a fd (record net { at = net.at + k + 1 }) method path body g m p b fits ok
        out small e),
  send_all_sent fd.sends _ out ok e,
)

-- If no attempt of 200 reaches the server, the call fails after exactly 200 attempts, and nothing is
-- sent.
pub http_request_unreachable :
    (a : Allocator) (net : Network) (method path : Bytes) (body : Option Bytes)
    → ((j : ℕ) → j < connect_tries → net.attempts (net.at + j) ≡ none)
    → http_request a net method path body
      ≡ returns (none, record net { at = net.at + connect_tries })
unfolding http_request request_over
http_request_unreachable a net method path body miss =
    ap (request_over a method path body) (connect_with_retry_never connect_tries net miss)
