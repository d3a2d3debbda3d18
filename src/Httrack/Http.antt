-- ===== src/Httrack/Http.antt =====
-- concurrency-bugs/httrack-3.43.9/httrack-client.c: requests to the HTTrack server, and the pages
-- that the client serves to its crawler.
pub mod Text
pub mod Exchange
use benchamel.Base.{
  ℕ, zero, suc, ◌+◌, ◌-◌, Bool, true, false, Option, none, some, List, [], ◌∷◌, ◌++◌, Bytes, codes,
  length, take, drop, if◌then◌else◌,
}
use benchamel.Base.Outcome.{Outcome, returns, ◌>>=◌}
use benchamel.Libc.{is_space, strstr, c_str, strcmp_eq}
use benchamel.Libc.Decimal.{decimal}
use benchamel.Httrack.Buffer.{Allocator, Buf, null_buf, append_cstr, xstrdup}
use benchamel.Httrack.Transport.{
  Connection, Network, SendResult, RecvResult, received, connect_with_retry, send_all, recv_all,
}

-- Calls `append_cstr(buf, len, cap, piece)`, one after the other.
pub append_cstrs : Allocator → Buf → List Bytes → Outcome Buf
append_cstrs a b [] = returns b
append_cstrs a b (piece ∷ pieces) = do b' ← append_cstr a b piece; append_cstrs a b' pieces

abbrev pub body_headers : Option Bytes → List Bytes
body_headers none = []
body_headers (some body) =
    codes "Content-Type: application/x-www-form-urlencoded\r\n"
    ∷ codes "Content-Length: "
    ∷ decimal (length body)
    ∷ codes "\r\n"
    ∷ []

abbrev pub body_text : Option Bytes → List Bytes
body_text none = []
body_text (some body) = body ∷ []

-- the pieces that `http_request` appends to its request
abbrev pub request_pieces : Bytes → Bytes → Option Bytes → List Bytes
request_pieces method path body =
    method
    ∷ codes " "
    ∷ path
    ∷ codes " HTTP/1.0\r\nHost: 127.0.0.1\r\nConnection: close\r\n"
    ∷ (body_headers body ++ (codes "\r\n" ∷ body_text body))

-- from `strstr(response, "\r\n\r\n")` on
pub response_body : Allocator → Bytes → Outcome Bytes
response_body a response = elim (strstr response (codes "\r\n\r\n")) [
  | none ↦ returns response
  | some header_end ↦ xstrdup a (drop 4 header_end)
]

-- `http_request` once it has a socket; `none` is `return -1`.
unfoldable pub exchange :
    Allocator
    → Connection
    → Network
    → Bytes
    → Bytes
    → Option Bytes
    → Outcome (Option Bytes × Network)
exchange a fd net method path body = do
  request ← append_cstrs a null_buf (request_pieces method path body)
  (ok, out) ← send_all fd.sends (c_str request.mem) []
  let net' = record net { wire = out ∷ net.wire }
  r ← (if ok then recv_all a fd.recvs null_buf else returns none)
  elim r [
    | none ↦ returns (none, net')
    | some response ↦ response_body a (c_str response.mem) >>= λ text. returns (some text, net')
  ]

abbrev pub connect_tries : ℕ
connect_tries = 200

-- `http_request` behind the call of `connect_with_retry`
unfoldable pub request_over :
    Allocator
    → Bytes
    → Bytes
    → Option Bytes
    → Option Connection × Network
    → Outcome (Option Bytes × Network)
request_over a method path body (none, net) = returns (none, net)
request_over a method path body (some fd, net) = exchange a fd net method path body

unfoldable pub http_request :
    Allocator → Network → Bytes → Bytes → Option Bytes → Outcome (Option Bytes × Network)
http_request a net method path body =
    request_over a method path body (connect_with_retry connect_tries net)

abbrev pub asset_links : ℕ
asset_links = 64

-- `for (i = 0; i < HTTRACK_ASSET_LINKS; ++i)`: the links of the last `n` rounds; each text fits the
-- 64 bytes that `snprintf` is given.
pub page_links : ℕ → ℕ → List Bytes
page_links i zero = []
page_links i (suc n) =
    (codes "<a href=\"/p"
      ++ (decimal i ++ (codes ".html\">page" ++ (decimal i ++ codes "</a><br/>\n"))))
    ∷ page_links (i + 1) n

abbrev pub page_pieces : Bytes → List Bytes
page_pieces path =
    codes "<html><body>\n"
    ∷ codes "<h1>Benchamel HTTrack Fixture</h1>\n"
    ∷ codes "<p>"
    ∷ path
    ∷ codes "</p>\n"
    ∷ (page_links 0 asset_links ++ (codes "</body></html>\n" ∷ []))

pub build_asset_page : Allocator → Bytes → Outcome Buf
build_asset_page a path = append_cstrs a null_buf (page_pieces path)

-- `%Ns` of `sscanf`: white space is skipped, and at most N bytes that are none are read. The second
-- part is the text behind them.
unfoldable pub scan_blank : Bytes → Bytes
scan_blank [] = []
scan_blank (c ∷ cs) = let rest = scan_blank cs in if is_space c then rest else c ∷ cs

unfoldable pub scan_word : ℕ → Bytes → Bytes × Bytes
scan_word zero s = ([], s)
scan_word (suc n) [] = ([], [])
scan_word (suc n) (c ∷ cs) =
    let (word, rest) = scan_word n cs in if is_space c then ([], c ∷ cs) else (c ∷ word, rest)

-- `path` after `sscanf(request, "%15s %255s", method, path)` and the default for an empty one
pub request_path : Bytes → Bytes
request_path request =
    let (method, rest) = scan_word 15 (scan_blank request) in
    let (path, _) = scan_word 255 (scan_blank rest) in
    elim path [ [] ↦ codes "/" | c ∷ cs ↦ c ∷ cs ]

abbrev pub response_header : ℕ → Bytes
response_header n =
    codes "HTTP/1.0 200 OK\r\nContent-Type: text/html\r\nContent-Length: "
    ++ (decimal n ++ codes "\r\nConnection: close\r\n\r\n")

pub asset_body : Allocator → Bytes → Outcome Bytes
asset_body a path =
    if strcmp_eq path (codes "/robots.txt")
    then xstrdup a (codes "User-agent: *\nAllow: /\n")
    else (do b ← build_asset_page a path; returns (c_str b.mem))

-- The result of the one `recv`, which is asked for at most 1023 bytes, and the results of the `send`
-- calls for the header and for the body are inputs; the bytes written to the socket are returned.
pub handle_asset_client : Allocator → RecvResult → List SendResult → List SendResult → Outcome Bytes
handle_asset_client a (received []) header_sends body_sends = returns []
handle_asset_client a (received (c ∷ cs)) header_sends body_sends = do
  body ← asset_body a (request_path (c_str (take 1023 (c ∷ cs))))
  (ok, out) ← send_all header_sends (response_header (length body)) []
  (ok', out') ← send_all body_sends body out
  returns out'
handle_asset_client a _ header_sends body_sends = returns []
