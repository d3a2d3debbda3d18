-- ===== src/Cherokee/Bug1.antt =====
-- concurrency-bugs/cherokee-bug1/cherokee-client.c: what it changes in the client of cherokee-0.9.2,
-- which are the request and the check of the access log.
use benchamel.Base.{
  ℕ, zero, suc, Bool, true, false, ◌&&◌, Option, List, [], ◌∷◌, ◌++◌, Bytes, codes, length,
  if◌then◌else◌,
}
use benchamel.Base.Outcome.{Outcome}
use benchamel.Libc.{strstr, c_str}
use benchamel.Httrack.Transport.{Network, Connection, SendResult, RecvResult}
use benchamel.Cherokee.Log.{fgets, is_found}
use benchamel.Cherokee.Client
use benchamel.Cherokee.Client.{Worker, Shared}

abbrev pub k_client_request : Bytes
k_client_request =
    codes "GET /index.html HTTP/1.0\r\nHost: 127.0.0.1\r\n"
    ++ codes "If-Modified-Since: Sat Oct 1994 19:43:31 GMT\r\nConnection: close\r\n\r\n"

abbrev pub k_warning_marker : Bytes
k_warning_marker = codes "Warning: Unparseable time"

abbrev pub k_access_marker : Bytes
k_access_marker = codes "\"GET /index.html HTTP/1.0\""

unfoldable pub is_corrupt_line : Bytes → Bool
is_corrupt_line line =
    is_found (strstr line k_warning_marker) && is_found (strstr line k_access_marker)

-- The loop over the lines; the rounds are bounded by the bytes of the file.
unfoldable pub lines_corrupt : ℕ → Bytes → Bool
lines_corrupt zero file = false
lines_corrupt (suc n) [] = false
lines_corrupt (suc n) (c ∷ file) =
    let rest = lines_corrupt n (fgets 8191 (c ∷ file)).1 in
    if is_corrupt_line (c_str (fgets 8191 (c ∷ file)).0) then true else rest

-- an access log that can be opened
unfoldable pub access_log_has_corruption : Bytes → Bool
access_log_has_corruption file = lines_corrupt (length file) file

-- The rest of the client has the text of the other one.
abbrev pub connect_once : Network → Option Connection × Network
connect_once = Client.connect_once

abbrev pub connect_with_retry : ℕ → Network → Option Connection × Network
connect_with_retry = Client.connect_with_retry

abbrev pub send_all : List SendResult → Bytes → Bytes → Outcome (Bool × Bytes)
send_all = Client.send_all

abbrev pub drain_socket : List RecvResult → Outcome Bool
drain_socket = Client.drain_socket

abbrev pub wait_for_server_ready : Network → Bool × Network
wait_for_server_ready = Client.wait_for_server_ready

abbrev pub client_round : Network → Outcome (Bool × Network)
client_round = Client.client_round k_client_request

abbrev pub mark_failed : Shared → Shared
mark_failed = Client.mark_failed

abbrev pub WorkerStep : Worker → Shared → Worker → Shared → Type 0
WorkerStep = Client.WorkerStep k_client_request

abbrev pub client_run : Client.Client
client_run = Client.client_run

-- the steps of the process, `finish_worker` with this check of the log among them
abbrev pub Step : Client.Client → Client.Client → Type 0
Step = Client.Step (λ index. k_client_request) access_log_has_corruption
