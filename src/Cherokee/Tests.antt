-- ===== src/Cherokee/Tests.antt =====
-- The theorems about the Cherokee clients at concrete inputs.
use benchamel.Base.{
  ◌≡◌, refl, inl, true, some, List, [], ◌∷◌, ◌++◌, Bytes, codes, arith, Reach, here, next,
}
use benchamel.Cherokee.Log.{access_log_has_corruption, line_has_valid_timestamp}
use benchamel.Cherokee.Stamps.{Time, IsTime, print_time, line_has_valid_timestamp-print_time}
use benchamel.Cherokee.Bug1
use benchamel.Cherokee.Client.{
  starting, judging, over, server_ready, round_begun, loop_over, round_broken, round_marked,
  failure_read, failure_kept, Client, client_run, running, aborted_failed, request_text, Step,
  worker_moves, worker_counts, failure_judged, wait_for_server_ready, client_round,
}
use benchamel.Httrack.Transport.{Network, send_failed, connect_with_retry, connect_once, send_all}
use benchamel.Cherokee.Client.Finish.{client_run-IsSound}
use benchamel.Cherokee.Client.Early.{IsSound}

abbrev leap_second : Time
leap_second = record {
  day = 31;
  month0 = b'D';
  month1 = b'e';
  month2 = b'c';
  year = 2016;
  hour = 23;
  minute = 59;
  second = 60;
  sign = b'+';
  tz_hour = 0;
  tz_minute = 0;
}

leap_second-IsTime : IsTime leap_second
leap_second-IsTime = record {
  day = omega arith;
  is_month = (11, omega arith, refl);
  year = omega arith;
  hour = omega arith;
  minute = omega arith;
  second = omega arith;
  sign = inl refl;
  tz_hour = omega arith;
  tz_minute = omega arith;
}

line_has_valid_timestamp-print_time_example :
    line_has_valid_timestamp
      (codes "::1 - -" ++ codes " [" ++ print_time leap_second (codes "] \"" ++ codes "GET /"))
    ≡ true
line_has_valid_timestamp-print_time_example =
    line_has_valid_timestamp-print_time (codes "::1 - -") (codes "GET /") leap_second (omega arith)
      leap_second-IsTime

abbrev torn_log : List Bytes
torn_log = [] ∷ codes "127.0.0.1 - -127.0.0.1" ∷ []

-- The server takes connections and breaks off the first request; both workers then give up.
abbrev broken : Network
broken = record {
  attempts = λ n. some (record { sends = send_failed ∷ []; recvs = [] });
  at = 0;
  wire = [];
}

abbrev connected : Network
connected = record broken { at = 1 }

abbrev cut : Network
cut = record connected { wire = [] ∷ [] }

abbrev before_judging : Client
before_judging = record {
  shared = record { client_failed = true; finished_workers = 2 };
  workers = over ∷ judging ∷ [];
  status = running;
}

run_to_judging : Reach (Step request_text access_log_has_corruption) client_run before_judging
unfolding wait_for_server_ready connect_with_retry connect_once client_round send_all request_text
run_to_judging =
    next
      (next
        (next
          (next
            (next
              (next
                (next
                  (next
                    (next
                      (next
                        (next
                          (next here
                            (worker_moves [] (starting ∷ []) (server_ready broken connected refl)))
                          (worker_moves [] (starting ∷ []) (round_begun (omega arith) refl)))
                        (worker_moves [] (starting ∷ []) (round_broken broken cut refl)))
                      (worker_moves [] (starting ∷ []) round_marked))
                    (worker_moves [] (starting ∷ []) (failure_read refl)))
                  (worker_moves [] (starting ∷ []) failure_kept))
                (worker_counts [] (starting ∷ [])))
              (worker_moves (over ∷ []) [] (server_ready broken connected refl)))
            (worker_moves (over ∷ []) [] (loop_over refl)))
          (worker_moves (over ∷ []) [] (failure_read refl)))
        (worker_moves (over ∷ []) [] failure_kept))
      (worker_counts (over ∷ []) [])

abbrev given_up : Client
given_up = record before_judging { workers = over ∷ over ∷ []; status = aborted_failed }

client_run-IsSound_example : IsSound access_log_has_corruption given_up
client_run-IsSound_example =
    client_run-IsSound request_text access_log_has_corruption given_up
      (next run_to_judging (failure_judged (over ∷ []) [] refl))
