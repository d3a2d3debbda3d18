-- ===== src/Httrack/Transport.antt =====
-- concurrency-bugs/httrack-3.43.9/httrack-client.c: sockets.
-- The operating system's answers are inputs: what each attempt to connect gives, and for a
-- connection the results of its `send` and `recv` calls, in order. A list that has run out is a
-- call that never returns.
pub mod Laws
pub mod Connect
use benchamel.Base.{
  ℕ, zero, suc, ◌+◌, Bool, true, false, Option, none, some, List, [], ◌∷◌, ◌++◌, Bytes, take, drop,
  ◌==◌, if◌then◌else◌,
}
use benchamel.Base.Outcome.{Outcome, returns, aborts, unfinished, ◌>>=◌}
use benchamel.Httrack.Buffer.{Allocator, Buf, null_buf, append_bytes}

pub data SendResult : Type 0 where
  sent : ℕ → SendResult  -- at most so many of the bytes offered were taken
  send_interrupted : SendResult  -- -1 with EINTR
  send_failed : SendResult

pub data RecvResult : Type 0 where
  received : Bytes → RecvResult  -- no bytes: the peer has closed
  recv_interrupted : RecvResult
  recv_failed : RecvResult

pub record Connection : Type 0 where
  pub sends : List SendResult
  pub recvs : List RecvResult

-- `attempts n` is what the n-th call of `connect_once` gives, `at` the number of calls so far.
pub record Network : Type 0 where
  pub attempts : ℕ → Option Connection
  pub at : ℕ
  pub wire : List Bytes  -- what was sent over each connection, latest first

-- The socket calls in it, all of them to the operating system, succeed or fail together.
unfoldable pub connect_once : Network → Option Connection × Network
connect_once net = (net.attempts net.at, record net { at = net.at + 1 })

unfoldable pub connect_with_retry : ℕ → Network → Option Connection × Network
connect_with_retry zero net = (none, net)
connect_with_retry (suc tries) net =
    let (c, net') = connect_once net in
    elim c [ none ↦ connect_with_retry tries net' | some fd ↦ (some fd, net') ]

-- The flag is `return 0`; the bytes are what has reached the wire, after those given.
unfoldable pub send_all : List SendResult → Bytes → Bytes → Outcome (Bool × Bytes)
send_all results [] wire = returns (true, wire)
send_all [] (b ∷ buf) wire = unfinished
send_all (sent n ∷ results) (b ∷ buf) wire =
    send_all results (drop n (b ∷ buf)) (wire ++ take n (b ∷ buf))
send_all (send_interrupted ∷ results) (b ∷ buf) wire = send_all results (b ∷ buf) wire
send_all (send_failed ∷ results) (b ∷ buf) wire = returns (false, wire)

-- `if (data == NULL) data = xstrdup("");`
pub finish_data : Allocator → Buf → Outcome Buf
finish_data a data_ =
    if data_.cap == 0
    then (if a.grants 1 then returns (record { mem = 0 ∷ []; len = 0; cap = 1 }) else aborts)
    else returns data_

pub recv_all : Allocator → List RecvResult → Buf → Outcome (Option Buf)
recv_all a [] b = unfinished
recv_all a (received [] ∷ results) b = do r ← finish_data a b; returns (some r)
recv_all a (received (c ∷ cs) ∷ results) b = do
  b' ← append_bytes a b (c ∷ cs)
  recv_all a results b'
recv_all a (recv_interrupted ∷ results) b = recv_all a results b
recv_all a (recv_failed ∷ results) b = returns none
