-- ===== src/Memcached/Tests.antt =====
-- The theorems about concurrency-bugs/memcached-127/client.c at concrete inputs.
use benchamel.Base.{
  ◌+◌, ℕ, ◌*◌, ◌%◌, ◌^◌, ◌≡◌, ◌≤◌, ◌-◌, refl, some, List, [], ◌∷◌, ◌++◌, arith, codes, length,
  replicate, ◌==◌, if◌then◌else◌,
}
use benchamel.Base.Outcome.{exits, aborts}
use benchamel.Libc.{c_str}
use benchamel.Libc.Decimal.{decimal}
use benchamel.Memcached.{
  Socket, defaults, line_from, exact_from, get_value, recv_exact, recv_line, client_join, Got,
}
use benchamel.Memcached.Bounds.{get_value_writes}
use benchamel.Memcached.Verdict.{client_join_verdict}

abbrev chunks : List ℕ
chunks = replicate 100 0

-- Two threads have added ten each.
abbrev counted_twenty : Socket
counted_twenty = record {
  incoming = codes "VALUE test 0 2\r\n20\r\nEND\r\n";
  offers = chunks;
  sends = some 4 ∷ some 100 ∷ [];
  outgoing = [];
}

client_join_verdict_example :
    client_join defaults (some counted_twenty)
    ≡ (if 2 * 1 * 10 % 2 ^ 32 == 20 then exits 0 else aborts)
unfolding decimal
client_join_verdict_example =
    client_join_verdict defaults 20 counted_twenty (omega arith) refl tt (omega arith)

-- A value of 66 bytes for a buffer of 64.
abbrev long_value : Socket
long_value = record {
  incoming = replicate 66 b'7' ++ codes "\r\nEND\r\n";
  offers = 100 ∷ 100 ∷ 100 ∷ [];
  sends = [];
  outgoing = [];
}

abbrev overflow : Got
overflow = record { text = replicate 63 b'7'; written = 66 }

get_value_writes_example :
    (overflow.written ≡ 66)
    × (length overflow.text ≤ (64 + 2 ^ 64 - 1) % 2 ^ 64)
    × (length overflow.text ≤ 66)
unfolding get_value recv_exact exact_from recv_line line_from c_str
get_value_writes_example =
    get_value_writes long_value (record long_value { incoming = []; offers = 100 ∷ [] }) 66 64
      overflow refl
