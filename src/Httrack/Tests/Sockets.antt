-- ===== src/Httrack/Tests/Sockets.antt =====
-- The theorems about the sockets and requests of httrack-client.c at concrete inputs.
use benchamel.Base.{
  ℕ, zero, suc, ◌+◌, ◌<◌, ◌≡◌, refl, ◌⊎◌, Bool, true, Option, none, some, List, [], ◌∷◌, arith,
  Bytes, codes,
}
use benchamel.Httrack.Buffer.{Allocator}
use benchamel.Httrack.Transport.{
  Connection, Network, SendResult, sent, send_interrupted, RecvResult, received, recv_interrupted,
  send_all,
}
use benchamel.Httrack.Transport.Laws.{closed}
use benchamel.Httrack.Http.{request_pieces, http_request}
use benchamel.Httrack.Http.Text.{joined}
use benchamel.Httrack.Http.Exchange.{Answers, http_request-Answers}

abbrev generous : Allocator
generous = record { grants = λ n. true; junk = λ i. 7 }

-- one byte, an interruption, then the rest
abbrev slow_sends : List SendResult
slow_sends = sent 1 ∷ send_interrupted ∷ sent 0 ∷ sent 500 ∷ []

abbrev response : List RecvResult
response =
    received (codes "HTTP/1.0 200 OK\r\n")
    ∷ recv_interrupted
    ∷ received (codes "\r\nhello")
    ∷ received []
    ∷ []

abbrev server : Connection
server = record { sends = slow_sends; recvs = response }

-- The server answers from the second attempt on.
abbrev late : ℕ → Option Connection
late zero = none
late (suc n) = some server

abbrev late_network : Network
late_network = record { attempts = late; at = 0; wire = [] }

abbrev request : Bytes
request = codes "GET /a HTTP/1.0\r\nHost: 127.0.0.1\r\nConnection: close\r\n\r\n"

late_first : (j : ℕ) → j < 1 → late (0 + j) ≡ none
late_first zero h = refl
late_first (suc j) h = absurd (omega arith)

http_request-Answers_example :
    Answers
      (record late_network { at = 0 + 1 + 1; wire = request ∷ [] })
      true
      closed
      (codes "HTTP/1.0 200 OK\r\n\r\nhello")
      (http_request generous late_network (codes "GET") (codes "/a") none)
    × ((true ≡ Bool.false) ⊎ (request ≡ joined (request_pieces (codes "GET") (codes "/a") none)))
unfolding joined send_all
http_request-Answers_example =
    http_request-Answers generous server late_network (codes "GET") (codes "/a") none 1 true request
      (λ n. refl) (omega arith) (omega arith) tt (omega arith) (omega arith) refl late_first
      (omega arith) refl
