-- ===== src/Httrack/Tests/Server.antt =====
-- A server that answers the start workflow of httrack-client.c, and the run against it.
use benchamel.Base.{ℕ, zero, suc, Option, none, some, List, [], ◌∷◌, ◌++◌, Bytes, codes, true}
use benchamel.Httrack.Buffer.{Allocator}
use benchamel.Httrack.Transport.{Connection, Network, sent, received}

abbrev generous : Allocator
generous = record { grants = λ n. true; junk = λ i. 7 }

abbrev page : Bytes → Connection
page text = record {
  sends = sent 4000 ∷ [];
  recvs = received (codes "HTTP/1.0 200 OK\r\n\r\n" ++ text) ∷ received [] ∷ [];
}

abbrev nth : List Connection → ℕ → Option Connection
nth [] n = none
nth (c ∷ cs) zero = some c
nth (c ∷ cs) (suc n) = nth cs n

abbrev proposals : Bytes
proposals =
    codes
      "<textarea name=\"command\">go</textarea><textarea name=\"winprofile\">w</textarea><textarea name=\"userprofile\"></textarea>"

abbrev helpful : Network
helpful = record {
  attempts = nth (
      page (codes "<input name=\"sid\" value=\"7\">")
      ∷ page []
      ∷ page []
      ∷ page []
      ∷ page []
      ∷ page proposals
      ∷ page []
      ∷ []);
  at = 0;
  wire = [];
}
