-- ===== src/Httrack/Transport/Laws.antt =====
-- What the socket loops guarantee, whatever the operating system answers.
use benchamel.Base.{
  ℕ, zero, suc, ◌+◌, ◌-◌, ◌<◌, ◌^◌, ◌≡◌, refl, ap, sym, ◌∙◌, ◌⊎◌, inl, inr, Bool, true, false,
  Option, none, some, List, [], ◌∷◌, ◌++◌, arith, Bytes, length, take, drop, append_assoc,
  append-nil, take-append-drop, length-drop, length-append,
}
use mathlib.Core.Path.{subst}
use native.Mathlib.Decide.{ℕ_discrete}
use benchamel.Base.Outcome.{Outcome, returns, unfinished, ◌>>=◌}
use benchamel.Httrack.Buffer.{Allocator, Buf, null_buf}
use benchamel.Httrack.Buffer.Laws.{contents, IsBuf, IsGenerous, append_bytes-Appended}
use benchamel.Httrack.Buffer.Chain.{null_buf-IsBuf}
use benchamel.Httrack.Transport.{
  SendResult, sent, send_interrupted, send_failed, RecvResult, received, recv_interrupted,
  recv_failed, send_all, finish_data, recv_all,
}

-- What is on the wire afterwards begins the text; all of it, if the call reports success.
abbrev pub Sends : Bytes → Bytes → Outcome (Bool × Bytes) → Type 0
Sends wire buf (returns (ok, out)) =
    (rest : Bytes) × (wire ++ buf ≡ out ++ rest) × ((ok ≡ false) ⊎ (rest ≡ []))
Sends wire buf _ = Unit

Sends-moved :
    (w w' buf buf' : Bytes) (o : Outcome (Bool × Bytes))
    → w' ++ buf' ≡ w ++ buf
    → Sends w' buf' o
    → Sends w buf o
Sends-moved w w' buf buf' (returns (ok, out)) e (rest, f, d) = (rest, sym e ∙ f, d)
Sends-moved w w' buf buf' _ e s = tt

-- However the operating system splits, interrupts or breaks off the transfer, the bytes on the wire
-- when `send_all` returns are the first bytes of the text in order, and all of them if it reports
-- success.
pub send_all-Sends :
    (results : List SendResult) (buf wire : Bytes) → Sends wire buf (send_all results buf wire)
unfolding send_all
send_all-Sends results [] wire = ([], refl, inr refl)
send_all-Sends [] (b ∷ buf) wire = tt
send_all-Sends (sent n ∷ results) (b ∷ buf) wire =
    Sends-moved wire (wire ++ take n (b ∷ buf)) (b ∷ buf) (drop n (b ∷ buf)) _
      (append_assoc wire (take n (b ∷ buf)) (drop n (b ∷ buf))
        ∙ ap (λ r. wire ++ r) (take-append-drop n (b ∷ buf)))
      (send_all-Sends results (drop n (b ∷ buf)) (wire ++ take n (b ∷ buf)))
send_all-Sends (send_interrupted ∷ results) (b ∷ buf) wire = send_all-Sends results (b ∷ buf) wire
send_all-Sends (send_failed ∷ results) (b ∷ buf) wire = (b ∷ buf, refl, inl refl)

pub send_all_sent :
    (results : List SendResult) (buf out : Bytes) (ok : Bool)
    → send_all results buf [] ≡ returns (ok, out)
    → (ok ≡ false) ⊎ (out ≡ buf)
send_all_sent results buf out ok e =
    let (rest, f, d) = subst (Sends [] buf) e (send_all-Sends results buf []) in finish rest f d
  where
    finish :
        (rest : Bytes) → buf ≡ out ++ rest → (ok ≡ false) ⊎ (rest ≡ []) → (ok ≡ false) ⊎ (out ≡ buf)
    finish rest f (inl fails) = inl fails
    finish rest f (inr done) = inr (sym (f ∙ (ap (λ r. out ++ r) done ∙ append-nil out)))

-- The calls that take at least a byte, before one that fails; a failure ends the loop at once.
abbrev pub Progress : ℕ → List SendResult → Type 0
Progress n [] = n ≡ 0
Progress n (sent zero ∷ results) = Progress n results
Progress n (sent (suc k) ∷ results) = Progress (n - suc k) results
Progress n (send_interrupted ∷ results) = Progress n results
Progress n (send_failed ∷ results) = Unit

-- `send_all` returns as soon as the operating system has taken as many bytes as there are, or has
-- failed, whatever interruptions and empty results come in between.
send_all_returns :
    (results : List SendResult) (buf wire : Bytes)
    → Progress (length buf) results
    → (r : Bool × Bytes) × (send_all results buf wire ≡ returns r)
unfolding send_all
send_all_returns results [] wire h = ((true, wire), refl)
send_all_returns [] (b ∷ buf) wire h = absurd (omega arith)
send_all_returns (sent zero ∷ results) (b ∷ buf) wire h =
    send_all_returns results (b ∷ buf) (wire ++ []) h
send_all_returns (sent (suc k) ∷ results) (b ∷ buf) wire h =
    send_all_returns results (drop (suc k) (b ∷ buf)) (wire ++ take (suc k) (b ∷ buf))
      (subst (λ n. Progress n results) (sym (length-drop (suc k) (b ∷ buf))) h)
send_all_returns (send_interrupted ∷ results) (b ∷ buf) wire h =
    send_all_returns results (b ∷ buf) wire h
send_all_returns (send_failed ∷ results) (b ∷ buf) wire h = ((false, wire), refl)

-- How a stream of `recv` results ends, and the bytes that it brings until then.
pub data End : Type 0 where
  closed broken waiting : End

abbrev pub stream_end : List RecvResult → End
stream_end [] = waiting
stream_end (received [] ∷ results) = closed
stream_end (received (c ∷ cs) ∷ results) = stream_end results
stream_end (recv_interrupted ∷ results) = stream_end results
stream_end (recv_failed ∷ results) = broken

abbrev pub stream_text : List RecvResult → Bytes
stream_text [] = []
stream_text (received [] ∷ results) = []
stream_text (received (c ∷ cs) ∷ results) = (c ∷ cs) ++ stream_text results
stream_text (recv_interrupted ∷ results) = stream_text results
stream_text (recv_failed ∷ results) = []

-- What `recv_all` does with a stream that ends so and brings these bytes.
abbrev pub Receives : Bytes → End → Outcome (Option Buf) → Type 0
Receives text closed r =
    (out : Buf) × (r ≡ returns (some out)) × IsBuf out × (contents out ≡ text) × (0 < out.cap)
Receives text broken r = r ≡ returns none
Receives text waiting r = r ≡ unfinished

module _ (a : Allocator) (g : IsGenerous a) where
  finish_data-Receives :
      (b : Buf) → IsBuf b → Receives (contents b) closed (do r ← finish_data a b; returns (some r))
  unfolding finish_data
  finish_data-Receives b v = elim (ℕ_discrete b.cap 0) [
    | yes e ↦ (
      record { mem = 0 ∷ []; len = 0; cap = 1 },
      ground (arith, g 1),
      record { block = refl; small = omega arith; room = inr (omega arith, refl) },
      ap (λ n. take n b.mem) {x = 0} (ground (arith, v.room)),
      omega arith,
    )
    | no ne ↦ (b, ground arith, v, refl, omega arith)
  ]

  receive_from :
      (results : List RecvResult) (b : Buf)
      → IsBuf b
      → b.len + length (stream_text results) < 2 ^ 63
      → Receives (contents b ++ stream_text results) (stream_end results) (recv_all a results b)
  unfolding recv_all
  receive_from [] b v h = refl
  receive_from (received [] ∷ results) b v h =
      subst (λ t. Receives t closed (do r ← finish_data a b; returns (some r)))
        (sym (append-nil (contents b))) (finish_data-Receives b v)
  receive_from (received (c ∷ cs) ∷ results) b v h =
      let sizes = length-append (c ∷ cs) (stream_text results) in
      let n = append_bytes-Appended a b (c ∷ cs) g v (omega (arith, sizes)) in
      rw n.returned (
        subst (λ t. Receives t (stream_end results) (recv_all a results n.out))
          (ap (λ t. t ++ stream_text results) n.text
            ∙ append_assoc (contents b) (c ∷ cs) (stream_text results))
          (receive_from results n.out n.valid (omega (arith, sizes, n.longer))))
  receive_from (recv_interrupted ∷ results) b v h = receive_from results b v h
  receive_from (recv_failed ∷ results) b v h = refl

  -- With an allocator that never refuses and fewer than 2^63 bytes, `recv_all` returns exactly the
  -- bytes received, in order, when the peer closes; it fails when a call fails other than by an
  -- interruption; and it waits as long as the peer does neither.
  pub recv_all-Receives :
      (results : List RecvResult)
      → length (stream_text results) < 2 ^ 63
      → Receives (stream_text results) (stream_end results) (recv_all a results null_buf)
  recv_all-Receives results h = receive_from results null_buf null_buf-IsBuf (omega arith)
