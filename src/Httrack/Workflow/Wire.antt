-- ===== src/Httrack/Workflow/Wire.antt =====
-- A request that succeeds has put its whole text on the wire.
use benchamel.Base.{
  ℕ, zero, suc, ◌+◌, ◌≡◌, refl, ap, sym, ◌∙◌, ◌⊎◌, inl, inr, Bool, true, false, Option, none, some,
  [], ◌∷◌, Bytes, Option-cases, if◌then◌else◌,
}
use benchamel.Base.Outcome
use benchamel.Base.Outcome.{Outcome, returns, >>=-eq-returns}
use benchamel.Libc.{c_str}
use benchamel.Httrack.Buffer.{Allocator, Buf, null_buf}
use benchamel.Httrack.Transport.{
  Connection, Network, connect_once, connect_with_retry, send_all, recv_all,
}
use benchamel.Httrack.Transport.Laws.{send_all_sent}
use benchamel.Httrack.Http.{
  append_cstrs, request_pieces, response_body, exchange, connect_tries, request_over, http_request,
}
use benchamel.Httrack.Workflow.{Flow, next_step, ◌>>=◌}

-- The bytes are a request that the pieces of this method, path and body have built.
pub record IsRequest (a : Allocator) (method path : Bytes) (body : Option Bytes) (out : Bytes)
    : Type 0 where
  pub buffer : Buf
  pub built : append_cstrs a null_buf (request_pieces method path body) ≡ returns buffer
  pub text : out ≡ c_str buffer.mem

connect_with_retry-wire :
    (tries : ℕ) (net : Network) → (connect_with_retry tries net).1.wire ≡ net.wire
unfolding connect_with_retry connect_once
connect_with_retry-wire zero net = refl
connect_with_retry-wire (suc tries) net = elim (Option-cases (net.attempts net.at)) [
  | inl e ↦
      rw (e, connect_with_retry) (connect_with_retry-wire tries (record net { at = net.at + 1 }))
  | inr (c, e) ↦ rw (e, connect_with_retry)
]

step-inv :
    {A B : Type 0} (k : A → Flow B) (r : Option A × Network) (net' : Network) (b : B)
    → next_step k r ≡ returns (some b, net')
    → (x : A) × (mid : Network) × (r ≡ (some x, mid)) × (k x mid ≡ returns (some b, net'))
step-inv k (none, mid) net' b h = cc
step-inv k (some x, mid) net' b h = (x, mid, refl, h)

-- Inversion of a step that is followed by others, where all succeed.
pub Flow-inv :
    {A B : Type 0} (m : Flow A) (k : A → Flow B) (net net' : Network) (b : B)
    → (m >>= k) net ≡ returns (some b, net')
    → (x : A) × (mid : Network) × (m net ≡ returns (some x, mid))
      × (k x mid ≡ returns (some b, net'))
Flow-inv m k net net' b h =
    let (r, e, f) = >>=-eq-returns (m net) (next_step k) h in
    let (x, mid, s, g) = step-inv k r net' b f in (x, mid, e ∙ ap returns s, g)

-- What `exchange` does with what `recv_all` gives it.
on_response : Allocator → Network → Option Buf → Outcome (Option Bytes × Network)
on_response a net none = returns (none, net)
on_response a net (some response) =
    Outcome.◌>>=◌ (response_body a (c_str response.mem)) (λ text. returns (some text, net))

on_response-net :
    (a : Allocator) (net net' : Network) (t : Bytes) (r : Option Buf)
    → on_response a net r ≡ returns (some t, net')
    → net ≡ net'
unfolding on_response
on_response-net a net net' t none h = cc
on_response-net a net net' t (some response) h =
    let (text, e, f) = >>=-eq-returns (response_body a (c_str response.mem)) _ h in cc f

on_sent : Allocator → Connection → Network → Bool × Bytes → Outcome (Option Bytes × Network)
on_sent a fd net (ok, out) =
    Outcome.◌>>=◌ (if ok then recv_all a fd.recvs null_buf else returns none)
      (on_response a (record net { wire = out ∷ net.wire }))

on_sent-net :
    (a : Allocator) (fd : Connection) (net net' : Network) (t out : Bytes) (ok : Bool)
    → on_sent a fd net (ok, out) ≡ returns (some t, net')
    → (ok ≡ true) × (out ∷ net.wire ≡ net'.wire)
unfolding on_sent
on_sent-net a fd net net' t out false h = unfold on_response in cc h
on_sent-net a fd net net' t out true h =
    let (r, e, f) = >>=-eq-returns (recv_all a fd.recvs null_buf) _ h in
    (refl, ap (λ n. n.wire) (on_response-net a (record net { wire = out ∷ net.wire }) net' t r f))

pub exchange-wire :
    (a : Allocator) (fd : Connection) (net net' : Network) (method path : Bytes)
    (body : Option Bytes) (t : Bytes)
    → exchange a fd net method path body ≡ returns (some t, net')
    → (out : Bytes) × IsRequest a method path body out × (net'.wire ≡ out ∷ net.wire)
unfolding exchange on_sent on_response
exchange-wire a fd net net' method path body t h =
    let (b, e, f) =
      >>=-eq-returns (append_cstrs a null_buf (request_pieces method path body)) _ h in
    let (s, g, k) = >>=-eq-returns (send_all fd.sends (c_str b.mem) []) _ f in
    let (ok, w) = on_sent-net a fd net net' t s.1 s.0 k in
    (
      s.1,
      record {
        buffer = b;
        built = e;
        text = whole s.0 s.1 (c_str b.mem) ok (send_all_sent fd.sends (c_str b.mem) s.1 s.0 g);
      },
      sym w,
    )
  where
    whole : (ok : Bool) (out text : Bytes) → ok ≡ true → (ok ≡ false) ⊎ (out ≡ text) → out ≡ text
    whole ok out text e (inl f) = cc
    whole ok out text e (inr f) = f

-- A request that returns a response has put a whole request on the wire, and only that.
pub http_request-wire :
    (a : Allocator) (net net' : Network) (method path : Bytes) (body : Option Bytes) (t : Bytes)
    → http_request a net method path body ≡ returns (some t, net')
    → (out : Bytes) × IsRequest a method path body out × (net'.wire ≡ out ∷ net.wire)
unfolding http_request
http_request-wire a net net' method path body t h =
    let (out, r, w) = over (connect_with_retry connect_tries net) h in
    (out, r, w ∙ ap (λ l. out ∷ l) (connect_with_retry-wire connect_tries net))
  where
    over :
        (c : Option Connection × Network)
        → request_over a method path body c ≡ returns (some t, net')
        → (out : Bytes) × IsRequest a method path body out × (net'.wire ≡ out ∷ c.1.wire)
    over (none, n) e = unfold request_over in cc e
    over (some fd, n) e = exchange-wire a fd n net' method path body t (unfold request_over in e)
