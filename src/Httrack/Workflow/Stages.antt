-- ===== src/Httrack/Workflow/Stages.antt =====
-- concurrency-bugs/httrack-3.43.9/httrack-client.c: the stages of the start workflow.
use mathlib.Core.Path.{subst}
use benchamel.Base.{◌≡◌, ◌≢◌, ap, sym, ◌∙◌, Option, none, some, List, [], ◌∷◌, Bytes, codes}
use benchamel.Base.Outcome.{Outcome, returns, >>=-eq-returns}
use benchamel.Libc.{c_str}
use benchamel.Httrack.Buffer.{Allocator, Buf}
use benchamel.Httrack.Scan.{extract_input_value, extract_textarea_value}
use benchamel.Httrack.Transport.{Network}
use benchamel.Httrack.Workflow.{
  found, built, nonempty, Proposal, ◌>>=◌, get_, post, open_session, read_proposal,
}
use benchamel.Httrack.Workflow.Wire.{IsRequest, Flow-inv, http_request-wire}

pub record Sent (a : Allocator) (method path : Bytes) (body : Option Bytes) (net net' : Network)
    : Type 0 where
  pub out : Bytes
  pub is : IsRequest a method path body out
  pub log : net'.wire ≡ out ∷ net.wire

get_-Sent :
    (a : Allocator) (path t : Bytes) (net net' : Network)
    → get_ a path net ≡ returns (some t, net')
    → Sent a (codes "GET") path none net net'
unfolding get_
get_-Sent a path t net net' h =
    let (out, r, w) = http_request-wire a net net' (codes "GET") path none t h in
    record { out = out; is = r; log = w }

pub post-Sent :
    (a : Allocator) (path body t : Bytes) (net net' : Network)
    → post a path body net ≡ returns (some t, net')
    → Sent a (codes "POST") path (some body) net net'
unfolding post
post-Sent a path body t net net' h =
    let (out, r, w) = http_request-wire a net net' (codes "POST") path (some body) t h in
    record { out = out; is = r; log = w }

found-inv :
    (o : Outcome (Option Bytes)) (net net' : Network) (x : Bytes)
    → found o net ≡ returns (some x, net')
    → (o ≡ returns (some x)) × (net ≡ net')
found-inv o net net' x h =
    let (r, e, f) = >>=-eq-returns o (λ r. returns (r, net)) h in (e ∙ ap returns (cc f), cc f)

pub built-inv :
    (o : Outcome Buf) (net net' : Network) (x : Bytes)
    → built o net ≡ returns (some x, net')
    → (b : Buf) × (o ≡ returns b) × (c_str b.mem ≡ x) × (net ≡ net')
built-inv o net net' x h =
    let (b, e, f) = >>=-eq-returns o (λ b. returns (some (c_str b.mem), net)) h in
    (b, e, cc f, cc f)

nonempty-inv :
    (v : Bytes) (net net' : Network) (x : Bytes)
    → nonempty v net ≡ returns (some x, net')
    → (v ≡ x) × (x ≢ []) × (net ≡ net')
nonempty-inv [] net net' x h = cc
nonempty-inv (c ∷ cs) net net' x h = (cc h, λ e. cc (h, e), cc h)

pub end-inv :
    {A : Type 0} (x t : A) (net net' : Network)
    → ◌≡◌ {A = Outcome (Option A × Network)} (returns (some x, net)) (returns (some t, net'))
    → (x ≡ t) × (net ≡ net')
end-inv x t net net' h = (cc h, cc h)

-- A page has been fetched and something sent for what was built from it.
pub record Opened (a : Allocator) (sid : Bytes) (before after : List Bytes) : Type 0 where
  pub out : Bytes
  pub is : IsRequest a (codes "GET") (codes "/server/index.html") none out
  pub log : after ≡ out ∷ before
  pub has_sid : sid ≢ []

pub open_session-Opened :
    (a : Allocator) (net net' : Network) (t : Bytes)
    → open_session a net ≡ returns (some t, net')
    → Opened a t net.wire net'.wire
unfolding open_session
open_session-Opened a net net' t h =
    let (index, n1, e1, h1) = Flow-inv (get_ a (codes "/server/index.html")) _ net net' t h in
    let (value, n2, e2, h2) =
      Flow-inv (found (extract_input_value a index (codes "sid"))) _ n1 net' t h1 in
    let r = get_-Sent a _ index net n1 e1 in
    let q = found-inv _ n1 n2 value e2 in
    let n = nonempty-inv value n2 net' t h2 in
    record {
      out = r.out;
      is = r.is;
      log = sym (ap (λ m. m.wire) (q.1 ∙ n.2)) ∙ r.log;
      has_sid = n.1;
    }

-- A page has been fetched, and a body has been built and posted.
pub record Posted (a : Allocator) (page target : Bytes) (build : Outcome Buf)
    (before after : List Bytes) : Type 0 where
  pub body : Buf
  pub fetched : Bytes
  pub posted : Bytes
  pub built_by : build ≡ returns body
  pub fetch : IsRequest a (codes "GET") page none fetched
  pub send : IsRequest a (codes "POST") target (some (c_str body.mem)) posted
  pub log : after ≡ posted ∷ fetched ∷ before

pub fetch_and_post-Posted :
    (a : Allocator) (page target : Bytes) (build : Outcome Buf) (net net' : Network) (t : Bytes)
    → (do p ← get_ a page; b ← built build; post a target b) net ≡ returns (some t, net')
    → Posted a page target build net.wire net'.wire
fetch_and_post-Posted a page target build net net' t h =
    let (text, n1, e1, h1) = Flow-inv (get_ a page) _ net net' t h in
    let (body, n2, e2, h2) = Flow-inv (built build) _ n1 net' t h1 in
    let r = get_-Sent a page text net n1 e1 in
    let (b, q, c, w) = built-inv build n1 n2 body e2 in
    let s = post-Sent a target body t n2 net' h2 in
    record {
      body = b;
      fetched = r.out;
      posted = s.out;
      built_by = q;
      fetch = r.is;
      send = subst (λ x. IsRequest a (codes "POST") target (some x) s.out) (sym c) s.is;
      log = s.log ∙ ap (λ l. s.out ∷ l) (sym (ap (λ m. m.wire) w) ∙ r.log);
    }

pub record Proposed (a : Allocator) (p : Proposal) (before after : List Bytes) : Type 0 where
  pub out : Bytes
  pub is : IsRequest a (codes "GET") (codes "/server/step4.html") none out
  pub log : after ≡ out ∷ before
  pub has_command : p.command ≢ []

pub read_proposal-Proposed :
    (a : Allocator) (net net' : Network) (t : Proposal)
    → read_proposal a net ≡ returns (some t, net')
    → Proposed a t net.wire net'.wire
unfolding read_proposal
read_proposal-Proposed a net net' t h =
    let (step4, n1, e1, h1) = Flow-inv (get_ a (codes "/server/step4.html")) _ net net' t h in
    let (command, n2, e2, h2) =
      Flow-inv (found (extract_textarea_value a step4 (codes "command"))) _ n1 net' t h1 in
    let (winprofile, n3, e3, h3) =
      Flow-inv (found (extract_textarea_value a step4 (codes "winprofile"))) _ n2 net' t h2 in
    let (userprofile, n4, e4, h4) =
      Flow-inv (found (extract_textarea_value a step4 (codes "userprofile"))) _ n3 net' t h3 in
    let (start, n5, e5, h5) = Flow-inv (nonempty command) _ n4 net' t h4 in
    let r = get_-Sent a _ step4 net n1 e1 in
    let q = (found-inv _ n1 n2 command e2).1 in
    let w = (found-inv _ n2 n3 winprofile e3).1 in
    let u = (found-inv _ n3 n4 userprofile e4).1 in
    let n = nonempty-inv command n4 n5 start e5 in
    let v = end-inv _ t n5 net' h5 in
    record {
      out = r.out;
      is = r.is;
      log = sym (ap (λ m. m.wire) (q ∙ (w ∙ (u ∙ (n.2 ∙ v.1))))) ∙ r.log;
      has_command = λ e. n.1 (ap (λ p. p.command) v.0 ∙ e);
    }
