-- ===== src/Httrack/Workflow/Started.antt =====
-- What has happened when the start workflow succeeds.
use mathlib.Core.Path.{subst}
use benchamel.Base.{ℕ, ◌≡◌, ◌≢◌, ap, sym, ◌∙◌, Option, none, some, List, [], ◌∷◌, Bytes, codes}
use benchamel.Base.Outcome.{Outcome, returns}
use benchamel.Libc.{c_str}
use benchamel.Httrack.Buffer.{Allocator, Buf}
use benchamel.Httrack.Forms.{build_step2_body, build_step3_body, build_start_body}
use benchamel.Httrack.Transport.{Network}
use benchamel.Httrack.Workflow.{
  built, Proposal, open_session, post_step2, post_step3, read_proposal, post_start, project_name,
  run_start_workflow,
}
use benchamel.Httrack.Workflow.Wire.{IsRequest, Flow-inv}
use benchamel.Httrack.Workflow.Stages.{
  post-Sent, built-inv, end-inv, open_session-Opened, Posted, fetch_and_post-Posted,
  read_proposal-Proposed,
}

-- The seven requests of the workflow, on the wire in this order (the latest first), with the bodies
-- that were built for this session and project, and what the server had to propose for it.
pub record Started (a : Allocator) (pid : ℕ) (sid : Bytes) (before after : List Bytes)
    : Type 0 where
  pub proposal : Proposal
  pub has_sid : sid ≢ []
  pub has_command : proposal.command ≢ []
  pub index : Bytes
  pub step4 : Bytes
  pub start : Bytes
  pub body : Buf
  pub opened : List Bytes
  pub middle : List Bytes
  pub last : List Bytes
  pub index_is : IsRequest a (codes "GET") (codes "/server/index.html") none index
  pub opened_is : opened ≡ index ∷ before
  pub step2 :
      Posted a
        (codes "/server/step2.html")
        (codes "/server/step3.html")
        (build_step2_body a sid (project_name pid))
        opened
        middle
  pub step3 :
      Posted a
        (codes "/server/step3.html")
        (codes "/server/step4.html")
        (build_step3_body a sid (project_name pid))
        middle
        last
  pub step4_is : IsRequest a (codes "GET") (codes "/server/step4.html") none step4
  pub start_built :
      build_start_body a sid
        (project_name pid)
        proposal.command
        proposal.winprofile
        proposal.userprofile
      ≡ returns body
  pub start_is :
      IsRequest a (codes "POST") (codes "/server/step4.html") (some (c_str body.mem)) start
  pub after_is : after ≡ start ∷ step4 ∷ last

all_stages :
    (a : Allocator) (pid : ℕ) (sid : Bytes) (p : Proposal) (r2 r3 r4 : Bytes)
    (net n1 n2 n3 n4 n5 : Network)
    → open_session a net ≡ returns (some sid, n1)
    → post_step2 a pid sid n1 ≡ returns (some r2, n2)
    → post_step3 a pid sid n2 ≡ returns (some r3, n3)
    → read_proposal a n3 ≡ returns (some p, n4)
    → post_start a pid sid p n4 ≡ returns (some r4, n5)
    → Started a pid sid net.wire n5.wire
unfolding post_start post_step2 post_step3
all_stages a pid sid p r2 r3 r4 net n1 n2 n3 n4 n5 e1 e2 e3 e4 e5 =
    let o = open_session-Opened a net n1 sid e1 in
    let q = read_proposal-Proposed a n3 n4 p e4 in
    let (x, m, f, g) = Flow-inv (built _) _ n4 n5 r4 e5 in
    let (b, u, c, w) = built-inv _ n4 m x f in
    let s = post-Sent a _ x r4 m n5 g in
    record {
      proposal = p;
      has_sid = o.has_sid;
      has_command = q.has_command;
      index = o.out;
      step4 = q.out;
      start = s.out;
      body = b;
      opened = n1.wire;
      middle = n2.wire;
      last = n3.wire;
      index_is = o.is;
      opened_is = o.log;
      step2 = fetch_and_post-Posted a _ _ _ n1 n2 r2 e2;
      step3 = fetch_and_post-Posted a _ _ _ n2 n3 r3 e3;
      step4_is = q.is;
      start_built = u;
      start_is =
          subst (λ y. IsRequest a (codes "POST") (codes "/server/step4.html") (some y) s.out)
            (sym c) s.is;
      after_is = s.log ∙ ap (λ l. s.out ∷ l) (sym (ap (λ k. k.wire) w) ∙ q.log);
    }

pub success-Started :
    (a : Allocator) (pid : ℕ) (net net' : Network) (sid : Bytes)
    → run_start_workflow a pid net ≡ returns (some sid, net')
    → Started a pid sid net.wire net'.wire
unfolding run_start_workflow post_start post_step2 post_step3
success-Started a pid net net' t h =
    let (sid, n1, e1, h1) = Flow-inv (open_session a) _ net net' t h in
    let (reply2, n2, e2, h2) = Flow-inv (post_step2 a pid sid) _ n1 net' t h1 in
    let (reply3, n3, e3, h3) = Flow-inv (post_step3 a pid sid) _ n2 net' t h2 in
    let (p, n4, e4, h4) = Flow-inv (read_proposal a) _ n3 net' t h3 in
    let (reply4, n5, e5, h5) = Flow-inv (post_start a pid sid p) _ n4 net' t h4 in
    let v = end-inv sid t n5 net' h5 in
    subst (λ s. Started a pid s net.wire net'.wire) v.0
      (subst (λ n. Started a pid sid net.wire n.wire) v.1
        (all_stages a pid sid p reply2 reply3 reply4 net n1 n2 n3 n4 n5 e1 e2 e3 e4 e5))

-- What a run of the workflow has done: nothing is said of one that fails or does not return.
abbrev pub Achieves : Allocator → ℕ → Network → Outcome (Option Bytes × Network) → Type 0
Achieves a pid net (returns (some sid, net')) = Started a pid sid net.wire net'.wire
Achieves a pid net _ = Unit
