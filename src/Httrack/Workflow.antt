-- ===== src/Httrack/Workflow.antt =====
-- concurrency-bugs/httrack-3.43.9/httrack-client.c: `run_start_workflow`, which drives the server's
-- wizard until the mirror starts.
-- A step takes the network as it stands and returns a result, or `none` where the source goes to
-- `out` with `ok == -1`. The debug files and the log are left out.
pub mod Wire
pub mod Stages
pub mod Started
use benchamel.Base.{ℕ, Option, none, some, [], ◌∷◌, ◌++◌, Bytes, codes, take}
use benchamel.Base.Outcome
use benchamel.Base.Outcome.{Outcome, returns}
use benchamel.Libc.{c_str}
use benchamel.Libc.Decimal.{decimal}
use benchamel.Httrack.Buffer.{Allocator, Buf}
use benchamel.Httrack.Forms.{build_step2_body, build_step3_body, build_start_body}
use benchamel.Httrack.Scan.{extract_input_value, extract_textarea_value}
use benchamel.Httrack.Transport.{Network}
use benchamel.Httrack.Http.{http_request}

abbrev pub Flow : Type 0 → Type 0
Flow A = Network → Outcome (Option A × Network)

abbrev pub next_step :
    {A B : Type 0} → (A → Flow B) → Option A × Network → Outcome (Option B × Network)
next_step k (none, net) = returns (none, net)
next_step k (some x, net) = k x net

infixl 5 ◌>>=◌
abbrev pub ◌>>=◌ : {A B : Type 0} → Flow A → (A → Flow B) → Flow B
◌>>=◌ m k net = Outcome.◌>>=◌ (m net) (next_step k)

abbrev pub request : Allocator → Bytes → Bytes → Option Bytes → Flow Bytes
request a method path body net = http_request a net method path body

-- A value that must have been found, `x == NULL` going to `out`.
abbrev pub found : Outcome (Option Bytes) → Flow Bytes
found o net = Outcome.◌>>=◌ o (λ r. returns (r, net))

-- a body that has been built, as a C string
abbrev pub built : Outcome Buf → Flow Bytes
built o net = Outcome.◌>>=◌ o (λ b. returns (some (c_str b.mem), net))

-- `if (x[0] == '\0') goto out;`
abbrev pub nonempty : Bytes → Flow Bytes
nonempty [] net = returns (none, net)
nonempty (c ∷ cs) net = returns (some (c ∷ cs), net)

-- `snprintf(projname, sizeof(projname), "benchamel-%ld", pid)`
pub project_name : ℕ → Bytes
project_name pid = take 127 (codes "benchamel-" ++ decimal pid)

unfoldable pub get_ : Allocator → Bytes → Flow Bytes
get_ a path = request a (codes "GET") path none

unfoldable pub post : Allocator → Bytes → Bytes → Flow Bytes
post a path body = request a (codes "POST") path (some body)

-- The workflow in five stages, up to each line that posts or keeps a result.
unfoldable pub open_session : Allocator → Flow Bytes
open_session a = do
  index ← get_ a (codes "/server/index.html")
  value ← found (extract_input_value a index (codes "sid"))
  nonempty value

unfoldable pub post_step2 : Allocator → ℕ → Bytes → Flow Bytes
post_step2 a pid sid = do
  step2 ← get_ a (codes "/server/step2.html")
  body ← built (build_step2_body a sid (project_name pid))
  post a (codes "/server/step3.html") body

unfoldable pub post_step3 : Allocator → ℕ → Bytes → Flow Bytes
post_step3 a pid sid = do
  step3 ← get_ a (codes "/server/step3.html")
  body ← built (build_step3_body a sid (project_name pid))
  post a (codes "/server/step4.html") body

-- what the server proposes for the mirror
pub record Proposal : Type 0 where
  pub command : Bytes
  pub winprofile : Bytes
  pub userprofile : Bytes

unfoldable pub read_proposal : Allocator → Flow Proposal
read_proposal a = do
  step4 ← get_ a (codes "/server/step4.html")
  command ← found (extract_textarea_value a step4 (codes "command"))
  winprofile ← found (extract_textarea_value a step4 (codes "winprofile"))
  userprofile ← found (extract_textarea_value a step4 (codes "userprofile"))
  start ← nonempty command
  λ net.
      returns
        (some (record { command = start; winprofile = winprofile; userprofile = userprofile }), net)

unfoldable pub post_start : Allocator → ℕ → Bytes → Proposal → Flow Bytes
post_start a pid sid p = do
  body ← built (build_start_body a sid (project_name pid) p.command p.winprofile p.userprofile)
  post a (codes "/server/step4.html") body

-- `some sid` is `notify_start_request(sid)` and `return 0`.
unfoldable pub run_start_workflow : Allocator → ℕ → Flow Bytes
run_start_workflow a pid = do
  sid ← open_session a
  reply2 ← post_step2 a pid sid
  reply3 ← post_step3 a pid sid
  proposal ← read_proposal a
  reply4 ← post_start a pid sid proposal
  λ net. returns (some sid, net)
