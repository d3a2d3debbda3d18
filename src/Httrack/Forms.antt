-- ===== src/Httrack/Forms.antt =====
-- concurrency-bugs/httrack-3.43.9/httrack-client.c: the bodies of the POST requests.
-- Each `build_*` function is a row of `append_form_pair` calls on a body that starts as NULL; the
-- row is the list of their arguments, in order.
pub mod Text
pub mod Decode
pub mod Bodies
use benchamel.Base.{List, [], ◌∷◌, ◌++◌, Bytes, codes, take, ltb, if◌then◌else◌}
use benchamel.Base.Outcome.{Outcome, returns, ◌>>=◌}
use benchamel.Httrack.Buffer.{Allocator, Buf, null_buf, append_cstr}
use benchamel.Httrack.Url.{append_urlencoded}

abbrev pub Pair : Type 0
Pair = Bytes × Bytes

pub append_form_pair : Allocator → Buf → Bytes → Bytes → Outcome Buf
append_form_pair a body name value = do
  b ← if ltb 0 body.len then append_cstr a body (codes "&") else returns body
  c ← append_urlencoded a b name
  d ← append_cstr a c (codes "=")
  append_urlencoded a d value

-- The calls `append_form_pair(&body, &len, &cap, name, value)` of a builder, one after the other.
pub append_form_pairs : Allocator → Buf → List Pair → Outcome Buf
append_form_pairs a body [] = returns body
append_form_pairs a body ((name, value) ∷ ps) = do
  b ← append_form_pair a body name value
  append_form_pairs a b ps

abbrev pub client_project_root : Bytes
client_project_root = codes "/tmp/benchamel-httrack"

abbrev pub client_target_url : Bytes
client_target_url = codes "http://127.0.0.1:50081/"

abbrev pub step2_pairs : Bytes → Bytes → List Pair
step2_pairs sid projname =
    (codes "sid", sid)
    ∷ (codes "redirect", [])
    ∷ (codes "todo", codes "1")
    ∷ (codes "projname", projname)
    ∷ (codes "projcateg", [])
    ∷ (codes "path", client_project_root)
    ∷ []

pub build_step2_body : Allocator → Bytes → Bytes → Outcome Buf
build_step2_body a sid projname = append_form_pairs a null_buf (step2_pairs sid projname)

abbrev pub step3_pairs : Bytes → Bytes → List Pair
step3_pairs sid projname =
    (codes "sid", sid)
    ∷ (codes "redirect", [])
    ∷ (codes "todo", codes "1")
    ∷ (codes "projname", projname)
    ∷ (codes "projcateg", [])
    ∷ (codes "path", client_project_root)
    ∷ (codes "urls", client_target_url)
    ∷ (codes "filelist", [])
    ∷ []

pub build_step3_body : Allocator → Bytes → Bytes → Outcome Buf
build_step3_body a sid projname = append_form_pairs a null_buf (step3_pairs sid projname)

-- `snprintf` into `projpath[512]`: at most 511 bytes are kept.
unfoldable pub project_path : Bytes → Bytes
project_path projname = take 511 (client_project_root ++ (codes "/" ++ (projname ++ codes "/")))

unfoldable pub start_pairs : Bytes → Bytes → Bytes → Bytes → Bytes → List Pair
start_pairs sid projname command winprofile userprofile =
    (codes "sid", sid)
    ∷ (codes "redirect", [])
    ∷ (codes "projpath", project_path projname)
    ∷ (codes "command_arg_profile", codes "path,lang")
    ∷ (codes "command_do", codes "start")
    ∷ (codes "command", command)
    ∷ (codes "winprofile", winprofile)
    ∷ (codes "userprofile", userprofile)
    ∷ (codes "projname", projname)
    ∷ (codes "projcateg", [])
    ∷ (codes "path", client_project_root)
    ∷ (codes "urls", client_target_url)
    ∷ (codes "filelist", [])
    ∷ (codes "todo", codes "1")
    ∷ []

pub build_start_body : Allocator → Bytes → Bytes → Bytes → Bytes → Bytes → Outcome Buf
build_start_body a sid projname command winprofile userprofile =
    append_form_pairs a null_buf (start_pairs sid projname command winprofile userprofile)

abbrev pub cancel_pairs : Bytes → List Pair
cancel_pairs sid = (codes "sid", sid) ∷ (codes "command", codes "cancel") ∷ []

pub build_cancel_body : Allocator → Bytes → Outcome Buf
build_cancel_body a sid = append_form_pairs a null_buf (cancel_pairs sid)

abbrev pub cancel_file_pairs : Bytes → Bytes → List Pair
cancel_file_pairs sid command = (codes "sid", sid) ∷ (codes "command", command) ∷ []

pub build_cancel_file_body : Allocator → Bytes → Bytes → Outcome Buf
build_cancel_file_body a sid command = append_form_pairs a null_buf (cancel_file_pairs sid command)
