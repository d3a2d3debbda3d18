-- ===== src/Httrack/Forms/Bodies.antt =====
-- What a server reads from each body that the client posts.
use benchamel.Base.{
  ℕ, ◌<◌, ◌^◌, ◌≡◌, ◌++◌, List, ◌∷◌, some, Bytes, codes, length, All, All-append, All-take, arith,
  ◌∙◌, ap,
}
use benchamel.Base.Outcome.{Outcome, returns}
use benchamel.Httrack.Buffer.{Allocator, Buf, null_buf}
use benchamel.Httrack.Buffer.Laws.{contents, IsBuf, IsGenerous}
use benchamel.Httrack.Forms.{
  Pair, client_project_root, append_form_pairs, step2_pairs, step3_pairs, start_pairs, project_path,
  cancel_pairs, cancel_file_pairs, build_step2_body, build_step3_body, build_start_body,
  build_cancel_body, build_cancel_file_body,
}
use benchamel.Httrack.Forms.Text.{form_text, append_form_pairs-Appended}
use benchamel.Httrack.Forms.Decode.{IsText, IsTextPair, decode_form, decode_form-form_text}

-- The call returns a sound buffer from which a reader of forms gets exactly the pairs `ps`.
pub record Posts (ps : List Pair) (r : Outcome Buf) : Type 0 where
  pub out : Buf
  pub returned : r ≡ returns out
  pub valid : IsBuf out
  pub read : decode_form (contents out) ≡ some ps

-- Building a form from one or more pairs of byte strings returns a body that reads back as them.
pub append_form_pairs-Posts :
    (a : Allocator) (p : Pair) (ps : List Pair)
    → IsGenerous a
    → All IsTextPair (p ∷ ps)
    → length (form_text (p ∷ ps)) < 2 ^ 63
    → Posts (p ∷ ps) (append_form_pairs a null_buf (p ∷ ps))
append_form_pairs-Posts a p ps g t h =
    let built = append_form_pairs-Appended a g (p ∷ ps) h in
    record {
      out = built.out;
      returned = built.returned;
      valid = built.valid;
      read = ap decode_form built.text ∙ decode_form-form_text p ps t;
    }

project_path-IsText : (projname : Bytes) → IsText projname → IsText (project_path projname)
unfolding project_path
project_path-IsText projname p =
    let IsByte = λ (c : ℕ). c < 256 in
    let slash = codes "/" in
    let tail = All-append IsByte projname slash p (omega arith) in
    let path = All-append IsByte slash (projname ++ slash) (omega arith) tail in
    All-take IsByte 511 (client_project_root ++ (slash ++ (projname ++ slash)))
      (All-append IsByte client_project_root (slash ++ (projname ++ slash)) (omega arith) path)

module _ (a : Allocator) (sid : Bytes) (g : IsGenerous a) (s : IsText sid) where
  -- The body of the second step reads back as its six fields, whatever bytes the session id and
  -- the project name hold, if the allocator never refuses and the body is shorter than 2^63 bytes.
  pub build_step2_body-Posts :
      (projname : Bytes)
      → IsText projname
      → length (form_text (step2_pairs sid projname)) < 2 ^ 63
      → Posts (step2_pairs sid projname) (build_step2_body a sid projname)
  unfolding build_step2_body
  build_step2_body-Posts projname p h =
      append_form_pairs-Posts a _ _ g
        (
          (omega arith, s),
          (
            (omega arith, tt),
            (
              (omega arith, omega arith),
              ((omega arith, p), ((omega arith, tt), ((omega arith, omega arith), tt))),
            ),
          ),
        )
        h

  -- So does the body of the third step, with its eight fields.
  pub build_step3_body-Posts :
      (projname : Bytes)
      → IsText projname
      → length (form_text (step3_pairs sid projname)) < 2 ^ 63
      → Posts (step3_pairs sid projname) (build_step3_body a sid projname)
  unfolding build_step3_body
  build_step3_body-Posts projname p h =
      append_form_pairs-Posts a _ _ g
        (
          (omega arith, s),
          (
            (omega arith, tt),
            (
              (omega arith, omega arith),
              (
                (omega arith, p),
                (
                  (omega arith, tt),
                  (
                    (omega arith, omega arith),
                    ((omega arith, omega arith), ((omega arith, tt), tt)),
                  ),
                ),
              ),
            ),
          ),
        )
        h

  -- The body that starts the mirror reads back as its fourteen fields: the session id, the project
  -- path cut to 511 bytes, and the command and the two profiles that the server proposed, whatever
  -- bytes they hold, if the allocator never refuses and the body is shorter than 2^63 bytes.
  pub build_start_body-Posts :
      (projname command winprofile userprofile : Bytes)
      → IsText projname
      → IsText command
      → IsText winprofile
      → IsText userprofile
      → length (form_text (start_pairs sid projname command winprofile userprofile)) < 2 ^ 63
      → Posts
          (start_pairs sid projname command winprofile userprofile)
          (build_start_body a sid projname command winprofile userprofile)
  unfolding build_start_body start_pairs
  build_start_body-Posts projname command winprofile userprofile p c w u h =
      append_form_pairs-Posts a _ _ g
        (
          (omega arith, s),
          (
            (omega arith, tt),
            (
              (omega arith, project_path-IsText projname p),
              (
                (omega arith, omega arith),
                (
                  (omega arith, omega arith),
                  (
                    (omega arith, c),
                    (
                      (omega arith, w),
                      (
                        (omega arith, u),
                        (
                          (omega arith, p),
                          (
                            (omega arith, tt),
                            (
                              (omega arith, omega arith),
                              (
                                (omega arith, omega arith),
                                ((omega arith, tt), ((omega arith, omega arith), tt)),
                              ),
                            ),
                          ),
                        ),
                      ),
                    ),
                  ),
                ),
              ),
            ),
          ),
        )
        h

  pub build_cancel_body-Posts :
      length (form_text (cancel_pairs sid)) < 2 ^ 63
      → Posts (cancel_pairs sid) (build_cancel_body a sid)
  unfolding build_cancel_body
  build_cancel_body-Posts h =
      append_form_pairs-Posts a _ _ g ((omega arith, s), ((omega arith, omega arith), tt)) h

  -- A command that cancels a file reads back as it was found in the page.
  pub build_cancel_file_body-Posts :
      (command : Bytes)
      → IsText command
      → length (form_text (cancel_file_pairs sid command)) < 2 ^ 63
      → Posts (cancel_file_pairs sid command) (build_cancel_file_body a sid command)
  unfolding build_cancel_file_body
  build_cancel_file_body-Posts command c h =
      append_form_pairs-Posts a _ _ g ((omega arith, s), ((omega arith, c), tt)) h
