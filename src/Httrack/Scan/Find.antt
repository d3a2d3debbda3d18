-- ===== src/Httrack/Scan/Find.antt =====
-- Where the text that the `extract_*` functions copy stands in the page.
use benchamel.Base.{
  take, ◌-◌, ◌<◌, ◌≡◌, refl, ap, ap₂, sym, ◌∙◌, Option, none, some, ◌∷◌, ◌++◌, arith, Bytes, codes,
  Lacks, length, drop, ◌==◌, if◌then◌else◌, >>=-eq-some, append_assoc, length-append,
  take-append_len,
}
use mathlib.Core.Path.{subst}
use mathlib.Core.Option.{some-injective}
use benchamel.Libc.{strstr, strchr}
use benchamel.Libc.Search.{
  First, strstr-First, First-strstr, is_prefix-split, strchr-FirstByte, strchr-append, strchr-Lacks,
}
use benchamel.Httrack.Scan.{
  name_pattern, up_to, find_input_value, find_textarea_value, find_cancel_file_command,
}

up_to_lem : (from before end : Bytes) → from ≡ before ++ end → up_to from end ≡ before
up_to_lem from before end e = rw e (
    take-append_len (length (before ++ end) - length end) before end
      (omega (arith, length-append before end)))

-- `raw` is the value of the first attribute `value` from the first `name="..."` of the page on,
-- whichever input that attribute belongs to. 127 bytes of `name="..."` are looked for.
pub record IsInputValue (html name raw : Bytes) : Type 0 where
  pub match : Bytes
  pub after : Bytes
  pub tag : First (take 127 (codes "name=\"" ++ (name ++ codes "\""))) html match
  pub attribute : First (codes "value=\"") match (codes "value=\"" ++ (raw ++ (b'"' ∷ after)))
  pub closed : Lacks b'"' raw

pub find_input_value-IsInputValue :
    (html name raw : Bytes) → find_input_value html name ≡ some raw → IsInputValue html name raw
unfolding find_input_value name_pattern
find_input_value-IsInputValue html name raw h =
    let (match, e, h1) = >>=-eq-some (strstr html (name_pattern name)) _ h in
    let (at, f, h2) = >>=-eq-some (strstr match (codes "value=\"")) _ h1 in
    let (end, g, h3) = >>=-eq-some (strchr (drop 7 at) b'"') _ h2 in
    let b = strchr-FirstByte (drop 7 at) b'"' end g in
    let tag = strstr-First match (codes "value=\"") at f in
    let same : b.before ≡ raw = sym (up_to_lem (drop 7 at) b.before end b.whole) ∙ cc h3 in
    record {
      match = match;
      after = b.after;
      tag = strstr-First html (name_pattern name) match e;
      attribute =
          subst (First (codes "value=\"") match)
            (is_prefix-split (codes "value=\"") at tag.starts
              ∙ ap (λ r. codes "value=\"" ++ r) (b.whole ∙ ap₂ ◌++◌ same b.starts))
            tag;
      closed = rw (← same) b.earlier;
    }

pub IsInputValue-found :
    (html name raw : Bytes) → IsInputValue html name raw → find_input_value html name ≡ some raw
unfolding find_input_value name_pattern
IsInputValue-found html name raw v = rw (
  First-strstr html (name_pattern name) v.match v.tag,
  First-strstr v.match (codes "value=\"") _ v.attribute,
  strchr-Lacks raw v.after b'"' v.closed,
  up_to_lem (raw ++ (b'"' ∷ v.after)) raw (b'"' ∷ v.after) refl,
)

-- `raw` stands between the first `>` behind the first `name="..."` and the next `</textarea>`.
pub record IsTextareaValue (html name raw : Bytes) : Type 0 where
  pub match : Bytes
  pub opening : Bytes
  pub body : Bytes
  pub end : Bytes
  pub tag : First (name_pattern name) html match
  pub opened : match ≡ opening ++ (b'>' ∷ body)
  pub unopened : Lacks b'>' opening
  pub closing : First (codes "</textarea>") body end
  pub inside : body ≡ raw ++ end

pub find_textarea_value-IsTextareaValue :
    (html name raw : Bytes)
    → find_textarea_value html name ≡ some raw
    → IsTextareaValue html name raw
unfolding find_textarea_value
find_textarea_value-IsTextareaValue html name raw h =
    let (match, e, h1) = >>=-eq-some (strstr html (name_pattern name)) _ h in
    let (at, f, h2) = >>=-eq-some (strchr match b'>') _ h1 in
    let (end, g, h3) = >>=-eq-some (strstr (drop 1 at) (codes "</textarea>")) _ h2 in
    let b = strchr-FirstByte match b'>' at f in
    let body : drop 1 at ≡ b.after = ap (drop 1) b.starts in
    let c = strstr-First (drop 1 at) (codes "</textarea>") end g in
    let same : c.before ≡ raw = sym (up_to_lem (drop 1 at) c.before end c.whole) ∙ cc h3 in
    record {
      match = match;
      opening = b.before;
      body = drop 1 at;
      end = end;
      tag = strstr-First html (name_pattern name) match e;
      opened = b.whole ∙ ap (λ r. b.before ++ r) (b.starts ∙ ap (λ r. b'>' ∷ r) (sym body));
      unopened = b.earlier;
      closing = c;
      inside = c.whole ∙ ap (λ r. r ++ end) same;
    }

pub IsTextareaValue-found :
    (html name raw : Bytes)
    → IsTextareaValue html name raw
    → find_textarea_value html name ≡ some raw
unfolding find_textarea_value
IsTextareaValue-found html name raw v = rw (First-strstr html (name_pattern name) v.match v.tag) (
    rw v.opened (
      rw (
        strchr-Lacks v.opening v.body b'>' v.unopened,
        First-strstr v.body (codes "</textarea>") v.end v.closing,
        up_to_lem v.body raw v.end v.inside,
      )))

abbrev cancel_prefix : Bytes
cancel_prefix = codes "cancel-file="

-- The first button of the page that cancels a file, and the name of the file up to its quote.
pub record IsCancelCommand (html raw : Bytes) : Type 0 where
  pub file : Bytes
  pub after : Bytes
  pub button :
      First
        (codes "form.command.value='cancel-file=")
        html
        (codes "form.command.value='cancel-file=" ++ (file ++ (b'\'' ∷ after)))
  pub closed : Lacks b'\'' file
  pub command : raw ≡ cancel_prefix ++ file

command_text : Bytes → Bytes → Option Bytes
command_text from end = if length from - length end == 0 then none else some (up_to from end)

command_text_lem :
    (from before end : Bytes)
    → from ≡ before ++ end
    → 0 < length before
    → command_text from end ≡ some before
unfolding command_text
command_text_lem from before end e pos =
    rw (up_to_lem from before end e) (ground (arith, length-append before end, ap length e))

find_in_button :
    (rest : Bytes)
    → strchr (codes "form.command.value='cancel-file=" ++ rest) b'\''
      ≡ some (b'\'' ∷ (cancel_prefix ++ rest))
find_in_button rest =
    strchr-Lacks (codes "form.command.value=") (cancel_prefix ++ rest) b'\'' (omega arith)

-- With a cancel button whose quote is closed, the command is its text between the quotes.
pub IsCancelCommand-found :
    (html raw : Bytes) → IsCancelCommand html raw → find_cancel_file_command html ≡ some raw
unfolding find_cancel_file_command command_text
IsCancelCommand-found html raw v =
    rw
      (
        First-strstr html (codes "form.command.value='cancel-file=") _ v.button,
        find_in_button (v.file ++ (b'\'' ∷ v.after)),
        strchr-append cancel_prefix (v.file ++ (b'\'' ∷ v.after)) b'\'' (omega arith),
        strchr-Lacks v.file v.after b'\'' v.closed,
      )
      (rw v.command (
        command_text_lem (cancel_prefix ++ (v.file ++ (b'\'' ∷ v.after))) (cancel_prefix ++ v.file)
          (b'\'' ∷ v.after) (sym (append_assoc cancel_prefix v.file (b'\'' ∷ v.after)))
          (omega arith)))

pub find_cancel_file_command-IsCancelCommand :
    (html raw : Bytes) → find_cancel_file_command html ≡ some raw → IsCancelCommand html raw
unfolding find_cancel_file_command command_text
find_cancel_file_command-IsCancelCommand html raw h =
    let (match, e, h1) = >>=-eq-some (strstr html needle) _ h in
    let f = strstr-First html needle match e in
    let split = is_prefix-split needle match f.starts in
    let rest = drop 32 match in
    let (at, a, h2) = >>=-eq-some (strchr match b'\'') _ h1 in
    let at_is : at ≡ b'\'' ∷ (cancel_prefix ++ rest) =
      some-injective _ _ (sym a ∙ (ap (λ m. strchr m b'\'') split ∙ find_in_button rest)) in
    let (end, g, h3) = >>=-eq-some (strchr (drop 1 at) b'\'') _ h2 in
    let b = strchr-FirstByte rest b'\'' end (
      sym (strchr-append cancel_prefix rest b'\'' (omega arith))
      ∙ (ap (λ m. strchr (drop 1 m) b'\'') (sym at_is) ∙ g)) in
    let whole : drop 1 at ≡ (cancel_prefix ++ b.before) ++ end =
      ap (drop 1) at_is
      ∙ (ap (λ r. cancel_prefix ++ r) b.whole ∙ sym (append_assoc cancel_prefix b.before end)) in
    record {
      file = b.before;
      after = b.after;
      button =
          subst (First needle html)
            (split ∙ ap (λ r. needle ++ r) (b.whole ∙ ap (λ r. b.before ++ r) b.starts)) f;
      closed = b.earlier;
      command = some-injective _ _ (
          sym h3
          ∙ command_text_lem (drop 1 at) (cancel_prefix ++ b.before) end whole (omega arith));
    }
  where
    needle : Bytes
    needle = codes "form.command.value='cancel-file="
