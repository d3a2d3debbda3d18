-- ===== src/Httrack/Scan.antt =====
-- concurrency-bugs/httrack-3.43.9/httrack-client.c: what the client reads out of the server's pages.
-- A function that returns NULL where nothing is found returns `none`.
pub mod Trim
pub mod Find
pub mod Extract
use benchamel.Base.{
  ℕ, zero, suc, ◌+◌, ◌-◌, Bool, true, false, Option, none, some, List, [], ◌∷◌, ◌++◌, Bytes, codes,
  length, get_or, take, drop, ◌==◌, if◌then◌else◌, ◌>>=◌,
}
use benchamel.Base.Outcome
use benchamel.Base.Outcome.{Outcome, returns, aborts}
use benchamel.Libc.{is_space, strstr, strchr}
use benchamel.Httrack.Buffer.{Allocator, size_t}

-- the first loop of `copy_trimmed`
unfoldable pub skip_spaces : Bytes → Bytes
skip_spaces [] = []
skip_spaces (c ∷ cs) = let rest = skip_spaces cs in if is_space c then rest else c ∷ cs

-- the second loop: the length that is left of `begin[0 .. len)`
unfoldable pub trimmed_length : Bytes → ℕ → ℕ
trimmed_length begin zero = zero
trimmed_length begin (suc len) =
    let shorter = trimmed_length begin len in
    if is_space (get_or begin len 0) then shorter else suc len

unfoldable pub trimmed : Bytes → Bytes
trimmed text = let begin = skip_spaces text in take (trimmed_length begin (length begin)) begin

unfoldable pub copy_trimmed : Allocator → Bytes → Outcome Bytes
copy_trimmed a text =
    let copy = trimmed text in if a.grants (size_t (length copy + 1)) then returns copy else aborts

-- `snprintf(pattern, sizeof(pattern), "name=\"%s\"", name)` with `pattern[128]`
unfoldable pub name_pattern : Bytes → Bytes
name_pattern name = take 127 (codes "name=\"" ++ (name ++ codes "\""))

-- The bytes from one pointer up to another, later one, which is given by the text behind it.
abbrev pub up_to : Bytes → Bytes → Bytes
up_to from end = take (length from - length end) from

-- the part of `extract_input_value` before the copy
unfoldable pub find_input_value : Bytes → Bytes → Option Bytes
find_input_value html name = do
  match ← strstr html (name_pattern name)
  at ← strstr match (codes "value=\"")
  let value_pos = drop 7 at
  value_end ← strchr value_pos b'"'
  some (up_to value_pos value_end)

-- the part of `extract_textarea_value` before the copy
unfoldable pub find_textarea_value : Bytes → Bytes → Option Bytes
find_textarea_value html name = do
  match ← strstr html (name_pattern name)
  at ← strchr match b'>'
  let value_pos = drop 1 at
  value_end ← strstr value_pos (codes "</textarea>")
  some (up_to value_pos value_end)

-- the part of `extract_cancel_file_command` before the copy
unfoldable pub find_cancel_file_command : Bytes → Option Bytes
find_cancel_file_command html = do
  match ← strstr html (codes "form.command.value='cancel-file=")
  at ← strchr match b'\''
  let value_pos = drop 1 at
  value_end ← strchr value_pos b'\''
  if length value_pos - length value_end == 0 then none else some (up_to value_pos value_end)

-- `return NULL` or `return copy_trimmed(...)`
unfoldable pub copy_found : Allocator → Option Bytes → Outcome (Option Bytes)
copy_found a none = returns none
copy_found a (some text) = Outcome.◌>>=◌ (copy_trimmed a text) (λ copy. returns (some copy))

unfoldable pub extract_input_value : Allocator → Bytes → Bytes → Outcome (Option Bytes)
extract_input_value a html name = copy_found a (find_input_value html name)

unfoldable pub extract_textarea_value : Allocator → Bytes → Bytes → Outcome (Option Bytes)
extract_textarea_value a html name = copy_found a (find_textarea_value html name)

unfoldable pub extract_cancel_file_command : Allocator → Bytes → Outcome (Option Bytes)
extract_cancel_file_command a html = copy_found a (find_cancel_file_command html)
