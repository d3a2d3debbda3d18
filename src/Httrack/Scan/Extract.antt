-- ===== src/Httrack/Scan/Extract.antt =====
-- The `extract_*` functions, from the page to the copy.
use benchamel.Base.{◌≡◌, ◌⊎◌, inl, inr, refl, Option, none, some, Bytes}
use benchamel.Base.Outcome.{Outcome, returns}
use benchamel.Httrack.Buffer.{Allocator}
use benchamel.Httrack.Buffer.Laws.{IsGenerous}
use benchamel.Httrack.Scan.{
  trimmed, copy_trimmed, copy_found, extract_input_value, extract_textarea_value,
  extract_cancel_file_command,
}
use benchamel.Httrack.Scan.Trim.{IsTrimmed, trimmed-IsTrimmed}
use benchamel.Httrack.Scan.Find.{
  IsInputValue, find_input_value-IsInputValue, IsInputValue-found, IsTextareaValue,
  find_textarea_value-IsTextareaValue, IsTextareaValue-found, IsCancelCommand,
  find_cancel_file_command-IsCancelCommand, IsCancelCommand-found,
}

-- The call returns a trimmed copy of a text that stands where `Stands` says, or NULL where no such
-- text stands in the page.
abbrev pub Extracts : (Bytes → Type 0) → Outcome (Option Bytes) → Type 0
Extracts Stands r =
    ((raw : Bytes) × (copy : Bytes) × Stands raw × IsTrimmed raw copy × (r ≡ returns (some copy)))
    ⊎ ((¬ ((raw : Bytes) × Stands raw)) × (r ≡ returns none))

copy_trimmed_lem :
    (a : Allocator) (text : Bytes) → IsGenerous a → copy_trimmed a text ≡ returns (trimmed text)
unfolding copy_trimmed
copy_trimmed_lem a text g = rw (g _)

copy_found-Extracts :
    (a : Allocator) (Stands : Bytes → Type 0) (o : Option Bytes)
    → IsGenerous a
    → ((raw : Bytes) → o ≡ some raw → Stands raw)
    → ((raw : Bytes) → Stands raw → o ≡ some raw)
    → Extracts Stands (copy_found a o)
unfolding copy_found
copy_found-Extracts a Stands none g sound complete =
    inr (λ p. let e : none ≡ some p.0 = complete p.0 p.1 in cc, refl)
copy_found-Extracts a Stands (some raw) g sound complete =
    inl (raw, trimmed raw, sound raw refl, trimmed-IsTrimmed raw, rw (copy_trimmed_lem a raw g))

module _ (a : Allocator) (html : Bytes) (g : IsGenerous a) where
  -- With an allocator that never refuses, `extract_input_value` returns the value of the first
  -- attribute `value="..."` from the first `name="..."` of the page on, up to its closing quote and
  -- without white space at its ends; it returns NULL exactly when the page has no such value. Of
  -- `name="..."` the first 127 bytes are looked for, and the value may be that of a later input.
  pub extract_input_value-Extracts :
      (name : Bytes) → Extracts (IsInputValue html name) (extract_input_value a html name)
  unfolding extract_input_value
  extract_input_value-Extracts name =
      copy_found-Extracts a _ _ g (find_input_value-IsInputValue html name)
        (IsInputValue-found html name)

  -- With an allocator that never refuses, `extract_textarea_value` returns the text between the
  -- first `>` behind the first `name="..."` and the next `</textarea>`, without white space at its
  -- ends; it returns NULL exactly when the page has no such text.
  pub extract_textarea_value-Extracts :
      (name : Bytes) → Extracts (IsTextareaValue html name) (extract_textarea_value a html name)
  unfolding extract_textarea_value
  extract_textarea_value-Extracts name =
      copy_found-Extracts a _ _ g (find_textarea_value-IsTextareaValue html name)
        (IsTextareaValue-found html name)

  -- With an allocator that never refuses, `extract_cancel_file_command` returns the command of the
  -- first button that cancels a file: `cancel-file=` and the name up to the closing quote, without
  -- white space at its ends; it returns NULL exactly when the page has no such button.
  pub extract_cancel_file_command-Extracts :
      Extracts (IsCancelCommand html) (extract_cancel_file_command a html)
  unfolding extract_cancel_file_command
  extract_cancel_file_command-Extracts =
      copy_found-Extracts a _ _ g (find_cancel_file_command-IsCancelCommand html)
        (IsCancelCommand-found html)
