-- ===== src/Cherokee/Lines.antt =====
-- The access logs of the two Cherokee clients: what their checks say of a log of whole lines.
use benchamel.Base.{
  ◌<◌, Bool, false, not, ◌&&◌, ◌||◌, List, [], ◌∷◌, ◌++◌, Bytes, codes, Lacks, length,
}
use benchamel.Cherokee.Log.{is_blank_line, line_has_valid_timestamp, line_has_valid_request}
use benchamel.Cherokee.Bug1
use benchamel.Cherokee.Bug1.{is_corrupt_line}

-- Text of a line: no line break, no NUL, and short enough for the buffer.
abbrev pub IsLine : Bytes → Type 0
IsLine l = Lacks b'\n' l × Lacks 0 l × (length l < 8191)

abbrev pub with_break : Bytes → Bytes
with_break l = l ++ codes "\n"

abbrev pub unlines : List Bytes → Bytes
unlines [] = []
unlines (l ∷ ls) = l ++ b'\n' ∷ unlines ls

-- the two checks of a line
abbrev pub is_good : Bytes → Bool
is_good line = line_has_valid_timestamp line && line_has_valid_request line

abbrev pub has_request : List Bytes → Bool
has_request [] = false
has_request (l ∷ ls) = not (is_blank_line (with_break l)) || has_request ls

abbrev pub has_bad : List Bytes → Bool
has_bad [] = false
has_bad (l ∷ ls) = not (is_blank_line (with_break l)) && not (is_good (with_break l)) || has_bad ls

abbrev pub has_warning : List Bytes → Bool
has_warning [] = false
has_warning (l ∷ ls) = is_corrupt_line (with_break l) || has_warning ls
