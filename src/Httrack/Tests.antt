-- ===== src/Httrack/Tests.antt =====
-- The theorems about httrack-client.c at concrete inputs, and runs of its functions.
mod Sockets
mod Server
mod Threads
use benchamel.Base.{
  ℕ, ◌+◌, ◌<◌, ◌^◌, ◌≡◌, refl, inl, inr, ◌⊎◌, true, false, Option, none, some, List, [], ◌∷◌, ◌++◌,
  arith, Bytes, codes,
}
use benchamel.Base.Outcome.{Outcome, returns}
use benchamel.Libc.{is_prefix, strstr, strchr, is_space}
use benchamel.Httrack.Buffer.{Allocator, Buf, null_buf, append_bytes}
use benchamel.Httrack.Buffer.Laws.{contents, IsBuf, Appended, append_bytes-Appended, grow_lem}
use benchamel.Httrack.Url.{append_urlencoded, is_unreserved, k_hex}
use benchamel.Httrack.Url.Encode.{url_byte, url_text}
use benchamel.Httrack.Url.Decode.{url_decode, append_urlencoded-Decodes}
use benchamel.Httrack.Forms.{
  step2_pairs, start_pairs, project_path, cancel_file_pairs, build_step2_body, build_start_body,
  build_cancel_file_body,
}
use benchamel.Httrack.Scan.{
  skip_spaces, trimmed_length, trimmed, copy_trimmed, name_pattern, copy_found, find_input_value,
  find_textarea_value, find_cancel_file_command, extract_input_value, extract_textarea_value,
  extract_cancel_file_command,
}
use benchamel.Httrack.Scan.Find.{IsInputValue, IsTextareaValue, IsCancelCommand}
use benchamel.Httrack.Scan.Extract.{
  Extracts, extract_input_value-Extracts, extract_textarea_value-Extracts,
  extract_cancel_file_command-Extracts,
}
use benchamel.Httrack.Forms.Text.{field, more_fields, form_text}
use benchamel.Httrack.Forms.Bodies.{
  Posts, build_step2_body-Posts, build_start_body-Posts, build_cancel_file_body-Posts,
}

abbrev pub generous : Allocator
generous = record { grants = λ n. true; junk = λ i. 7 }

-- `ab` in a block of four bytes
abbrev two_bytes : Buf
two_bytes = record { mem = b'a' ∷ b'b' ∷ 0 ∷ 9 ∷ []; len = 2; cap = 4 }

two_bytes-IsBuf : IsBuf two_bytes
two_bytes-IsBuf = record { block = refl; small = omega arith; room = inr (omega arith, refl) }

append_bytes-Appended_example :
    Appended two_bytes (codes "cde") (append_bytes generous two_bytes (codes "cde"))
append_bytes-Appended_example =
    append_bytes-Appended generous two_bytes (codes "cde") (λ n. refl) two_bytes-IsBuf (omega arith)

build_start_body-Posts_example :
    Posts
      (start_pairs (codes "s") (codes "p") (codes "c d") (codes "w=1") (codes ""))
      (build_start_body generous (codes "s") (codes "p") (codes "c d") (codes "w=1") (codes ""))
unfolding start_pairs project_path form_text more_fields field url_text url_byte is_unreserved k_hex
build_start_body-Posts_example =
    build_start_body-Posts generous (codes "s") (λ n. refl) (omega arith) (codes "p") (codes "c d")
      (codes "w=1") (codes "") (omega arith) (omega arith) (omega arith) tt (omega arith)

abbrev page : Bytes
page = codes "<input name=\"sid\" value=\" 7f \"><textarea name=\"command\"> go </textarea>"

extract_input_value-Extracts_example :
    Extracts (IsInputValue page (codes "sid")) (extract_input_value generous page (codes "sid"))
extract_input_value-Extracts_example =
    extract_input_value-Extracts generous page (λ n. refl) (codes "sid")

abbrev buttons : Bytes
buttons = codes "<a onclick=\"form.command.value='cancel-file=/x.gif'; go()\">"

sid_of_page : extract_input_value generous page (codes "sid") ≡ returns (some (codes "7f"))
unfolding extract_input_value find_input_value name_pattern copy_found copy_trimmed trimmed
    trimmed_length skip_spaces strstr strchr is_prefix is_space
sid_of_page = refl

command_of_page :
    extract_textarea_value generous page (codes "command") ≡ returns (some (codes "go"))
unfolding extract_textarea_value find_textarea_value name_pattern copy_found copy_trimmed trimmed
    trimmed_length skip_spaces strstr strchr is_prefix is_space
command_of_page = refl

cancel_of_buttons :
    extract_cancel_file_command generous buttons ≡ returns (some (codes "cancel-file=/x.gif"))
unfolding extract_cancel_file_command find_cancel_file_command copy_found copy_trimmed trimmed
    trimmed_length skip_spaces strstr strchr is_prefix is_space
cancel_of_buttons = refl
