-- ===== src/Client/Protocol.antt =====
-- How AgentDBClient reads the server's answers.
use dbagent_tree.Prelude.{String, Bool, ◌||◌, Option, none, some, if◌then◌else◌}
use dbagent_tree.Text.Codes.{codes}
use dbagent_tree.Text.Words.{upper, starts_with, has_part, drop}

-- `text.upper().startswith(mark)` and `mark in text.upper()`.
abbrev pub begins : String → String → Bool
begins text mark = starts_with (upper text) (codes mark)

abbrev pub mentions : String → String → Bool
mentions text mark = has_part (codes mark) (upper text)

unfoldable pub is_ok : String → Bool
is_ok resp = begins resp "OK" || begins resp "VALUE" || begins resp "FOUND"

unfoldable pub is_not_found : String → Bool
is_not_found resp = mentions resp "NOT_FOUND"

unfoldable pub is_abort : String → Bool
is_abort resp = mentions resp "ABORT"

unfoldable pub extract_value_payload : String → Option String
extract_value_payload resp =
    if begins resp "OK VALUE "
    then some (drop 9 resp)
    else if begins resp "VALUE "
    then some (drop 6 resp)
    else none
