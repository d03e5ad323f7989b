-- ===== src/Text/Tests.antt =====
-- The hexadecimal texts of Agent/db_client.py at concrete inputs.
use dbagent_tree.Prelude.{◌≡◌}
use dbagent_tree.Exec.{ok}
use dbagent_tree.Text.Hex.{hex_encode, hex_decode, hex_decode-encode}

hex_decode-encode_example : hex_decode (hex_encode "naïve → 例") ≡ ok "naïve → 例"
hex_decode-encode_example = hex_decode-encode "naïve → 例"
