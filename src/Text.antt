-- ===== src/Text.antt =====
-- Python's `str` and `bytes`, as far as Agent/db_client.py and Agent/tools/kv_tools.py use them.
-- Texts are `String`; their tests run on the lists of code points, and bytes are such lists too.
pub mod Codes
pub mod Utf8
pub mod Hex
pub mod Words
mod Tests
