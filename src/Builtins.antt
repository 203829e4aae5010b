-- ===== src/Builtins.antt =====
-- What the program uses of Python's `str`, `int` and `bytes`: decimal and hexadecimal text, and the
-- splitting of a text at a separator.
pub mod Decimal
pub mod Digest
pub mod Hex
pub mod Split
