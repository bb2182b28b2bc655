-- ===== src/Base/Text.antt =====
-- JavaScript strings as lists of UTF-16 code units, with the operations that the program calls.
-- `lower` changes the letters A to Z alone: the texts that are lowered hold addresses, hashes and
-- host names, which are ASCII.
mod Basic
mod Trim
mod Split
mod Number
unfoldable pub use Basic.*
unfoldable pub use Trim.*
unfoldable pub use Split.*
unfoldable pub use Number.*
