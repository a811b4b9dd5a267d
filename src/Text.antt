-- ===== src/Text.antt =====
-- What the program uses of Rust's `str`, `char` and integer parsing, as functions on code points.
-- The parent of the modules of text operations; their names are passed on open.
mod Chars
mod Split
mod Trim
mod Number
mod Paths
unfoldable pub use Chars.*
unfoldable pub use Split.*
unfoldable pub use Trim.*
unfoldable pub use Number.*
unfoldable pub use Paths.*
