-- ===== src/Prelude/Text.antt =====
-- Text as the list of its code points. The components that work on bytes say so; there a text is
-- its UTF-8 bytes.
mod Defs
mod Trim
mod Parts
mod Lines
unfoldable pub use Defs.*
pub use Trim.*
pub use Parts.*
unfoldable pub use Lines.*
