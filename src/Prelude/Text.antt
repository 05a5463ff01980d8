-- ===== src/Prelude/Text.antt =====
-- What the program uses of Go's `strings`, `unicode` and `html`, over texts that are valid UTF-8.
mod Atoi
mod Scan
mod Space
mod Escape
mod Replace
mod Replacer
mod Cut
mod Runs
pub mod Markup
pub mod Joined
pub mod Blank
pub mod Prefixes
unfoldable pub use Atoi.*
unfoldable pub use Scan.*
unfoldable pub use Space.*
unfoldable pub use Escape.*
unfoldable pub use Replace.*
unfoldable pub use Replacer.*
unfoldable pub use Cut.*
unfoldable pub use Runs.*
