-- ===== src/Config.antt =====
-- internal/config/config.go: the configuration, in the order of the file's declarations.
mod Types
mod Adapter
mod Env
pub mod Presentation
mod Defaults
pub mod Validate
mod Chains
pub mod Load
unfoldable pub use Types.*
unfoldable pub use Adapter.*
unfoldable pub use Env.*
unfoldable pub use Presentation.*
unfoldable pub use Defaults.{set_defaults, or_default, or_list, or_positive}
unfoldable pub use Validate.*
unfoldable pub use Chains.*
