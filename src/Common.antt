-- ===== src/Common.antt =====
-- The names that every module shares: the libraries', and those of the children.
mod Base
mod Strings
mod Trim
mod Lists
mod Maps
mod Fallible
pub mod Exec
unfoldable pub use Base.*
unfoldable pub use Strings.*
unfoldable pub use Trim.*
unfoldable pub use Lists.*
unfoldable pub use Maps.*
unfoldable pub use Fallible.*
