-- ===== src/Common.antt =====
-- The names that the modules share: the libraries', passed on, and those of the children.
mod Tests
mod Lists
mod Text
mod Words
mod Raises
mod Sort
mod Member
mod Rows
mod Lookup
mod Deletes
mod Unique
pub mod Calls
pub use Tests.*
pub use Lists.*
unfoldable pub use Text.*
unfoldable pub use Words.*
pub use Raises.*
pub use Sort.*
pub use Lookup.*
pub use Deletes.*
pub use Member.*
pub use Rows.*
pub use Unique.*
