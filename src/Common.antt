-- ===== src/Common.antt =====
-- The names that all modules share: those of the libraries and of the children below.
mod Base
mod Tests
mod Lists
mod Results
pub mod Order
pub mod Map
pub mod Decimal
pub mod Options
pub mod Found
unfoldable pub use Base.*
unfoldable pub use Tests.*
pub use Lists.*
pub use Results.*
