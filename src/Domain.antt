-- ===== src/Domain.antt =====
-- src/zonegate/domain: the records that the components exchange.
mod Evidence
mod Decisions
mod Requests
mod Credentials
pub mod Kinds
pub mod PolicyConfig
unfoldable pub use Evidence.*
unfoldable pub use Decisions.*
pub use Requests.*
pub use Credentials.*
