-- ===== src/Authorization/Service.antt =====
-- authorization/service.py: the pipeline, the human resolution of a hold, and the claim of a token.
pub mod Deployment
pub mod Results
pub mod Earned
pub mod Justified
pub mod Safety
pub mod Kept
pub mod Listening
pub mod Keyed
pub mod Histories
pub mod Returns
pub mod Advice
pub mod Holds
pub mod Redemption
mod Settlement
mod Pipeline
mod Resolution
unfoldable pub use Settlement.*
unfoldable pub use Pipeline.*
unfoldable pub use Resolution.*
