-- ===== src/Api.antt =====
-- src/zonegate/api: the controllers of the HTTP interface. A handler takes what the web framework
-- hands it: the decoded body, the path and query parameters, and the session cookie of the request.
pub mod Authorizations
pub mod Actors
pub mod Auth
pub mod Thresholds
pub mod Records
pub mod Requests
pub mod Kept
pub mod Signed
pub mod Listings
pub mod Histories
pub mod Stream
pub mod Permissions
pub mod Holds
pub mod Guards
