-- ===== src/Authorization.antt =====
-- src/zonegate/authorization: roles, tokens, sign-in, and the pipeline that joins the components.
pub mod Roles
pub mod Token
pub mod Progress
pub mod Service
pub mod Console
pub mod Passwords
