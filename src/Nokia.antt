-- ===== src/Nokia.antt =====
-- src/zonegate/integrations/nokia: the carrier clients behind the evidence gateway.
pub mod Json
pub mod Models
pub mod Live
pub mod Rest
pub mod Payloads
pub mod Release
pub mod Mcp
