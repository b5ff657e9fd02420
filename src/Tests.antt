-- ===== src/Tests.antt =====
-- Runs of the program on small inputs, and the theorems at such inputs.
pub mod Fixtures
pub mod Engine
pub mod Evidence
pub mod Service
pub mod Holds
pub mod Tokens
pub mod Console
pub mod Api
pub mod Ollama
pub mod Passwords
pub mod App
pub mod Nokia
pub mod Memory
pub mod Store
