-- ===== src/Domain/Credentials.antt =====
-- domain/credentials.py
use zonegate_backend.Prelude.{ℕ, String}

pub record OperatorCredential : Type 0 where
  pub actor_id : String
  pub password_hash : String
  pub updated_at : ℕ

pub record ConsoleSession : Type 0 where
  pub session_id : String
  pub actor_id : String
  pub created_at : ℕ
  pub expires_at : ℕ
