-- ===== src/Domain/Requests.antt =====
-- domain/actors.py and domain/transactions.py
use zonegate_backend.Prelude.{ℕ, String, Bool, List}

pub record Actor : Type 0 where
  pub actor_id : String
  pub role : String
  pub permissions : List String
  pub registered_phone_number : String
  pub registered_device_id : String
  pub enrollment_status : String

pub record DeviceBinding : Type 0 where
  pub actor_id : String
  pub phone_number : String
  pub device_id : String
  pub bound_at : ℕ
  pub is_active : Bool

-- `amount` is the source's `value`, a Decimal that is only recorded: its digits as a text.
pub record TransactionRequest : Type 0 where
  pub transaction_id : String
  pub actor_id : String
  pub action : String
  pub resource_id : String
  pub zone : String
  pub timestamp : ℕ
  pub amount : String
  pub category : String
  pub metadata : List (String × String)
