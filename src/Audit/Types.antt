-- ===== src/Audit/Types.antt =====
-- The data of internal/identity/audit/audit.go. A value of `any` in the details is text, an array, a
-- map, or a value of another type by its JSON text.
use control_center_developme.Prelude.{ℕ, String, Bool, Option}

mutual
  pub data Detail : Type 0 where
    text : String → Detail
    other : String → Detail
    array : Details → Detail
    object : Fields → Detail

  pub data Details : Type 0 where
    no_details : Details
    next_detail : Detail → Details → Details

  -- `map[string]any`, in an order of iteration
  pub data Fields : Type 0 where
    no_fields : Fields
    next_field : String → Detail → Fields → Fields

pub record Event : Type 0 where
  pub id : String
  pub occurred_at : ℕ
  pub action : String
  pub outcome : String
  pub actor_id : String
  pub subject_id : String
  pub source_ip : String
  pub correlation_id : String
  pub details : Option Fields
  pub previous_hash : String
  pub hash : String

-- The interface that the services write to: the log behind a call, and whether the call succeeded.
pub record Logger (Log : Type 0) : Type 0 where
  pub append : Event → Log → Log × Bool
