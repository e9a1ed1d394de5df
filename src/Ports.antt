-- ===== src/Ports.antt =====
-- core/ports.py: what the admission controller takes from outside. The state that the calls change
-- is a parameter, and is passed along.
use queue_fair.Prelude.{ℕ, Text, Option, List}
use queue_fair.Result.{Result}

pub record AdmissionBatch : Type 0 where
  pub admitted_tokens : List Text
  pub admitted_total : ℕ

pub record IssuedPass : Type 0 where
  pub queue_token : Text
  pub jwt : Text
  pub jti : Text
  pub expires_at : ℕ

pub record QueueRepository (S : Type 0) : Type 0 where
  pub admit_batch : Text → ℕ → S → Result (Option AdmissionBatch) × S
  pub record_admissions : Text → List IssuedPass → ℕ → S → Result (Unit {0}) × S

-- `issue event_id queue_token now_seconds`, with the random `jti` that it draws.
pub record PassIssuer : Type 0 where
  pub issue : Text → Text → ℕ → Text → IssuedPass
