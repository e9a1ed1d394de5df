-- ===== src/Admission.antt =====
-- core/admission.py: the controller, over any repository and issuer, and its loop.
pub mod Parked
pub mod Collect
pub mod Stranded
pub mod Broken
pub mod Rounds
use queue_fair.Prelude.{
  ℕ, suc, ◌/◌, Text, Bool, true, false, Option, none, some, List, [], ◌∷◌, is_empty, if◌then◌else◌,
}
use queue_fair.Result.{Error, Result, ok, raise, unknown_event_error}
use queue_fair.Ports.{AdmissionBatch, IssuedPass, QueueRepository, PassIssuer}

-- The passes of a batch, in order; `uuid n` is the n-th random uuid that is drawn.
unfoldable pub issue_all : PassIssuer → Text → ℕ → (ℕ → Text) → ℕ → List Text → List IssuedPass
issue_all issuer event_id now_seconds uuid n [] = []
issue_all issuer event_id now_seconds uuid n (t ∷ ts) =
    issuer.issue event_id t now_seconds (uuid n)
    ∷ issue_all issuer event_id now_seconds uuid (suc n) ts

module _ {S : Type 0} (repository : QueueRepository S) (issuer : PassIssuer)
    (pass_ttl_seconds : ℕ) where
  -- The return, or the exception of `record_admissions`.
  unfoldable pub returned : List IssuedPass → Result (Unit {0}) → Result (List IssuedPass)
  returned passes (ok done) = ok passes
  returned passes (raise e) = raise e

  unfoldable pub park : Text → List IssuedPass → S → Result (List IssuedPass) × S
  unfolding returned
  park event_id passes s =
      let (done, s') = repository.record_admissions event_id passes pass_ttl_seconds s in
      (returned passes done, s')

  unfoldable pub hand_out :
      Text → ℕ → (ℕ → Text) → Result (Option AdmissionBatch) → S → Result (List IssuedPass) × S
  unfolding park issue_all
  hand_out event_id now_ms uuid (raise e) s = (raise e, s)
  hand_out event_id now_ms uuid (ok none) s = (raise unknown_event_error, s)
  hand_out event_id now_ms uuid (ok (some batch)) s =
      if is_empty batch.admitted_tokens
      then (ok [], s)
      else park event_id (issue_all issuer event_id (now_ms / 1000) uuid 0 batch.admitted_tokens) s

  -- `now_ms` is what the clock returns.
  unfoldable pub admit_once : Text → ℕ → (ℕ → Text) → S → Result (List IssuedPass) × S
  unfolding hand_out
  admit_once event_id now_ms uuid s =
      let (batch, s') = repository.admit_batch event_id now_ms s in
      hand_out event_id now_ms uuid batch s'

-- A round of the loop: the network that it finds, the clock and the random draws.
pub record Tick (S : Type 0) : Type 0 where
  pub repository : QueueRepository S
  pub now_ms : ℕ
  pub uuid : ℕ → Text

-- `run_forever` until it is cancelled after the given rounds: the outcomes, which are logged, and the
-- state. An exception ends its round only.
unfoldable pub run_forever :
    {S : Type 0} → PassIssuer → ℕ → Text → List (Tick S) → S → List (Result (List IssuedPass)) × S
unfolding admit_once
run_forever issuer ttl event_id [] s = ([], s)
run_forever issuer ttl event_id (tick ∷ ticks) s =
    let (outcome, s') = admit_once tick.repository issuer ttl event_id tick.now_ms tick.uuid s in
    let (rest, s'') = run_forever issuer ttl event_id ticks s' in (outcome ∷ rest, s'')
