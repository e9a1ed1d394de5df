-- ===== src/State.antt =====
-- core/state.py: what a waiter is told, computed from the replies of the scripts.
use Prim.Native.Nat.{max}
use queue_fair.Prelude.{
  ℕ, ◌-◌, Text, codes, Bool, Option, none, some, List, [], ◌∷◌, leb, if◌then◌else◌,
}

pub data WaiterState : Type 0 where
  waiting admitted expired unknown : WaiterState

pub record JoinOutcome : Type 0 where
  pub sequence : ℕ
  pub joined : Bool
  pub total_waiting : ℕ
  pub admitted_total : ℕ
  pub rate_per_min : ℕ

pub record PositionOutcome : Type 0 where
  pub position : ℕ
  pub total_waiting : ℕ
  pub admitted_total : ℕ
  pub rate_per_min : ℕ

-- The payload parked at admission, which nothing here looks into.
pub record Admission : Type 0 where
  pub pass : Text
  pub expires_at : ℕ
  pub book_url : Text

pub record AdmittedOutcome : Type 0 where
  pub admission : Admission
  pub total_waiting : ℕ
  pub admitted_total : ℕ

pub record QueueState : Type 0 where
  pub position : ℕ
  pub total_waiting : ℕ
  pub admitted_total : ℕ
  pub eta_seconds : Option ℕ
  pub state : WaiterState

-- Python's floats: `a / b`, `x * n` and `math.ceil`.
pub record Float : Type 1 where
  pub Num : Type 0
  pub divide : ℕ → ℕ → Num
  pub times : Num → ℕ → Num
  pub ceil : Num → ℕ

-- The subtraction on ℕ stops at 0, which the clamp at 1 hides.
unfoldable pub position_from : ℕ → ℕ → ℕ
position_from sequence admitted_total = max 1 (sequence - admitted_total)

module _ (F : Float) where
  open F use {divide, times, ceil}

  unfoldable pub eta_seconds_for : ℕ → ℕ → Option ℕ
  eta_seconds_for position rate_per_min =
      if leb rate_per_min 0 then none else some (ceil (times (divide position rate_per_min) 60))

  unfoldable pub state_from : JoinOutcome → QueueState
  state_from outcome =
      let position = position_from outcome.sequence outcome.admitted_total in
      record {
        position = position;
        total_waiting = outcome.total_waiting;
        admitted_total = outcome.admitted_total;
        eta_seconds = eta_seconds_for position outcome.rate_per_min;
        state = waiting;
      }

  unfoldable pub state_from_position : PositionOutcome → QueueState
  state_from_position outcome = record {
    position = outcome.position;
    total_waiting = outcome.total_waiting;
    admitted_total = outcome.admitted_total;
    eta_seconds = eta_seconds_for outcome.position outcome.rate_per_min;
    state = waiting;
  }

unfoldable pub state_from_admission : AdmittedOutcome → QueueState
state_from_admission outcome = record {
  position = 0;
  total_waiting = outcome.total_waiting;
  admitted_total = outcome.admitted_total;
  eta_seconds = none;
  state = admitted;
}

-- The JSON values of this program; a response body is a list of fields.
pub data Json : Type 0 where
  null : Json
  number : ℕ → Json
  boolean : Bool → Json
  text : Text → Json
  admission : Admission → Json

abbrev pub optional : Option ℕ → Json
optional none = null
optional (some n) = number n

-- The values of the StrEnum.
unfoldable pub wire_state : WaiterState → Text
wire_state waiting = codes "waiting"
wire_state admitted = codes "admitted"
wire_state expired = codes "expired"
wire_state unknown = codes "unknown"

unfoldable pub as_dict : QueueState → List (Text × Json)
unfolding wire_state
as_dict s =
    (codes "position", number s.position)
    ∷ (codes "total_waiting", number s.total_waiting)
    ∷ (codes "admitted_total", number s.admitted_total)
    ∷ (codes "eta_seconds", optional s.eta_seconds)
    ∷ (codes "state", text (wire_state s.state))
    ∷ []
