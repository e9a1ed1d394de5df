-- ===== src/Repository/Codec.antt =====
-- json.dumps and json.loads on the parked payload: reading back gives what was written.
use queue_fair.Prelude.{Text, Option, some, ◌≡◌}
use queue_fair.State.{Admission}

pub record JsonCodec : Type 0 where
  pub dumps : Admission → Text
  pub loads : Text → Option Admission
  pub loads-dumps : (a : Admission) → loads (dumps a) ≡ some a
