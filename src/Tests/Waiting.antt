-- ===== src/Tests/Waiting.antt =====
-- The scripts on the event with three waiting tokens.
use queue_fair.Prelude.{
  ◌+◌, ◌-◌, ◌*◌, ◌≤◌, Text, codes, none, List, [], ◌∷◌, ◌++◌, ◌≡◌, refl, arith, length,
}
use Prim.Native.Nat.{min}
use mathlib.Core.List.{Sublist}
use queue_fair.Redis.Memory.{memory}
use queue_fair.Scripts.{flat, int, token_unit, batch_size, refill, bucket_state, elapsed}
use queue_fair.Queue.{Line, Holds, enter, numbered, index_of}
use queue_fair.Queue.Join
use queue_fair.Queue.Position
use queue_fair.Queue.Admit
use queue_fair.Queue.Release
use queue_fair.Queue.Runs.{Event, join, ask, admit, park, expire, final, log, joining, step}
use queue_fair.Queue.Rejoin.{rejoin_last}
use queue_fair.Queue.Runs.Order.{final-order}
use queue_fair.Queue.Runs.Rate.{admitted_within, admitted_total}
use queue_fair.Queue.Runs.Skew.{step_back_credits}
use queue_fair.Tests.Data.{keys, ada, bob, new, three_waiting, three, three-Holds}

join-enter_example :
    Holds (Join.join memory keys new three_waiting).1 keys (enter new three).0
    × ((Join.join memory keys new three_waiting).0
        ≡ int 1
          ∷ int (enter new three).1
          ∷ int (Join.flag (enter new three).2)
          ∷ int (length (enter new three).0.waiting)
          ∷ int (enter new three).0.admitted
          ∷ int 100
          ∷ [])
    × ((Join.join memory keys new three_waiting).1.hashes ≡ three_waiting.hashes)
join-enter_example = Join.join-enter memory keys three_waiting new three three-Holds refl

position-told_example :
    Position.position memory keys bob three_waiting
    ≡ (Position.told memory keys three (index_of bob three.waiting) none 100, three_waiting)
position-told_example = Position.position-told memory keys three_waiting bob three three-Holds refl

admit_batch-leave_example :
    Release.Released memory keys three
      (Admit.due memory keys three_waiting three 1000600)
      (Admit.hashes_after memory keys three_waiting
        (Admit.live_tokens memory keys three_waiting 1000600)
        (Admit.due memory keys three_waiting three 1000600)
        1000600)
      (Admit.admit_batch memory keys 1000600 three_waiting)
admit_batch-leave_example =
    Admit.admit_batch-leave memory keys three_waiting three three-Holds 1000600 refl (omega arith)

-- Two processes: the second joins and ticks between the ticks of the first.
abbrev events : List Event
events =
    admit 1000000
    ∷ join new
    ∷ admit 1000600
    ∷ ask bob
    ∷ park ada (codes "{}") 60
    ∷ admit 1060000
    ∷ expire ada
    ∷ []

final-order_example :
    (after : Line) × (gone : List Text) × (fresh : List Text) × Holds
      (final memory keys events three_waiting)
      keys
      after
    × (log memory keys events three_waiting ≡ flat (numbered 8 gone))
    × (after.admitted ≡ 7 + length gone)
    × (gone ++ after.waiting ≡ three.waiting ++ fresh)
    × Sublist fresh (joining events)
final-order_example = final-order memory keys events three_waiting three three-Holds refl

admitted_within_example :
    token_unit * admitted_total memory keys (final memory keys events three_waiting)
    ≤ token_unit * 7 + token_unit * 2 + 100 * (1060000 - 1000000)
admitted_within_example =
    admitted_within memory keys events three_waiting three 1000000 three-Holds refl (omega arith)

step_back_credits_example :
    (Admit.live_tokens memory keys three_waiting 940000 ≡ min (2 * token_unit) 60000)
    × (Admit.live_tokens memory keys (step memory keys (admit 940000) three_waiting).1 1000000
        ≡ min (2 * token_unit) (
            (Admit.live_tokens memory keys three_waiting 940000
              - Admit.due memory keys three_waiting three 940000 * token_unit)
            + (1000000 - 940000) * 100))
step_back_credits_example =
    step_back_credits memory keys three_waiting three three-Holds refl 60000 1000000 940000
      (record { tokens_lem = refl; last_lem = refl }) (omega arith) (omega arith)

-- Two are due: bob had the sequence 9, and gets 11.
rejoin_last_example :
    (Join.join memory keys bob (Admit.admit_batch memory keys 1000600 three_waiting).1).0
    ≡ int 1
      ∷ int 11
      ∷ int 1
      ∷ int 2
      ∷ int 9
      ∷ int (Join.rate_of memory keys (Admit.admit_batch memory keys 1000600 three_waiting).1)
      ∷ []
unfolding batch_size refill bucket_state elapsed
rejoin_last_example =
    rejoin_last memory keys three_waiting three three-Holds refl 1000600 (omega arith) bob 1 refl
