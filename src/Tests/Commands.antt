-- ===== src/Tests/Commands.antt =====
-- The management commands at concrete inputs.
use queue_fair.Prelude.{true, ◌≡◌, refl}
use queue_fair.Redis.Memory.{memory}
use queue_fair.Keys
use queue_fair.Queue.{Line, Holds}
use queue_fair.Repository.{delivered, lost}
use queue_fair.Validation.{is_valid_event_id}
use queue_fair.Commands.CreateEvent
use queue_fair.Commands.CreateEvent.{Options, Trips, printed}
use queue_fair.Commands.CreateEvent.Applied.{Configured, create_event-Configured}
use queue_fair.Commands.CreateEvent.Failing.{EitherLine, create_event-Holds}
use queue_fair.Tests.Data.{keys, three_waiting, three, three-Holds}

abbrev options : Options
options = record { rate_per_min = 250; burst = 3; batch_max = 20; reset = true }

abbrev all_delivered : Trips
all_delivered = record { del = delivered; hset = delivered; hgetall = delivered }

create_event-Configured_example :
    ((CreateEvent.handle memory all_delivered keys.event_id options three_waiting).0
      ≡ printed (
          (CreateEvent.handle memory all_delivered keys.event_id options three_waiting).1.hashes
            (Keys.config keys)))
    × Configured memory keys.event_id options three_waiting three
        (CreateEvent.handle memory all_delivered keys.event_id options three_waiting).1
unfolding is_valid_event_id
create_event-Configured_example =
    create_event-Configured memory keys.event_id options three_waiting three three-Holds
      all_delivered refl refl refl refl

-- The reply of the DEL is lost.
abbrev del_lost : Trips
del_lost = record { del = lost; hset = delivered; hgetall = delivered }

create_event-Holds_example :
    (r : Line) × EitherLine memory del_lost keys.event_id options three r
    × Holds (CreateEvent.handle memory del_lost keys.event_id options three_waiting).1 keys r
create_event-Holds_example =
    create_event-Holds memory del_lost keys.event_id options three_waiting three three-Holds
