-- ===== src/Commands/CreateEvent.antt =====
-- api/management/commands/create_event.py. Each command to Redis has its own network outcome.
pub mod Applied
pub mod Failing
use queue_fair.Prelude.{ℕ, Text, Bool, true, false, List, [], ◌∷◌, not, if◌then◌else◌}
use queue_fair.Redis.{Redis}
use queue_fair.Keys
use queue_fair.Keys.{EventKeys}
use queue_fair.Validation.{is_valid_event_id}
use queue_fair.Queue.Runs.{settings}
use queue_fair.Repository.{Network, delivered, refused, lost}

pub record Options : Type 0 where
  pub rate_per_min : ℕ
  pub burst : ℕ
  pub batch_max : ℕ
  pub reset : Bool

-- How the command ends: the configuration that it prints, CommandError, or a RedisError.
pub data Exit : Type 0 where
  printed : List (Text × ℕ) → Exit
  command_error redis_error : Exit

-- The outcomes of the DEL, the HSET and the HGETALL.
pub record Trips : Type 0 where
  pub del : Network
  pub hset : Network
  pub hgetall : Network

module _ (R : Redis) where
  open R use {Db, del, hset, hgetall}

  unfoldable pub printed_config : Network → Text → Db → Exit × Db
  printed_config delivered config db = (printed (hgetall db config), db)
  printed_config refused config db = (redis_error, db)
  printed_config lost config db = (redis_error, db)

  -- From the HSET on.
  unfoldable pub configure : Trips → EventKeys → Options → Db → Exit × Db
  unfolding printed_config
  configure trips keys options db =
      let written =
        hset db (Keys.config keys)
          (settings options.rate_per_min options.burst options.batch_max) in
      elim trips.hset [
        | delivered ↦ printed_config trips.hgetall (Keys.config keys) written
        | refused ↦ (redis_error, db)
        | lost ↦ (redis_error, written)
      ]

  -- The DEL of --reset.
  unfoldable pub reset_queue : EventKeys → Db → Db
  reset_queue keys db =
      del db (Keys.queue keys ∷ Keys.seq keys ∷ Keys.admitted keys ∷ Keys.bucket keys ∷ [])

  unfoldable pub apply : Trips → EventKeys → Options → Db → Exit × Db
  unfolding configure reset_queue
  apply trips keys options db =
      if options.reset
      then elim trips.del [
        | delivered ↦ configure trips keys options (reset_queue keys db)
        | refused ↦ (redis_error, db)
        | lost ↦ (redis_error, reset_queue keys db)
      ]
      else configure trips keys options db

  unfoldable pub handle : Trips → Text → Options → Db → Exit × Db
  unfolding apply
  handle trips event_id options db =
      if not (is_valid_event_id event_id)
      then (command_error, db)
      else apply trips (record { event_id = event_id }) options db
