-- ===== src/Commands/CreateEvent/Failing.antt =====
-- The queue when some trip to Redis fails.
use queue_fair.Prelude.{Text, true, [], ◌∷◌, ◌≡◌, ◌⊎◌, inl, inr, refl, Bool-cases}
use queue_fair.Redis.{Redis, insert_all}
use queue_fair.Keys
use queue_fair.Keys.{EventKeys}
use queue_fair.Validation.{is_valid_event_id}
use queue_fair.Queue.{Line, Holds}
use queue_fair.Queue.Release.{Holds-set_hash}
use queue_fair.Queue.Runs.{settings}
use queue_fair.Repository.{Network, delivered, refused, lost}
use queue_fair.Commands.CreateEvent.{
  Options, Trips, printed_config, configure, reset_queue, apply, handle,
}
use queue_fair.Commands.CreateEvent.Applied.{fresh, Holds-erased}

module _ (R : Redis) (trips : Trips) (event_id : Text) (options : Options) where
  open R use {Db, view, view-del, view-hset, hset}

  abbrev keys : EventKeys
  keys = record { event_id = event_id }

  printed_same : (n : Network) (k : Text) (db : Db) → (printed_config R n k db).1 ≡ db
  unfolding printed_config
  printed_same delivered k db = refl
  printed_same refused k db = refl
  printed_same lost k db = refl

  Holds-hset :
      (db : Db) (r : Line)
      → Holds (view db) keys r
      → Holds
          (view (
            hset db
              (Keys.config keys)
              (settings options.rate_per_min options.burst options.batch_max)))
          keys
          r
  Holds-hset db r h =
      rw
        (view-hset db (Keys.config keys)
          (settings options.rate_per_min options.burst options.batch_max))
        (Holds-set_hash (view db) keys r (Keys.config keys)
          (insert_all (settings options.rate_per_min options.burst options.batch_max)
            ((view db).hashes (Keys.config keys)))
          h)

  Holds-configure :
      (db : Db) (r : Line)
      → Holds (view db) keys r
      → Holds (view (configure R trips keys options db).1) keys r
  unfolding configure
  Holds-configure db r h = go trips.hset refl
    where
      go :
          (n : Network) → trips.hset ≡ n → Holds (view (configure R trips keys options db).1) keys r
      go delivered e = rw (e, printed_same) (Holds-hset db r h)
      go refused e = rw e h
      go lost e = rw e (Holds-hset db r h)

  Holds-reset : (db : Db) → Holds (view (reset_queue R keys db)) keys fresh
  unfolding reset_queue
  Holds-reset db =
      rw
        (view-del db (Keys.queue keys ∷ Keys.seq keys ∷ Keys.admitted keys ∷ Keys.bucket keys ∷ []))
        (Holds-erased (view db) keys)

  -- The queue that was, or the fresh one if a reset was asked for.
  abbrev pub EitherLine : Line → Line → Type 0
  EitherLine q r = (r ≡ q) ⊎ ((options.reset ≡ true) × (r ≡ fresh))

  Holds-apply :
      (db : Db) (q : Line)
      → Holds (view db) keys q
      → (r : Line) × EitherLine q r × Holds (view (apply R trips keys options db).1) keys r
  unfolding apply
  Holds-apply db q h = elim (Bool-cases options.reset) [
    | inr no_reset ↦ (q, inl refl, simp no_reset (Holds-configure db q h))
    | inl yes_reset ↦ go yes_reset trips.del refl
  ]
    where
      go :
          options.reset ≡ true
          → (n : Network) → trips.del ≡ n
          → (r : Line) × EitherLine q r × Holds (view (apply R trips keys options db).1) keys r
      go yes_reset delivered e = (
        fresh,
        inr (yes_reset, refl),
        simp (yes_reset, e) (Holds-configure (reset_queue R keys db) fresh (Holds-reset db)),
      )
      go yes_reset refused e = (q, inl refl, simp (yes_reset, e) h)
      go yes_reset lost e = (fresh, inr (yes_reset, refl), simp (yes_reset, e) (Holds-reset db))

  -- On an event in step with `q`, however the trips to Redis of the command end, and whether the id
  -- is accepted or not, the keys are in step with a queue: with `q`, or with the fresh one if --reset
  -- was asked for. Never is one counter reset and another not.
  pub create_event-Holds :
      (db : Db) (q : Line)
      → Holds (view db) (record { event_id = event_id }) q
      → (r : Line) × EitherLine q r
        × Holds (view (handle R trips event_id options db).1) (record { event_id = event_id }) r
  unfolding handle
  create_event-Holds db q h = elim (Bool-cases (is_valid_event_id event_id)) [
    | inl valid ↦ simp valid (Holds-apply db q h)
    | inr other ↦ (q, inl refl, simp other h)
  ]
