-- ===== src/Commands/CreateEvent/Applied.antt =====
-- The queue and the configuration after the command.
use queue_fair.Prelude.{
  ℕ, Text, codes, true, false, List, [], ◌∷◌, ◌≡◌, inl, inr, refl, sym, lookup-insert,
  text_eq-append, if◌then◌else◌, Bool-cases,
}
use mathlib.Core.Path.{subst}
use queue_fair.Redis.{View, Redis, insert_all, erase_all}
use queue_fair.Keys
use queue_fair.Keys.{EventKeys}
use queue_fair.Validation.{is_valid_event_id}
use queue_fair.Queue.{Line, Holds}
use queue_fair.Queue.Admit.{config_of}
use queue_fair.Queue.Release.{Holds-set_hash}
use queue_fair.Queue.Runs.{settings, IsLive}
use queue_fair.Queue.Runs.Step.{live_insert}
use queue_fair.Repository.{delivered}
use queue_fair.Commands.CreateEvent.{
  Options, Exit, printed, Trips, printed_config, configure, reset_queue, apply, handle,
}

-- A queue that no one has joined.
abbrev pub fresh : Line
fresh = record { admitted = 0; waiting = [] }

abbrev pub erased : View → EventKeys → View
erased v keys =
    erase_all v (Keys.queue keys ∷ Keys.seq keys ∷ Keys.admitted keys ∷ Keys.bucket keys ∷ [])

pub Holds-erased : (v : View) (keys : EventKeys) → Holds (erased v keys) keys fresh
Holds-erased v keys = record {
  members = simp text_eq-append refl;
  issued = simp text_eq-append refl;
  counted = simp text_eq-append refl;
  distinct = tt;
}

module _ (R : Redis) (event_id : Text) (options : Options) where
  open R use {Db, view, view-del, view-hset, hset, hgetall_lem}

  abbrev keys : EventKeys
  keys = record { event_id = event_id }

  -- The queue that the options ask for.
  abbrev pub line_of : Line → Line
  line_of q = if options.reset then fresh else q

  -- The fields of the configuration, and the queue, the bucket and the parked passes.
  pub record Configured (db : Db) (q : Line) (after : Db) : Type 0 where
    pub in_step : Holds (view after) (record { event_id = event_id }) (line_of q)
    pub live : IsLive (view after) (record { event_id = event_id })
    pub rate :
        config_of R (record { event_id = event_id }) after (codes "rate_per_min")
        ≡ options.rate_per_min
    pub burst : config_of R (record { event_id = event_id }) after (codes "burst") ≡ options.burst
    pub batch_max :
        config_of R (record { event_id = event_id }) after (codes "batch_max") ≡ options.batch_max
    pub bucket : (view after).hashes (Keys.bucket (record { event_id = event_id })) ≡ (
        if options.reset
        then []
        else (view db).hashes (Keys.bucket (record { event_id = event_id })))
    pub passes :
        (t : Text)
        → (view after).strings (Keys.pass_for (record { event_id = event_id }) t)
          ≡ (view db).strings (Keys.pass_for (record { event_id = event_id }) t)

  abbrev fields : List (Text × ℕ)
  fields = settings options.rate_per_min options.burst options.batch_max

  -- HSET on a database `d` that has the line asked for.
  written-Configured :
      (db d : Db) (q : Line)
      → Holds (view d) keys (line_of q)
      → (view d).hashes (Keys.bucket keys)
        ≡ (if options.reset then [] else (view db).hashes (Keys.bucket keys))
      → ((t : Text)
          → (view d).strings (Keys.pass_for keys t) ≡ (view db).strings (Keys.pass_for keys t))
      → Configured db q (hset d (Keys.config keys) fields)
  written-Configured db d q h b p =
      let e = view-hset d (Keys.config keys) fields in
      let old = (view d).hashes (Keys.config keys) in
      record {
        in_step =
            rw e (
              Holds-set_hash (view d) keys (line_of q) (Keys.config keys) (insert_all fields old)
                h);
        live = rw e (
            simp text_eq-append (
              live_insert (codes "batch_max") options.batch_max (
                insert_all
                  ((codes "rate_per_min", options.rate_per_min)
                    ∷ (codes "burst", options.burst)
                    ∷ [])
                  old)));
        rate = rw e (simp text_eq-append (simp lookup-insert));
        burst = rw e (simp text_eq-append (simp lookup-insert));
        batch_max = rw e (simp text_eq-append (simp lookup-insert));
        bucket = rw e (simp text_eq-append b);
        passes = λ t. rw e (p t);
      }

  -- The database that the HSET finds.
  abbrev base : Db → Db
  base db = if options.reset then reset_queue R keys db else db

  record Prepared (db d : Db) (q : Line) : Type 0 where
    in_step : Holds (view d) keys (line_of q)
    bucket :
        (view d).hashes (Keys.bucket keys)
        ≡ (if options.reset then [] else (view db).hashes (Keys.bucket keys))
    passes :
        (t : Text)
        → (view d).strings (Keys.pass_for keys t) ≡ (view db).strings (Keys.pass_for keys t)

  reset-Prepared :
      (db : Db) (q : Line) → options.reset ≡ true → Prepared db (reset_queue R keys db) q
  unfolding reset_queue
  reset-Prepared db q yes_reset =
      let e =
        view-del db
          (Keys.queue keys ∷ Keys.seq keys ∷ Keys.admitted keys ∷ Keys.bucket keys ∷ []) in
      record {
        in_step = rw (yes_reset, e) (Holds-erased (view db) keys);
        bucket = rw (yes_reset, e) (simp text_eq-append refl);
        passes = λ t. rw e (simp text_eq-append refl);
      }

  kept-Prepared :
      (db : Db) (q : Line) → Holds (view db) keys q → options.reset ≡ false → Prepared db db q
  kept-Prepared db q h no_reset = record {
    in_step = rw no_reset h;
    bucket = rw no_reset refl;
    passes = λ t. refl;
  }

  applied_reset :
      (trips : Trips) (db : Db)
      → options.reset ≡ true
      → trips.del ≡ delivered
      → apply R trips keys options db ≡ configure R trips keys options (reset_queue R keys db)
  unfolding apply
  applied_reset trips db yes_reset d = simp (yes_reset, d) refl

  applied_kept :
      (trips : Trips) (db : Db)
      → options.reset ≡ false
      → apply R trips keys options db ≡ configure R trips keys options db
  unfolding apply
  applied_kept trips db no_reset = simp no_reset refl

  configure_delivered :
      (trips : Trips) (d : Db)
      → trips.hset ≡ delivered
      → trips.hgetall ≡ delivered
      → configure R trips keys options d ≡ (
        printed ((view (hset d (Keys.config keys) fields)).hashes (Keys.config keys)),
        hset d (Keys.config keys) fields,
      )
  unfolding configure printed_config
  configure_delivered trips d s g = rw (s, g, hgetall_lem) refl

  -- What the command returns when the HSET finds the database `d`.
  handled :
      (trips : Trips) (db d : Db)
      → is_valid_event_id event_id ≡ true
      → trips.hset ≡ delivered
      → trips.hgetall ≡ delivered
      → apply R trips keys options db ≡ configure R trips keys options d
      → handle R trips event_id options db ≡ (
        printed ((view (hset d (Keys.config keys) fields)).hashes (Keys.config keys)),
        hset d (Keys.config keys) fields,
      )
  unfolding handle
  handled trips db d valid s g applied = simp (valid, applied) (configure_delivered trips d s g)

  configured :
      {db : Db} {q : Line} (trips : Trips) (d : Db)
      → Prepared db d q
      → handle R trips event_id options db ≡ (
        printed ((view (hset d (Keys.config keys) fields)).hashes (Keys.config keys)),
        hset d (Keys.config keys) fields,
      )
      → ((handle R trips event_id options db).0
          ≡ printed ((view (handle R trips event_id options db).1).hashes (Keys.config keys)))
        × Configured db q (handle R trips event_id options db).1
  configured {db} {q} trips d p e =
      subst
        (λ (x : Exit × Db).
          (x.0 ≡ printed ((view x.1).hashes (Keys.config keys))) × Configured db q x.1)
        (sym e) (refl, written-Configured db d q p.in_step p.bucket p.passes)

  module _ (db : Db) (q : Line) (h : Holds (view db) (record { event_id = event_id }) q) where
    -- An accepted event, in step with `q`, and every trip to Redis delivered. The command prints the
    -- configuration that is stored, which has the three options. The event is configured; with
    -- --reset its queue is fresh and its bucket gone, otherwise both are as before; the parked passes
    -- stay in either case.
    pub create_event-Configured :
        (trips : Trips)
        → is_valid_event_id event_id ≡ true
        → trips.del ≡ delivered
        → trips.hset ≡ delivered
        → trips.hgetall ≡ delivered
        → ((handle R trips event_id options db).0
            ≡ printed (
                (view (handle R trips event_id options db).1).hashes
                  (Keys.config (record { event_id = event_id }))))
          × Configured db q (handle R trips event_id options db).1
    create_event-Configured trips valid d s g = elim (Bool-cases options.reset) [
      | inl yes_reset ↦
          configured trips (reset_queue R keys db) (reset-Prepared db q yes_reset) (
            handled trips db (reset_queue R keys db) valid s g (applied_reset trips db yes_reset d))
      | inr no_reset ↦
          configured trips db (kept-Prepared db q h no_reset)
            (handled trips db db valid s g (applied_kept trips db no_reset))
    ]
