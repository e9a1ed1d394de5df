-- ===== src/System/Trace.antt =====
-- A run of the service is a run of its events.
pub mod Ticks
use queue_fair.Prelude.{
  ℕ, zero, suc, Text, codes, Bool, true, false, Option, none, some, List, [], ◌∷◌, ◌≡◌, refl, ap,
  sym, ◌∙◌, map, length, take, not, text_eq, ◌/◌, if◌then◌else◌,
}
use queue_fair.Redis.{Redis}
use queue_fair.Keys.{EventKeys}
use queue_fair.Result.{Result, ok, raise}
use queue_fair.Ports.{AdmissionBatch, IssuedPass, PassIssuer}
use queue_fair.Validation.{is_valid_event_id}
use queue_fair.State.{Float}
use queue_fair.Queue.Runs.{Event, join, admit, configure, step, final}
use queue_fair.Queue.Runs.Append.{final-append}
use queue_fair.Repository
use queue_fair.Repository.{
  Network, delivered, refused, lost, repository, payload, run_sets, record_admissions,
}
use queue_fair.Repository.Codec.{JsonCodec}
use queue_fair.Admission
use queue_fair.Admission.{admit_once, hand_out, issue_all}
use queue_fair.Admission.Rounds.{Round}
use queue_fair.Commands.CreateEvent
use queue_fair.Commands.CreateEvent.{Options, Trips, handle, apply, printed_config}
use queue_fair.Api
use queue_fair.Api.{Request, Settings, queue_token_from, token_for, taken, asked}
use queue_fair.System.{
  Action, joins, asks, ticks, configures, expires, reaching, sets_run, perform, run, park_of,
  stored_of, parks_of, asked_by, events_of, trace,
}
use queue_fair.System.Trace.Ticks.{final-ticks}

module _ (F : Float) (settings : Settings) (R : Redis) (J : JsonCodec) (issuer : PassIssuer)
    (ttl : ℕ) (event_id : Text) where
  open R use {Db}

  abbrev keys : EventKeys
  keys = record { event_id = event_id }

  -- Two branches on the same test.
  final-branch :
      {X : Type 0} (b : Bool) (x y : X × Db) (es fs : List Event) (db : Db)
      → x.1 ≡ final R keys es db
      → y.1 ≡ final R keys fs db
      → (if b then x else y).1 ≡ final R keys (if b then es else fs) db
  final-branch true x y es fs db h k = h
  final-branch false x y es fs db h k = k

  final-joins :
      (net : Network) (t : Text) (db : Db)
      → (taken F settings event_id R net t db).1 ≡ final R keys (reaching net (join t)) db
  unfolding taken Repository.join final step
  final-joins delivered t db = refl
  final-joins refused t db = refl
  final-joins lost t db = refl

  final-asks :
      (net : Network) (o : Option Text) (db : Db)
      → (asked F settings event_id R J net o db).1
        ≡ final R keys (asked_by F settings R J issuer ttl event_id net o) db
  unfolding asked Repository.position final step
  final-asks net none db = refl
  final-asks delivered (some t) db = refl
  final-asks refused (some t) db = refl
  final-asks lost (some t) db = refl

  abbrev options : ℕ → ℕ → ℕ → Options
  options rate burst batch_max = record {
    rate_per_min = rate;
    burst = burst;
    batch_max = batch_max;
    reset = false;
  }

  printed_same : (net : Network) (k : Text) (db : Db) → (printed_config R net k db).1 ≡ db
  unfolding printed_config
  printed_same delivered k db = refl
  printed_same refused k db = refl
  printed_same lost k db = refl

  final-configure :
      (del hset hgetall : Network) (rate burst batch_max : ℕ) (db : Db)
      → (CreateEvent.configure R
          (record { del = del; hset = hset; hgetall = hgetall })
          keys
          (options rate burst batch_max)
          db).1
        ≡ final R keys (reaching hset (configure rate burst batch_max)) db
  unfolding CreateEvent.configure final step
  final-configure del delivered hgetall rate burst batch_max db = printed_same hgetall _ _
  final-configure del refused hgetall rate burst batch_max db = refl
  final-configure del lost hgetall rate burst batch_max db = refl

  final-configures :
      (trips : Trips) (rate burst batch_max : ℕ) (db : Db)
      → perform F settings R J issuer ttl event_id (configures trips rate burst batch_max) db
        ≡ final R keys
            (events_of F settings R J issuer ttl event_id
              (configures trips rate burst batch_max)
              db)
            db
  unfolding perform events_of handle apply final
  final-configures trips rate burst batch_max db =
      final-branch (not (is_valid_event_id event_id)) _ _ _ _ db refl
        (final-configure trips.del trips.hset trips.hgetall rate burst batch_max db)

  final-joining :
      (net : Network) (request : Request) (bytes : List ℕ) (db : Db)
      → perform F settings R J issuer ttl event_id (joins net request bytes) db
        ≡ final R keys
            (events_of F settings R J issuer ttl event_id (joins net request bytes) db)
            db
  unfolding perform events_of Api.join final
  final-joining net request bytes db =
      final-branch (not (text_eq request.method (codes "POST"))) _ _ _ _ db refl (
        final-branch (not (is_valid_event_id event_id)) _ _ _ _ db refl
          (final-joins net (token_for request event_id bytes) db))

  final-asking :
      (net : Network) (request : Request) (db : Db)
      → perform F settings R J issuer ttl event_id (asks net request) db
        ≡ final R keys (events_of F settings R J issuer ttl event_id (asks net request) db) db
  unfolding perform events_of Api.position final
  final-asking net request db =
      final-branch (not (text_eq request.method (codes "GET"))) _ _ _ _ db refl (
        final-branch (not (is_valid_event_id event_id)) _ _ _ _ db refl
          (final-asks net (queue_token_from request event_id) db))

  pub perform-events :
      (a : Action) (db : Db)
      → perform F settings R J issuer ttl event_id a db
        ≡ final R keys (events_of F settings R J issuer ttl event_id a db) db
  unfolding perform events_of final step
  perform-events (joins net request bytes) db = final-joining net request bytes db
  perform-events (asks net request) db = final-asking net request db
  perform-events (ticks r) db = final-ticks F settings R J issuer ttl event_id r db
  perform-events (configures trips rate burst batch_max) db =
      final-configures trips rate burst batch_max db
  perform-events (expires t) db = refl

  -- Whatever a run of the service does to Redis is what its trace does: every request, tick, command
  -- and expiry, on any network, comes to the atomic steps that `events_of` names.
  pub run-trace :
      (actions : List Action) (db : Db)
      → run F settings R J issuer ttl event_id actions db
        ≡ final R
            (record { event_id = event_id })
            (trace F settings R J issuer ttl event_id actions db)
            db
  unfolding run trace final
  run-trace [] db = refl
  run-trace (a ∷ more) db =
      run-trace more (perform F settings R J issuer ttl event_id a db)
      ∙ ap
          (final R keys (
            trace F settings R J issuer ttl event_id more
              (perform F settings R J issuer ttl event_id a db)))
          (perform-events a db)
      ∙ sym (final-append R keys (events_of F settings R J issuer ttl event_id a db) _ db)
