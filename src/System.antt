-- ===== src/System.antt =====
-- The queue service as a whole, for one event: requests to the endpoints, ticks of any admitters,
-- create_event without --reset and the expiry of passes, in any order, each on any network. Every action
-- is carried out by the code of the module that models it; `events_of` names the atomic steps of Redis
-- that it comes to.
pub mod Trace
pub mod Batch
pub mod Quiet
pub mod Rate
pub mod Passes
pub mod Kept
pub mod Shifts
pub mod Answered
pub mod Waiter
pub mod Reloads
pub mod Sales
use queue_fair.Prelude.{
  ℕ, Text, codes, false, Option, none, some, List, [], ◌∷◌, ◌++◌, map, length, take, not, text_eq,
  ◌/◌, if◌then◌else◌,
}
use queue_fair.Redis.{Redis}
use queue_fair.Keys
use queue_fair.Result.{Result, ok, raise}
use queue_fair.Ports.{AdmissionBatch, IssuedPass, PassIssuer}
use queue_fair.Validation.{is_valid_event_id}
use queue_fair.State.{Float}
use queue_fair.Queue.Runs.{Event, join, ask, admit, park, expire, configure}
use queue_fair.Repository
use queue_fair.Repository.{Network, delivered, refused, lost, repository, payload}
use queue_fair.Repository.Codec.{JsonCodec}
use queue_fair.Admission.{admit_once, issue_all}
use queue_fair.Admission.Rounds.{Round}
use queue_fair.Commands.CreateEvent.{Trips, handle}
use queue_fair.Api
use queue_fair.Api.{Request, Settings, queue_token_from, token_for}

pub data Action : Type 0 where
  -- POST /api/queue/<event_id>/join, with the random bytes
  joins : Network → Request → List ℕ → Action
  -- GET /api/queue/<event_id>/position
  asks : Network → Request → Action
  -- a tick of an admitter
  ticks : Round → Action
  -- create_event without --reset: rate_per_min, burst, batch_max
  configures : Trips → ℕ → ℕ → ℕ → Action
  -- the time to live of the pass of a token runs out
  expires : Text → Action

-- The event, if the command reaches Redis.
abbrev pub reaching : Network → Event → List Event
reaching delivered e = e ∷ []
reaching refused e = []
reaching lost e = e ∷ []

-- The number of SETs of a pipeline of `n` that are run.
abbrev pub sets_run : Network → ℕ → ℕ → ℕ
sets_run delivered sent n = n
sets_run refused sent n = 0
sets_run lost sent n = sent

module _ (F : Float) (settings : Settings) (R : Redis) (J : JsonCodec) (issuer : PassIssuer)
    (ttl : ℕ) (event_id : Text) where
  open R use {Db}

  unfoldable pub perform : Action → Db → Db
  perform (joins net request bytes) db = (Api.join F settings event_id R net request bytes db).1
  perform (asks net request) db = (Api.position F settings event_id R J net request db).1
  perform (ticks r) db =
      (admit_once (repository R J r.popping r.parking r.sent) issuer ttl event_id r.now_ms r.uuid
        db).1
  perform (configures trips rate burst batch_max) db =
      (handle R trips event_id
        (record { rate_per_min = rate; burst = burst; batch_max = batch_max; reset = false }) db).1
  perform (expires t) db = R.expire db (Keys.pass_for (record { event_id = event_id }) t)

  unfoldable pub run : List Action → Db → Db
  unfolding perform
  run [] db = db
  run (a ∷ more) db = run more (perform a db)

  abbrev pub park_of : IssuedPass → Event
  park_of p = park p.queue_token (payload J event_id p) ttl

  -- The passes of a batch that the pipeline of a tick stores.
  abbrev pub stored_of : Round → List Text → List IssuedPass
  stored_of r tokens =
      let passes = issue_all issuer event_id (r.now_ms / 1000) r.uuid 0 tokens in
      take (sets_run r.parking r.sent (length passes)) passes

  abbrev pub parks_of : Round → Result (Option AdmissionBatch) → List Event
  parks_of r (raise e) = []
  parks_of r (ok none) = []
  parks_of r (ok (some batch)) = map park_of (stored_of r batch.admitted_tokens)

  abbrev pub asked_by : Network → Option Text → List Event
  asked_by net none = []
  asked_by net (some t) = reaching net (ask t)

  unfoldable pub events_of : Action → Db → List Event
  events_of (joins net request bytes) db =
      if not (text_eq request.method (codes "POST"))
      then []
      else if not (is_valid_event_id event_id)
      then []
      else reaching net (join (token_for request event_id bytes))
  events_of (asks net request) db =
      if not (text_eq request.method (codes "GET"))
      then []
      else if not (is_valid_event_id event_id)
      then []
      else asked_by net (queue_token_from request event_id)
  events_of (ticks r) db =
      reaching r.popping (admit r.now_ms)
      ++ parks_of r (Repository.admit_batch R r.popping event_id r.now_ms db).0
  events_of (configures trips rate burst batch_max) db =
      if not (is_valid_event_id event_id)
      then []
      else reaching trips.hset (configure rate burst batch_max)
  events_of (expires t) db = expire t ∷ []

  -- The events of a run.
  unfoldable pub trace : List Action → Db → List Event
  unfolding events_of perform
  trace [] db = []
  trace (a ∷ more) db = events_of a db ++ trace more (perform a db)
