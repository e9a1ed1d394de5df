-- ===== src/System/Sales.antt =====
-- Any number of sales on one Redis, their requests, ticks, commands and expiries interleaved.
pub mod Answers
pub mod Alone
use queue_fair.Prelude.{
  ℕ, ◌*◌, ◌+◌, ◌-◌, ◌/◌, ◌≤◌, Text, codes, Option, none, some, true, false, List, [], ◌∷◌, ◌++◌,
  ◌≡◌, ◌≢◌, refl, ap, sym, ◌∙◌, arith, map, take, text_eq, text_eq_iff, if◌then◌else◌, Bool-cases,
  inl, inr,
}
use mathlib.Core.Path.{subst}
use queue_fair.Redis.{View, Redis, All}
use queue_fair.Keys
use queue_fair.Keys.{EventKeys}
use queue_fair.Keys.Distinct.{Kind, key_of, key_of_other}
use queue_fair.Ports.{PassIssuer, AdmissionBatch}
use queue_fair.Result.{Result, ok, raise}
use queue_fair.State.{Float}
use queue_fair.Scripts.{token_unit}
use queue_fair.Validation.{is_valid_event_id}
use queue_fair.Queue.{Line, Holds}
use queue_fair.Queue.Admit.{config_of, bucket_field}
use queue_fair.Queue.Apart.{Same, Same-refl, Same-trans, Holds-Same, Same-final}
use queue_fair.Queue.Alike.{Alike, Both}
use queue_fair.Queue.Alike.Steps.{Alike-final, IsLive-Alike}
use queue_fair.Queue.Runs.{Event, admit, final, IsLive}
use queue_fair.Queue.Runs.Order.{final-order}
use queue_fair.Queue.Runs.Step.{admitted_by}
use queue_fair.Queue.Runs.Progress.Served.{IsLive-final}
use queue_fair.Repository
use queue_fair.Repository.{delivered, refused, lost, Network}
use queue_fair.Repository.Codec.{JsonCodec}
use queue_fair.Admission.Rounds.{Round}
use queue_fair.Api.{Settings}
use queue_fair.System.{
  Action, joins, asks, ticks, configures, expires, reaching, run, perform, park_of, stored_of,
  parks_of, events_of,
}
use queue_fair.System.Batch.{batch_tokens}
use queue_fair.System.Trace.{perform-events}

-- The actions of one event.
unfoldable pub own : Text → List (Text × Action) → List Action
own event_id [] = []
own event_id ((e, a) ∷ more) =
    let rest = own event_id more in if text_eq e event_id then a ∷ rest else rest

module _ (R : Redis) where
  open R use {Db, view}

  -- Configured, with an accepted id, in step with some queue.
  pub record Selling (db : Db) (event_id : Text) : Type 0 where
    pub valid : is_valid_event_id event_id ≡ true
    pub line : Line
    pub in_step : Holds (view db) (record { event_id = event_id }) line
    pub live : IsLive (view db) (record { event_id = event_id })

module _ (F : Float) (settings : Settings) (R : Redis) (J : JsonCodec) (issuer : PassIssuer)
    (ttl : ℕ) where
  open R use {Db, view}

  -- The actions of all sales, each with the id of its event.
  unfoldable pub run_all : List (Text × Action) → Db → Db
  run_all [] db = db
  run_all ((event_id, a) ∷ more) db = run_all more (perform F settings R J issuer ttl event_id a db)

  module _ (event_id : Text) where
    abbrev keys : EventKeys
    keys = record { event_id = event_id }

    abbrev events : Action → Db → List Event
    events = events_of F settings R J issuer ttl event_id

    abbrev parks : Round → Result (Option AdmissionBatch) → List Event
    parks = parks_of F settings R J issuer ttl event_id

    admitted_by-Alike :
        (now : ℕ) (a b : Db) (q : Line)
        → Both R keys a b
        → admitted_by R keys (admit now) b q ≡ admitted_by R keys (admit now) a q
    admitted_by-Alike now a b q s = rw ((s Kind.config).hash, (s Kind.bucket).hash) refl

    parks_lem :
        (r : Round) (db : Db) (q : Line)
        → Holds (view db) keys q
        → IsLive (view db) keys
        → parks r (Repository.admit_batch R delivered event_id r.now_ms db).0
          ≡ map (park_of F settings R J issuer ttl event_id) (
              stored_of F settings R J issuer ttl event_id r
                (take (admitted_by R keys (admit r.now_ms) db q) q.waiting))
    parks_lem r db q h live =
        let (total, e) = batch_tokens R event_id db q h live r.now_ms in ap (parks r) e

    parks-Alike :
        (r : Round) (net : Network) (a b : Db) (q : Line)
        → Holds (view a) keys q
        → IsLive (view a) keys
        → Both R keys a b
        → parks r (Repository.admit_batch R net event_id r.now_ms b).0
          ≡ parks r (Repository.admit_batch R net event_id r.now_ms a).0
    unfolding Repository.admit_batch
    parks-Alike r refused a b q h live s = refl
    parks-Alike r lost a b q h live s = refl
    parks-Alike r delivered a b q h live s =
        parks_lem r b q (Holds-Same keys (view a) (view b) q s h)
          (IsLive-Alike keys (view a) (view b) s live)
        ∙ ap
            (λ n.
              map (park_of F settings R J issuer ttl event_id)
                (stored_of F settings R J issuer ttl event_id r (take n q.waiting)))
            (admitted_by-Alike r.now_ms a b q s)
        ∙ sym (parks_lem r a q h live)

    events-Alike :
        (x : Action) (a b : Db) (q : Line)
        → Holds (view a) keys q
        → IsLive (view a) keys
        → Both R keys a b
        → events x b ≡ events x a
    unfolding events_of
    events-Alike (joins net request bytes) a b q h live s = refl
    events-Alike (asks net request) a b q h live s = refl
    events-Alike (ticks r) a b q h live s =
        ap (λ l. reaching r.popping (admit r.now_ms) ++ l) (parks-Alike r r.popping a b q h live s)
    events-Alike (configures trips rate burst batch_max) a b q h live s = refl
    events-Alike (expires u) a b q h live s = refl

    -- An action of the sale keeps two servers alike.
    Alike-perform :
        (x : Action) (a b : Db) (q : Line)
        → Holds (view a) keys q
        → IsLive (view a) keys
        → Both R keys a b
        → Both R keys
            (perform F settings R J issuer ttl event_id x a)
            (perform F settings R J issuer ttl event_id x b)
    Alike-perform x a b q h live s =
        rw
          (
            perform-events F settings R J issuer ttl event_id x a,
            perform-events F settings R J issuer ttl event_id x b,
            events-Alike x a b q h live s,
          )
          (Alike-final R keys (events x a) a b q h live s)

    -- An action of the sale keeps it in step.
    Selling-perform :
        (x : Action) (db : Db)
        → Selling R db event_id
        → Selling R (perform F settings R J issuer ttl event_id x db) event_id
    Selling-perform x db s =
        let (after, gone, fresh, holds, logged, counted, order, came) =
          final-order R keys (events x db) db s.line s.in_step s.live in
        let same = sym (perform-events F settings R J issuer ttl event_id x db) in
        record {
          valid = s.valid;
          line = after;
          in_step = subst (λ d. Holds (view d) keys after) same holds;
          live =
              subst (λ d. IsLive (view d) keys) same
                (IsLive-final R keys (events x db) db s.line s.in_step s.live);
        }

    -- An action of another sale leaves its keys as they are.
    Alike-other :
        (e : Text) (x : Action) (db : Db)
        → Selling R db e
        → is_valid_event_id event_id ≡ true
        → text_eq e event_id ≡ false
        → Both R keys db (perform F settings R J issuer ttl e x db)
    Alike-other e x db s valid other k =
        let differs : e ≢ event_id =
          λ same. absurd (ground (arith, (text_eq_iff e event_id).1 same, other)) in
        subst (λ d. Same (key_of k keys) (view db) (view d))
          (sym (perform-events F settings R J issuer ttl e x db))
          (Same-final R (record { event_id = e }) (key_of k keys)
            (λ i. key_of_other (record { event_id = e }) keys s.valid valid differs i k)
            (events_of F settings R J issuer ttl e x db) db s.line s.in_step s.live)
