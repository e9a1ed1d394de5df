-- ===== src/System/Passes.antt =====
-- The passes that a run of the service stores, against those that it pops.
pub mod Count
use queue_fair.Prelude.{
  ℕ, suc, ◌+◌, ◌-◌, ◌*◌, ◌≤◌, Text, codes, Bool, true, false, Option, none, some, List, [], ◌∷◌,
  ◌++◌, ◌≡◌, refl, ap, sym, arith, map, not, length, length-take, take, text_eq, ◌/◌, if◌then◌else◌,
}
use mathlib.Core.Path.{subst}
use queue_fair.Redis.{Redis}
use queue_fair.Keys.{EventKeys}
use queue_fair.Result.{ok}
use queue_fair.Ports.{IssuedPass, PassIssuer}
use queue_fair.State.{Float}
use queue_fair.Scripts.{token_unit}
use queue_fair.Validation.{is_valid_event_id}
use queue_fair.Queue.{Line, Holds}
use queue_fair.Queue.Admit.{config_of}
use queue_fair.Queue.Runs.{
  Event, join, ask, admit, park, expire, configure, step, final, IsLive, end_time,
}
use queue_fair.Queue.Runs.Step.{step-Stepped, line_after, admitted_by}
use queue_fair.Queue.Runs.Order.{final-order, count_after}
use queue_fair.Queue.Runs.Rate.{admitted_total, admitted_within}
use queue_fair.Queue.Runs.Progress.{total_grows}
use queue_fair.Queue.Runs.Progress.Served.{IsLive-final}
use queue_fair.Repository
use queue_fair.Repository.{Network, delivered, refused, lost}
use queue_fair.Repository.Codec.{JsonCodec}
use queue_fair.Admission.{issue_all}
use queue_fair.Admission.Rounds.{Round}
use queue_fair.Api.{Settings, queue_token_from, token_for}
use queue_fair.System.{
  Action, joins, asks, ticks, configures, expires, reaching, sets_run, perform, run, park_of,
  stored_of, parks_of, asked_by, events_of, trace,
}
use queue_fair.System.Batch.{batch_tokens}
use queue_fair.System.Trace.{run-trace, perform-events}
use queue_fair.System.Rate.{Orderly, last_clock, ends_by}
use queue_fair.System.Passes.Count.{
  parked, parked-append, parked-branch, parked-reaching, length-take_le, length-issue_all, times_le,
}

module _ (F : Float) (settings : Settings) (R : Redis) (J : JsonCodec) (issuer : PassIssuer)
    (ttl : ℕ) (event_id : Text) where
  open R use {Db, view}

  abbrev keys : EventKeys
  keys = record { event_id = event_id }

  abbrev events : Action → Db → List Event
  events = events_of F settings R J issuer ttl event_id

  parked-park_of :
      (ps : List IssuedPass)
      → parked (map (park_of F settings R J issuer ttl event_id) ps) ≡ length ps
  parked-park_of [] = refl
  parked-park_of (p ∷ ps) = ap suc (parked-park_of ps)

  parked-asked_by :
      (net : Network) (o : Option Text)
      → parked (asked_by F settings R J issuer ttl event_id net o) ≡ 0
  parked-asked_by net none = refl
  parked-asked_by net (some t) = parked-reaching net (ask t) refl

  -- At most one pass for each token of the batch.
  parked_le :
      (r : Round) (ts : List Text) (total : ℕ)
      → parked (
          parks_of F settings R J issuer ttl event_id r
            (ok (some (record { admitted_tokens = ts; admitted_total = total }))))
        ≤ length ts
  parked_le r ts total = omega (
    arith,
    parked-park_of (stored_of F settings R J issuer ttl event_id r ts),
    length-take_le
        (sets_run r.parking r.sent
          (length (issue_all issuer event_id (r.now_ms / 1000) r.uuid 0 ts)))
        (issue_all issuer event_id (r.now_ms / 1000) r.uuid 0 ts),
    length-issue_all issuer event_id (r.now_ms / 1000) r.uuid 0 ts,
  )

  module _ (db : Db) (q : Line) (h : Holds (view db) keys q) (live : IsLive (view db) keys) where
    -- An action stores no more passes than it pops tokens.
    abbrev Covered : List Event → Type 0
    Covered es = parked es + q.admitted ≤ admitted_total R keys (final R keys es db)

    none_parked : (es : List Event) → parked es ≡ 0 → Covered es
    none_parked es e = omega (arith, e, total_grows R keys es db q h live)

    popped_covers :
        (now : ℕ) (es : List Event)
        → parked es ≤ length (take (admitted_by R keys (admit now) db q) q.waiting)
        → Covered (admit now ∷ es)
    unfolding final
    popped_covers now es le =
        let st = step-Stepped R keys db q h live (admit now) in
        omega (
          arith,
          le,
          count_after R keys (admit now) db q,
          total_grows R keys es (step R keys (admit now) db).1 (line_after R keys (admit now) db q)
              st.in_step st.live,
        )

    batch-Covered :
        (r : Round) (net : Network)
        → Covered (
            reaching net (admit r.now_ms)
            ++ parks_of F settings R J issuer ttl event_id r
                (Repository.admit_batch R net event_id r.now_ms db).0)
    unfolding Repository.admit_batch
    batch-Covered r delivered =
        let (total, e) = batch_tokens R event_id db q h live r.now_ms in
        subst (λ b. Covered (admit r.now_ms ∷ parks_of F settings R J issuer ttl event_id r b))
          (sym e)
          (popped_covers r.now_ms _
            (parked_le r (take (admitted_by R keys (admit r.now_ms) db q) q.waiting) total))
    batch-Covered r refused = none_parked [] refl
    batch-Covered r lost = popped_covers r.now_ms [] (omega arith)

    action-Covered : (a : Action) → Covered (events a db)
    unfolding events_of
    action-Covered (joins net request bytes) = none_parked _ (
        parked-branch (not (text_eq request.method (codes "POST"))) _ _ refl (
          parked-branch (not (is_valid_event_id event_id)) _ _ refl
            (parked-reaching net (join (token_for request event_id bytes)) refl)))
    action-Covered (asks net request) = none_parked _ (
        parked-branch (not (text_eq request.method (codes "GET"))) _ _ refl (
          parked-branch (not (is_valid_event_id event_id)) _ _ refl
            (parked-asked_by net (queue_token_from request event_id))))
    action-Covered (ticks r) = batch-Covered r r.popping
    action-Covered (configures trips rate burst batch_max) = none_parked _ (
        parked-branch (not (is_valid_event_id event_id)) _ _ refl
          (parked-reaching trips.hset (configure rate burst batch_max) refl))
    action-Covered (expires t) = none_parked _ refl

  -- Over a run.
  run_covered :
      (actions : List Action) (db : Db) (q : Line)
      → Holds (view db) keys q
      → IsLive (view db) keys
      → parked (trace F settings R J issuer ttl event_id actions db) + q.admitted
        ≤ admitted_total R keys (run F settings R J issuer ttl event_id actions db)
  unfolding run trace
  run_covered [] db q h live = omega (arith, h.counted)
  run_covered (a ∷ more) db q h live =
      let next = perform F settings R J issuer ttl event_id a db in
      let same = perform-events F settings R J issuer ttl event_id a db in
      let (after, gone, fresh, holds, logged, counted, order, came) =
        final-order R keys (events a db) db q h live in
      let holds' : Holds (view next) keys after =
        subst (λ d. Holds (view d) keys after) (sym same) holds in
      let live' : IsLive (view next) keys =
        subst (λ d. IsLive (view d) keys) (sym same)
          (IsLive-final R keys (events a db) db q h live) in
      omega (
        arith,
        parked-append (events a db) (trace F settings R J issuer ttl event_id more next),
        action-Covered db q h live a,
        holds.counted,
        run_covered more next after holds' live',
      )

  -- Let requests, ticks of any admitters and expiries come in any order, on any networks, to a configured
  -- event in step with `q`, with the clocks of the ticks from the time `t` on not stepping back and no
  -- new configuration. The passes that the admitters store, and the tokens that they admit, are then at
  -- most the burst and the rate times the time up to the last tick: in sixty-thousandths of a token, at
  -- most 60000 * burst + rate * milliseconds. No more passes are stored than tokens are admitted.
  pub passes_within :
      (actions : List Action) (db : Db) (q : Line) (t : ℕ)
      → Holds (view db) (record { event_id = event_id }) q
      → IsLive (view db) (record { event_id = event_id })
      → Orderly t actions
      → (parked (trace F settings R J issuer ttl event_id actions db) + q.admitted
          ≤ admitted_total R
              (record { event_id = event_id })
              (run F settings R J issuer ttl event_id actions db))
        × (token_unit
              * admitted_total R
                  (record { event_id = event_id })
                  (run F settings R J issuer ttl event_id actions db)
            ≤ token_unit * q.admitted
              + token_unit * config_of R (record { event_id = event_id }) db (codes "burst")
              + config_of R (record { event_id = event_id }) db (codes "rate_per_min")
                * (last_clock t actions - t))
  passes_within actions db q t h live orderly =
      let (timely, ends) = ends_by F settings R J issuer ttl event_id actions t db orderly in
      let es = trace F settings R J issuer ttl event_id actions db in
      (
        run_covered actions db q h live,
        rw (run-trace F settings R J issuer ttl event_id actions db) (
            omega (
              arith,
              h.counted,
              admitted_within R keys es db q t h live timely,
              times_le (config_of R keys db (codes "rate_per_min")) (end_time t es - t)
                  (last_clock t actions - t) (omega (arith, ends)),
            )),
      )
