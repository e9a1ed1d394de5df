-- ===== src/System/Waiter.antt =====
-- A client in the line, whose admitters keep ticking, collects a pass that the booking service accepts.
use queue_fair.Prelude.{
  ℕ, ◌+◌, ◌<◌, ◌/◌, Text, codes, true, some, List, ◌≡◌, refl, arith, length, lookup, text_eq, inl,
  inr,
}
use mathlib.Core.List.{Memᴰ}
use queue_fair.Redis.{Redis, All}
use queue_fair.Keys.{EventKeys}
use queue_fair.Result.{ok}
use queue_fair.Router.{Router, IsSlug}
use queue_fair.Validation.{is_valid_event_id, is_valid_queue_token}
use queue_fair.State.{AdmittedOutcome, Float}
use queue_fair.Queue.{Line, Holds, index_of}
use queue_fair.Queue.Admit.{config_of}
use queue_fair.Queue.Runs.{IsLive}
use queue_fair.Queue.Runs.Rate.{admitted_total}
use queue_fair.Queue.Runs.Progress.{IsRunning}
use queue_fair.Queue.Places.{index_of-lt}
use queue_fair.Queue.Runs.Progress.Served.{windows_admit}
use queue_fair.Repository
use queue_fair.Repository.{delivered, admitted}
use queue_fair.Repository.Codec.{JsonCodec}
use queue_fair.Admission.Rounds.{Round}
use queue_fair.Tokens.{Jwt}
use queue_fair.Tokens.Issuer.{Hs256PassIssuer, issuer}
use queue_fair.Booking.Urls.{resolve}
use queue_fair.Booking.Endpoint
use queue_fair.Booking.Endpoint.{authenticate}
use queue_fair.Booking.Endpoint.Bearer.{header_of}
use queue_fair.Booking.Endpoint.Issued.{claims_issued}
use queue_fair.Api
use queue_fair.Api.{Request, Settings, cookie_name}
use queue_fair.Api.Asking.{admitted_response, position_admitted}
use queue_fair.System.{Action, ticks, run}
use queue_fair.System.Trace.{run-trace}
use queue_fair.System.Shifts.{Shift, all_actions, windows_of, length-windows_of, all_events_lem}
use queue_fair.System.Kept.{parcel_of}
use queue_fair.System.Kept.Over.{Leaves, Tracked, Tracked-run}
use queue_fair.System.Answered.{Drawn, Drawn-mem, names, answered, pass_taken}

module _ (F : Float) (settings : Settings) (R : Redis) (J : JsonCodec) (W : Jwt) (U : Router)
    (self : Hs256PassIssuer) (ttl : ℕ) (event_id : Text) where
  open R use {Db, view}

  abbrev keys : EventKeys
  keys = record { event_id = event_id }

  abbrev ran : List Action → Db → Db
  ran = run F settings R J (issuer W self) ttl event_id

  module _ (db : Db) (q : Line) (h : Holds (view db) keys q) (live : IsLive (view db) keys)
      (r : IsRunning R keys db)
      (shifts : List (Shift (config_of R keys db (codes "rate_per_min")))) where
    -- Each shift admits one, while someone waits.
    pub many_admitted :
        (i : ℕ)
        → i < length q.waiting
        → i < length shifts
        → q.admitted + i < admitted_total R keys (ran (all_actions shifts) db)
    many_admitted i waits enough =
        let ws = windows_of F settings R J (issuer W self) ttl event_id shifts db in
        rw
          (
            run-trace F settings R J (issuer W self) ttl event_id (all_actions shifts) db,
            ← all_events_lem F settings R J (issuer W self) ttl event_id shifts db,
          )
          (omega (
            arith,
            windows_admit R keys (config_of R keys db (codes "rate_per_min")) ws db q h live r refl,
            length-windows_of F settings R J (issuer W self) ttl event_id shifts db,
            waits,
            enough,
          ))

    -- Where the token is after the shifts.
    kept_after :
        (t : Text) (i : ℕ)
        → 0 < ttl
        → index_of t q.waiting ≡ some i
        → All (Leaves event_id t) (all_actions shifts)
        → Tracked F settings R J
            (issuer W self)
            ttl
            event_id
            t
            (λ round. Memᴰ (ticks round) (all_actions shifts))
            (q.admitted + i)
            (names F settings R J W U self ttl event_id)
            (ran (all_actions shifts) db)
    kept_after t i lives here leaves =
        Tracked-run F settings R J (issuer W self) ttl event_id t
          (λ round. Memᴰ (ticks round) (all_actions shifts)) (q.admitted + i)
          (names F settings R J W U self ttl event_id) (all_actions shifts) db lives (λ round m. m)
          leaves (record { line = q; in_step = h; live = live; kept = inl (i, here, refl) })

    told_admitted :
        (t : Text) (i : ℕ)
        → 0 < ttl
        → index_of t q.waiting ≡ some i
        → i < length shifts
        → All (Leaves event_id t) (all_actions shifts)
        → (round : Round) × (j : ℕ) × (o : AdmittedOutcome) × Memᴰ
            (ticks round)
            (all_actions shifts)
          × (o.admission ≡ parcel_of R J (issuer W self) ttl event_id t round j)
          × ((Repository.position R J delivered event_id t (ran (all_actions shifts) db)).0
              ≡ ok (admitted o))
    told_admitted t i lives here enough leaves =
        let k = kept_after t i lives here leaves in
        elim (k.kept) [
          | inl (i', here', same) ↦ absurd (
              omega (
                arith,
                many_admitted i (index_of-lt t q.waiting i here) enough,
                k.in_step.counted,
                same,
              ))
          | inr (gone, c) ↦
              let (o, is, answer) =
                answered F settings R J W U self ttl event_id t _ (ran (all_actions shifts) db)
                  k.line k.in_step k.live gone c in
              (c.round, c.draw, o, c.source, is, answer)
        ]

  -- Let a well-formed token wait at `i` on a configured event in step with `q`, whose id is
  -- accepted and a slug, with a rate and a batch size above 0, a burst above 1, and a time to live
  -- of passes in Redis above 0. Run more than `i` shifts, one after the other: in each, a tick that
  -- reaches Redis is followed by any requests, ticks and expiries, on any networks, with clocks
  -- that do not step back and no new configuration, until a tick that reaches Redis when the rate
  -- has granted more than one token since the first. Let the ticks that pop have both round trips
  -- delivered, their uuids not be empty, the token not join again and its pass not expire
  -- meanwhile. Then a GET of the position with the token in its cookie is answered 200 with a pass
  -- that one of the ticks issued, and with a URL that the booking service routes to its view with
  -- the same event. Sent there in the header, `k` seconds after that tick, with `k` below the time
  -- to live of a pass, the pass is accepted as that of the token for the event.
  pub waiter_served :
      (db : Db) (q : Line)
      → Holds (view db) (record { event_id = event_id }) q
      → IsLive (view db) (record { event_id = event_id })
      → IsRunning R (record { event_id = event_id }) db
      → is_valid_event_id event_id ≡ true
      → IsSlug event_id
      → 0 < ttl
      → (t : Text) (i : ℕ) → index_of t q.waiting ≡ some i
      → is_valid_queue_token t ≡ true
      → (shifts : List
          (Shift (config_of R (record { event_id = event_id }) db (codes "rate_per_min"))))
      → i < length shifts
      → All (Leaves event_id t) (all_actions shifts)
      → All Drawn (all_actions shifts)
      → (request : Request) → text_eq request.method (codes "GET") ≡ true
      → lookup (cookie_name event_id) request.cookies ≡ some t
      → (k : ℕ) → k < self.ttl_seconds
      → (round : Round) × (j : ℕ) × (o : AdmittedOutcome) × Memᴰ (ticks round) (all_actions shifts)
        × ((Api.position F settings event_id R J delivered request
              (run F settings R J (issuer W self) ttl event_id (all_actions shifts) db)).0
            ≡ some (admitted_response o))
        × (resolve U o.admission.book_url ≡ some event_id)
        × (authenticate W self.secret (round.now_ms / 1000 + k) (header_of o.admission.pass)
            ≡ Endpoint.ok (claims_issued W self event_id t (round.uuid j) (round.now_ms / 1000)))
  waiter_served db q h live r id slug lives t i here valid shifts enough leaves drawn request get
        cookie k lasts =
      let (round, j, o, one, is, answer) =
        told_admitted db q h live r shifts t i lives here enough leaves in
      let (routed, accepted) =
        pass_taken F settings R J W U self ttl event_id t round j o is slug valid
          (Drawn-mem (ticks round) (all_actions shifts) one drawn j) k lasts in
      (
        round,
        j,
        o,
        one,
        position_admitted F settings event_id R J request t o _ get id cookie valid answer,
        routed,
        accepted,
      )
