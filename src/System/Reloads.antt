-- ===== src/System/Reloads.antt =====
-- A client in the line that reloads the page, polls and joins as it likes.
use queue_fair.Ports.{PassIssuer}
use queue_fair.Prelude.{
  ◌++◌, ap, ◌∙◌, ℕ, ◌+◌, ◌<◌, ◌/◌, Text, codes, true, some, List, [], ◌∷◌, ◌≡◌, refl, arith, length,
  lookup, text_eq, inl, inr,
}
use mathlib.Core.Path.{subst}
use mathlib.Core.List.{Memᴰ}
use mathlib.Core.List.Memᴰ
use queue_fair.Redis.{Redis, All}
use queue_fair.Keys.{EventKeys}
use queue_fair.Router.{Router, IsSlug}
use queue_fair.Validation.{is_valid_event_id, is_valid_queue_token}
use queue_fair.State.{AdmittedOutcome, Float}
use queue_fair.Queue.{Line, Holds, index_of}
use queue_fair.Queue.Admit.{config_of}
use queue_fair.Queue.Runs.{IsLive}
use queue_fair.Queue.Runs.Progress.{IsRunning}
use queue_fair.Queue.Places.{index_of-lt}
use queue_fair.Repository.{delivered}
use queue_fair.Repository.Codec.{JsonCodec}
use queue_fair.Admission.Rounds.{Round}
use queue_fair.Tokens.{Jwt}
use queue_fair.Tokens.Issuer.{Hs256PassIssuer, issuer}
use queue_fair.Booking.Urls.{resolve}
use queue_fair.Booking.Endpoint
use queue_fair.Booking.Endpoint.{authenticate}
use queue_fair.Booking.Endpoint.Bearer.{header_of}
use queue_fair.Booking.Endpoint.Issued.{claims_issued}
use queue_fair.Api
use queue_fair.Api.{Request, Settings, cookie_name}
use queue_fair.Api.Asking.{admitted_response, position_admitted}
use queue_fair.System.{Action, ticks, run}
use queue_fair.System.Shifts.{Shift, all_actions}
use queue_fair.System.Kept.{parcel_of}
use queue_fair.System.Answered.{Drawn, Drawn-mem, names, answered, pass_taken}
use queue_fair.System.Waiter.{many_admitted}
use queue_fair.System.Kept.Until.{Fair, Popped, Waits-or-Popped}

module _ (F : Float) (settings : Settings) (R : Redis) (J : JsonCodec) (issuer : PassIssuer)
    (ttl : ℕ) (event_id : Text) where
  run-append :
      (a b : List Action) (db : R.Db)
      → run F settings R J issuer ttl event_id (a ++ b) db
        ≡ run F settings R J issuer ttl event_id b (run F settings R J issuer ttl event_id a db)
  unfolding run
  run-append [] b db = refl
  run-append (x ∷ a) b db = run-append a b _

module _ (F : Float) (settings : Settings) (R : Redis) (J : JsonCodec) (W : Jwt) (U : Router)
    (self : Hs256PassIssuer) (ttl : ℕ) (event_id : Text) where
  open R use {Db, view}

  abbrev keys : EventKeys
  keys = record { event_id = event_id }

  -- The tick that pops the token.
  popped :
      (db : Db) (q : Line) (h : Holds (view db) keys q) (live : IsLive (view db) keys)
      (r : IsRunning R keys db) (shifts : List (Shift (config_of R keys db (codes "rate_per_min"))))
      (t : Text) (i : ℕ)
      → 0 < ttl
      → index_of t q.waiting ≡ some i
      → i < length shifts
      → All Fair (all_actions shifts)
      → Popped F settings R J
          (issuer W self)
          ttl
          event_id
          t
          (q.admitted + i)
          (names F settings R J W U self ttl event_id)
          (all_actions shifts)
          db
  popped db q h live r shifts t i lives here enough fair =
      elim (Waits-or-Popped F settings R J (issuer W self) ttl event_id t (q.admitted + i)
        (names F settings R J W U self ttl event_id) (all_actions shifts) db lives fair
        (record { line = q; in_step = h; live = live; index = i; here = here; due = refl })) [
          | inl w ↦ absurd (
              omega (
                arith,
                many_admitted F settings R J W U self ttl event_id db q h live r shifts i
                    (index_of-lt t q.waiting i here) enough,
                w.in_step.counted,
                w.due,
              ))
          | inr p ↦ p
        ]

  -- Let a well-formed token wait at `i` on a configured event in step with `q`, whose id is
  -- accepted and a slug, with a rate and a batch size above 0, a burst above 1, and a time to live
  -- of passes in Redis above 0. Run more than `i` shifts, one after the other: in each, a tick that
  -- reaches Redis is followed by any requests, ticks and expiries, on any networks, those of the
  -- waiting client among them, with clocks that do not step back and no new configuration, until a
  -- tick that reaches Redis when the rate has granted more than one token since the first. Let the
  -- ticks that pop have both round trips delivered, and their uuids not be empty. Then, right after
  -- one of the ticks, a GET of the position with the token in its cookie is answered 200 with the
  -- pass that this tick issued, and with a URL that the booking service routes to its view with the
  -- same event. Sent there in the header, `k` seconds after that tick, with `k` below the time to
  -- live of a pass, the pass is accepted as that of the token for the event.
  pub reloading_waiter_served :
      (db : Db) (q : Line)
      → Holds (view db) (record { event_id = event_id }) q
      → IsLive (view db) (record { event_id = event_id })
      → IsRunning R (record { event_id = event_id }) db
      → is_valid_event_id event_id ≡ true
      → IsSlug event_id
      → 0 < ttl
      → (t : Text) (i : ℕ) → index_of t q.waiting ≡ some i
      → is_valid_queue_token t ≡ true
      → (shifts : List
          (Shift (config_of R (record { event_id = event_id }) db (codes "rate_per_min"))))
      → i < length shifts
      → All Fair (all_actions shifts)
      → All Drawn (all_actions shifts)
      → (request : Request) → text_eq request.method (codes "GET") ≡ true
      → lookup (cookie_name event_id) request.cookies ≡ some t
      → (k : ℕ) → k < self.ttl_seconds
      → (earlier later : List Action) × (round : Round) × (j : ℕ) × (o : AdmittedOutcome) × (earlier
            ++ (ticks round ∷ later)
          ≡ all_actions shifts)
        × ((Api.position F settings event_id R J delivered request
              (run F settings R J (issuer W self) ttl event_id (earlier ++ ticks round ∷ []) db)).0
            ≡ some (admitted_response o))
        × (resolve U o.admission.book_url ≡ some event_id)
        × (authenticate W self.secret (round.now_ms / 1000 + k) (header_of o.admission.pass)
            ≡ Endpoint.ok (claims_issued W self event_id t (round.uuid j) (round.now_ms / 1000)))
  unfolding run
  reloading_waiter_served db q h live r id slug lives t i here valid shifts enough fair drawn
        request get cookie k lasts =
      let p = popped db q h live r shifts t i lives here enough fair in
      let one : Memᴰ (ticks p.round) (all_actions shifts) =
        subst (Memᴰ (ticks p.round)) p.split (Memᴰ.append_right p.earlier (Memᴰ.head refl)) in
      let (o, is, answer) =
        answered F settings R J W U self ttl event_id t (λ x. x ≡ p.round) _ p.line p.in_step p.live
          p.gone p.collectable in
      let is' : o.admission
          ≡ parcel_of R J (issuer W self) ttl event_id t p.round p.collectable.draw =
        is
        ∙ ap (λ x. parcel_of R J (issuer W self) ttl event_id t x p.collectable.draw)
            p.collectable.source in
      let (routed, accepted) =
        pass_taken F settings R J W U self ttl event_id t p.round p.collectable.draw o is' slug
          valid (Drawn-mem (ticks p.round) (all_actions shifts) one drawn p.collectable.draw) k
          lasts in
      (
        p.earlier,
        p.later,
        p.round,
        p.collectable.draw,
        o,
        p.split,
        rw
            (run-append F settings R J (issuer W self) ttl event_id p.earlier (ticks p.round ∷ [])
              db)
            (position_admitted F settings event_id R J request t o _ get id cookie valid answer),
        routed,
        accepted,
      )
