-- ===== src/System/Answered.antt =====
-- A token whose pass is stored asks for its position, and takes the pass to the booking service.
use queue_fair.Prelude.{
  none, ℕ, ◌+◌, ◌<◌, ◌/◌, Text, true, false, some, List, [], ◌∷◌, ◌≡◌, refl, sym, arith, length,
  is_empty,
}
use mathlib.Core.Path.{subst}
use mathlib.Core.List.{Memᴰ}
use queue_fair.Redis.{Redis, All}
use queue_fair.Keys.{EventKeys}
use queue_fair.Result.{ok}
use queue_fair.Router.{Router, IsSlug}
use queue_fair.Validation.{is_valid_queue_token}
use queue_fair.Validation.QueueToken.{valid_not_empty}
use queue_fair.State.{AdmittedOutcome, Float}
use queue_fair.Queue.{Line, Holds, index_of}
use queue_fair.Queue.Position.{position-told, told}
use queue_fair.Queue.Runs.{IsLive}
use queue_fair.Queue.Runs.Step.{present_of_live}
use queue_fair.Repository
use queue_fair.Repository.{delivered, admitted}
use queue_fair.Repository.Codec.{JsonCodec}
use queue_fair.Admission.Rounds.{Round}
use queue_fair.Tokens.{Jwt}
use queue_fair.Tokens.Issuer.{Hs256PassIssuer, issuer, issue}
use queue_fair.Booking.Urls.{resolve, resolve-book_url}
use queue_fair.Booking.Endpoint
use queue_fair.Booking.Endpoint.{authenticate}
use queue_fair.Booking.Endpoint.Bearer.{header_of}
use queue_fair.Booking.Endpoint.Issued.{claims_issued, authenticate-issue}
use queue_fair.Api.{Settings}
use queue_fair.System.{Action, joins, asks, ticks, configures, expires, run}
use queue_fair.System.Kept.{Collectable, parcel_of}

-- The draws of a tick are not empty.
abbrev pub Drawn : Action → Type 0
Drawn (joins net request bytes) = Unit
Drawn (asks net request) = Unit
Drawn (ticks r) = (j : ℕ) → is_empty (r.uuid j) ≡ false
Drawn (configures trips rate burst batch_max) = Unit
Drawn (expires u) = Unit

pub Drawn-mem : (a : Action) (actions : List Action) → Memᴰ a actions → All Drawn actions → Drawn a
Drawn-mem a [] m d = elim m [ ]
Drawn-mem a (b ∷ more) (Memᴰ.head e) d = subst Drawn (sym e) d.0
Drawn-mem a (b ∷ more) (Memᴰ.tail m) d = Drawn-mem a more m d.1

module _ (F : Float) (settings : Settings) (R : Redis) (J : JsonCodec) (W : Jwt) (U : Router)
    (self : Hs256PassIssuer) (ttl : ℕ) (event_id : Text) where
  open R use {Db, view}

  abbrev keys : EventKeys
  keys = record { event_id = event_id }

  abbrev ran : List Action → Db → Db
  ran = run F settings R J (issuer W self) ttl event_id

  pub names : (u jti : Text) (now : ℕ) → ((issuer W self).issue event_id u now jti).queue_token ≡ u
  unfolding issue
  names u jti now = refl

  -- A token that no longer waits and whose pass is stored is told so.
  pub answered :
      (t : Text) (Source : Round → Type 0) (d : Db) (line : Line)
      → Holds (view d) keys line
      → IsLive (view d) keys
      → index_of t line.waiting ≡ none
      → (c : Collectable R J (issuer W self) ttl event_id t Source (view d))
      → (o : AdmittedOutcome) × (o.admission
          ≡ parcel_of R J (issuer W self) ttl event_id t c.round c.draw)
        × ((Repository.position R J delivered event_id t d).0 ≡ ok (admitted o))
  unfolding Repository.position told
  answered t Source d line h live gone c = (
    record {
      admission = parcel_of R J (issuer W self) ttl event_id t c.round c.draw;
      total_waiting = length line.waiting;
      admitted_total = line.admitted;
    },
    refl,
    rw
        (
          position-told R keys d t line h (present_of_live (view d) keys live),
          gone,
          c.stored,
          J.loads-dumps (parcel_of R J (issuer W self) ttl event_id t c.round c.draw),
        )
        refl,
  )

  -- What the booking service makes of an outcome with a pass of a round.
  pub pass_taken :
      (t : Text) (round : Round) (j : ℕ) (o : AdmittedOutcome)
      → o.admission ≡ parcel_of R J (issuer W self) ttl event_id t round j
      → IsSlug event_id
      → is_valid_queue_token t ≡ true
      → is_empty (round.uuid j) ≡ false
      → (k : ℕ) → k < self.ttl_seconds
      → (resolve U o.admission.book_url ≡ some event_id)
        × (authenticate W self.secret (round.now_ms / 1000 + k) (header_of o.admission.pass)
            ≡ Endpoint.ok (claims_issued W self event_id t (round.uuid j) (round.now_ms / 1000)))
  unfolding issue
  pass_taken t round j o is slug valid drawn k lasts = (
    rw is (resolve-book_url U event_id slug),
    rw is (
        authenticate-issue W self event_id t (round.uuid j) (round.now_ms / 1000)
          (round.now_ms / 1000 + k) slug.nonempty (valid_not_empty t valid) drawn (omega arith)
          (omega (arith, lasts))),
  )
