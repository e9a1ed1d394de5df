-- ===== src/Journey.antt =====
-- From the line to the booking: a tick of the controller, the position endpoint, the booking
-- service's URLs, authentication and view, on one Redis and one database.
use queue_fair.Prelude.{
  arith, ℕ, ◌+◌, ◌/◌, ◌≤◌, ◌<◌, Text, codes, true, false, some, List, ◌≡◌, refl, take, is_empty,
  lookup, text_eq,
}
use mathlib.Core.Path.{subst}
use queue_fair.Redis.{Redis}
use queue_fair.Router.{Router, IsSlug}
use queue_fair.Validation.{is_valid_event_id, is_valid_queue_token}
use queue_fair.Validation.QueueToken.{valid_not_empty}
use queue_fair.State.{AdmittedOutcome, Float}
use queue_fair.Queue.{Line, Holds, index_of}
use queue_fair.Queue.Admit.{due, config_of}
use queue_fair.Queue.Runs.{IsLive}
use queue_fair.Repository.{delivered}
use queue_fair.Api.{Request, Settings, cookie_name, position}
use queue_fair.Api.Asking.{admitted_response, position_admitted}
use queue_fair.Repository.Codec.{JsonCodec}
use queue_fair.Tokens.{Jwt}
use queue_fair.Tokens.Issuer.{Hs256PassIssuer, issuer, issue}
use queue_fair.Tokens.Verify.{AdmissionClaims}
use queue_fair.Admission.Collect.{tick, tick_collected}
use queue_fair.Booking.{Database}
use queue_fair.Booking.Sound.{IsSound}
use queue_fair.Booking.Urls.{resolve, resolve-book_url}
use queue_fair.Booking.Endpoint
use queue_fair.Booking.Endpoint.{authenticate, booking_view, as_failure}
use queue_fair.Booking.Endpoint.Bearer.{header_of}
use queue_fair.Booking.Endpoint.Issued.{claims_issued, authenticate-issue}
use queue_fair.Booking.Endpoint.Answers.{Told, IsLetIn, Told-IsLetIn, booking_view-Told}

module _ (F : Float) (settings : Settings) (R : Redis) (J : JsonCodec) (W : Jwt) (U : Router)
    (D : Database) (self : Hs256PassIssuer) (event_id : Text) (now_ms : ℕ) (uuid : ℕ → Text) where
  -- The claims of the `j`-th pass of the tick.
  abbrev claims_of : Text → ℕ → AdmissionClaims
  claims_of t j = claims_issued W self event_id t (uuid j) (now_ms / 1000)

  names : (t jti : Text) → ((issuer W self).issue event_id t (now_ms / 1000) jti).queue_token ≡ t
  unfolding issue
  names t jti = refl

  -- Let the controller tick, both round trips delivered, on a configured, running event in step with
  -- `q`, whose id is accepted and a slug. Let a well-formed token be among the first `due` of the line,
  -- at `j`, and the `j`-th uuid not be empty. Then a GET of the position with the token in its cookie is
  -- answered 200 with a pass, and with a URL that the booking service routes to its view with the same
  -- event. If the pass is sent there in the header while it lasts, to sound tables and whatever
  -- transactions other requests run meanwhile, the answer is that for claims of the token, the event and
  -- that uuid, and neither 401 nor 403; the tables stay sound.
  pub waiting_to_booking :
      (db : R.Db) (q : Line)
      → Holds (R.view db) (record { event_id = event_id }) q
      → IsLive (R.view db) (record { event_id = event_id })
      → 0 < config_of R (record { event_id = event_id }) db (codes "rate_per_min")
      → is_valid_event_id event_id ≡ true
      → IsSlug event_id
      → (sent : ℕ) (t : Text) (j : ℕ)
      → index_of t (take (due R (record { event_id = event_id }) db q now_ms) q.waiting) ≡ some j
      → is_valid_queue_token t ≡ true
      → is_empty (uuid j) ≡ false
      → (r : Request) → text_eq r.method (codes "GET") ≡ true
      → lookup (cookie_name event_id) r.cookies ≡ some t
      → (now : ℕ) → now_ms / 1000 ≤ now
      → now < now_ms / 1000 + self.ttl_seconds
      → (before after : List AdmissionClaims) (tables : D.Db) → IsSound (D.view tables)
      → (o : AdmittedOutcome) × ((position F settings event_id R J delivered r
            (tick R J (issuer W self) event_id self.ttl_seconds now_ms uuid delivered sent db).1).0
          ≡ some (admitted_response o))
        × (resolve U o.admission.book_url ≡ some event_id)
        × IsSound (
            D.view
              (booking_view D W self.secret now event_id before after
                (header_of o.admission.pass)
                tables).1)
        × Told
            (Endpoint.ok (claims_of t j))
            event_id
            (D.view
              (booking_view D W self.secret now event_id before after
                (header_of o.admission.pass)
                tables).1)
            (booking_view D W self.secret now event_id before after
              (header_of o.admission.pass)
              tables).0
        × IsLetIn
            (booking_view D W self.secret now event_id before after
              (header_of o.admission.pass)
              tables).0
  waiting_to_booking db q h live runs id slug sent t j here valid drawn r get cookie now from until
        before after tables sound =
      let (s, told) =
        booking_view-Told D W self.secret now event_id before after
          (header_of (issue W self event_id t (now_ms / 1000) (uuid j)).jwt) tables sound in
      let answer =
        subst
          (λ a.
            Told a event_id
              (D.view
                (booking_view D W self.secret now event_id before after
                  (header_of (issue W self event_id t (now_ms / 1000) (uuid j)).jwt) tables).1)
              (booking_view D W self.secret now event_id before after
                (header_of (issue W self event_id t (now_ms / 1000) (uuid j)).jwt) tables).0)
          (authenticate-issue W self event_id t (uuid j) (now_ms / 1000) now slug.nonempty
            (valid_not_empty t valid) drawn from until)
          told in
      (
        _,
        position_admitted F settings event_id R J r t _ _ get id cookie valid (
            tick_collected R J (issuer W self) event_id self.ttl_seconds now_ms uuid db q h live
              runs names (omega (arith, from, until)) sent t j here),
        resolve-book_url U event_id slug,
        s,
        answer,
        Told-IsLetIn (claims_of t j) event_id _ answer refl,
      )
