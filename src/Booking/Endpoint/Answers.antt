-- ===== src/Booking/Endpoint/Answers.antt =====
-- What the booking endpoint answers.
use queue_fair.Prelude.{
  ℕ, Text, codes, false, Option, none, some, List, ◌≡◌, ◌≢◌, refl, arith, ap, sym, ◌∙◌, text_eq,
  text_eq_iff, inl, inr, Bool-cases,
}
use queue_fair.Tokens.{Jwt}
use queue_fair.Tokens.Verify.{AdmissionClaims}
use queue_fair.Booking.{Event, Booking, Tables, Database, find, same_jti}
use queue_fair.Booking.Ticket.{BookingResult, Outcome}
use queue_fair.Booking.Sound.{IsSound}
use queue_fair.Booking.Request
use queue_fair.Booking.Request.{Answered, held_in, book_ticket-Answered}
use queue_fair.Booking.Endpoint.{
  Authenticated, AuthenticationFailed, ok, failed, Response, detail, fields, failure, serialize,
  response_to, authenticate, post, answered, booking_view,
}

-- A response, by the authentication `a`, the event of the path and the tables left.
pub data Told (a : Authenticated AdmissionClaims) (event_id : Text) (v : Tables)
    : Option Response → Type 0 where
  unauthorized :
      (f : AuthenticationFailed)
      → a ≡ failed f
      → Told a event_id v (some (record { status = 401; body = failure f }))
  forbidden :
      (c : AdmissionClaims)
      → a ≡ ok c
      → text_eq c.event_id event_id ≡ false
      → Told a event_id v (
          some (record {
            status = 403;
            body = detail (codes "admission token is for a different event");
          }))
  created :
      (c : AdmissionClaims) (b : Booking)
      → a ≡ ok c
      → c.event_id ≡ event_id
      → find (same_jti c.jti) v.bookings ≡ some b
      → b.event_id ≡ event_id
      → b.user_id ≡ c.user_id
      → Told a event_id v (some (record { status = 201; body = fields (serialize b) }))
  held :
      (c : AdmissionClaims) (b : Booking)
      → a ≡ ok c
      → c.event_id ≡ event_id
      → held_in c v.bookings ≡ some b
      → Told a event_id v (some (record { status = 200; body = fields (serialize b) }))
  not_found :
      (c : AdmissionClaims)
      → a ≡ ok c
      → c.event_id ≡ event_id
      → v.events event_id ≡ none
      → Told a event_id v (some (record { status = 404; body = detail (codes "no such event") }))
  full :
      (c : AdmissionClaims) (e : Event)
      → a ≡ ok c
      → c.event_id ≡ event_id
      → v.events event_id ≡ some e
      → e.tickets_booked ≡ e.capacity
      → Told a event_id v
          (some (record { status = 409; body = detail (codes "event is sold out") }))

-- A response that is not a refusal of the client.
pub record IsLetIn (r : Option Response) : Type 0 where
  pub response : Response
  pub answered : r ≡ some response
  pub authenticated : response.status ≢ 401
  pub this_event : response.status ≢ 403

let_in :
    (response : Response)
    → (n : ℕ) → response.status ≡ n
    → n ≢ 401
    → n ≢ 403
    → IsLetIn (some response)
let_in response n e a b = record {
  response = response;
  answered = refl;
  authenticated = λ p. a (sym e ∙ p);
  this_event = λ p. b (sym e ∙ p);
}

-- The answer to claims of the event of the path.
pub Told-IsLetIn :
    (c : AdmissionClaims) (event_id : Text) (v : Tables) {r : Option Response}
    → Told (ok c) event_id v r
    → c.event_id ≡ event_id
    → IsLetIn r
Told-IsLetIn c event_id v (unauthorized f a) this = absurd (cc)
Told-IsLetIn c event_id v (forbidden d a other) this =
    let same : c ≡ d = ground arith in
    let here : d.event_id ≡ event_id = ap (λ (x : AdmissionClaims). x.event_id) (sym same) ∙ this in
    absurd (ground (arith, other, (text_eq_iff d.event_id event_id).1 here))
Told-IsLetIn c event_id v (created d b a e h he hu) this =
    let_in _ 201 refl (λ p. omega arith) (λ p. omega arith)
Told-IsLetIn c event_id v (held d b a e h) this =
    let_in _ 200 refl (λ p. omega arith) (λ p. omega arith)
Told-IsLetIn c event_id v (not_found d a e h) this =
    let_in _ 404 refl (λ p. omega arith) (λ p. omega arith)
Told-IsLetIn c event_id v (full d e a h k m) this =
    let_in _ 409 refl (λ p. omega arith) (λ p. omega arith)

answer-Told :
    (a : Authenticated AdmissionClaims) (c : AdmissionClaims) (event_id : Text) (v : Tables)
    {r : Outcome BookingResult}
    → a ≡ ok c
    → c.event_id ≡ event_id
    → Answered c v r
    → Told a event_id v (response_to r)
unfolding response_to
answer-Told a c event_id v auth this (Request.created b h he hu) =
    created c b auth this h (he ∙ this) hu
answer-Told a c event_id v auth this (Request.held b h) = held c b auth this h
answer-Told a c event_id v auth this (Request.no_event h) =
    not_found c auth this (ap v.events (sym this) ∙ h)
answer-Told a c event_id v auth this (Request.no_room e h k) =
    full c e auth this (ap v.events (sym this) ∙ h) k

module _ (D : Database) (J : Jwt) (secret : Text) (now : ℕ) (event_id : Text)
    (before after : List AdmissionClaims) where
  open D use {Db, view}

  module _ (db : Db) (s : IsSound (view db)) where
    answered-Told :
        (a : Authenticated AdmissionClaims)
        → IsSound (view (answered D J secret now event_id before after a db).1)
          × Told a event_id
              (view (answered D J secret now event_id before after a db).1)
              (answered D J secret now event_id before after a db).0
    unfolding answered post
    answered-Told (failed f) = (s, unauthorized f refl)
    answered-Told (ok c) = elim (Bool-cases (text_eq c.event_id event_id)) [
      | inl this ↦
          let (sound, answer) = book_ticket-Answered D c before after db s in
          rw this (
            sound,
            answer-Told (ok c) c event_id _ refl ((text_eq_iff c.event_id event_id).0 this) answer,
          )
      | inr other ↦ rw other (s, forbidden c refl other)
    ]

  -- On sound tables and whatever transactions other requests run meanwhile, the endpoint answers
  -- and leaves sound tables: 401 when the header does not authenticate; 403 when the claims are of
  -- another event; and for the claims of this event 201 with a new booking of theirs, 200 with the
  -- one held, 404 when there is no such event, and 409 when all its tickets are booked.
  pub booking_view-Told :
      (header : Text) (db : Db)
      → IsSound (view db)
      → IsSound (view (booking_view D J secret now event_id before after header db).1)
        × Told
            (authenticate J secret now header)
            event_id
            (view (booking_view D J secret now event_id before after header db).1)
            (booking_view D J secret now event_id before after header db).0
  unfolding booking_view
  booking_view-Told header db s = answered-Told db s (authenticate J secret now header)
