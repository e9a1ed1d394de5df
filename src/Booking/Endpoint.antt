-- ===== src/Booking/Endpoint.antt =====
-- bookings/authentication.py and bookings/views.py. The request is its Authorization header and the
-- event id of the path. A failed authentication is answered with 401 by Django REST framework, since
-- the class has `authenticate_header`.
pub mod Answers
pub mod Bearer
pub mod Issued
use queue_fair.Prelude.{
  ℕ, ◌+◌, Text, codes, Bool, true, false, ◌&&◌, ◌||◌, not, Option, none, some, List, [], ◌∷◌, map,
  leb, ltb, ◌==◌, length, text_eq, if◌then◌else◌,
}
use queue_fair.Tokens.{Jwt}
use queue_fair.Tokens.Verify
use queue_fair.Tokens.Verify.{
  AdmissionClaims, Verified, AdmissionTokenError, invalid_admission_token, expired_admission_token,
  verify_admission_token,
}
use queue_fair.State.{Json, text, number}
use queue_fair.Booking.{Booking, Database}
use queue_fair.Booking.Ticket.{
  BookingResult, Outcome, returned, raised, event_not_found, sold_out, integrity_error, book_ticket,
}

-- The messages of AuthenticationFailed.
pub data AuthenticationFailed : Type 0 where
  missing_header malformed_header malformed_encoding token_expired token_invalid :
      AuthenticationFailed

pub data Authenticated {ℓ} (A : Type ℓ) : Type ℓ where
  ok : A → Authenticated A
  failed : AuthenticationFailed → Authenticated A

-- bytes.split(), at ASCII white space
abbrev pub is_space : ℕ → Bool
is_space c = (leb 9 c && leb c 13) || c == 32

abbrev pub push : Text → List Text → List Text
push [] ws = ws
push (c ∷ w) ws = (c ∷ w) ∷ ws

-- The word that begins the text, perhaps empty, and the words after it.
abbrev pub parts : Text → Text × List Text
parts [] = ([], [])
parts (c ∷ t) = let (w, ws) = parts t in if is_space c then ([], push w ws) else (c ∷ w, ws)

abbrev pub split : Text → List Text
split t = let (w, ws) = parts t in push w ws

-- bytes.lower()
abbrev pub lower : Text → Text
lower t = map (λ c. if leb b'A' c && leb c b'Z' then c + 32 else c) t

abbrev pub is_ascii : Text → Bool
is_ascii [] = true
is_ascii (c ∷ t) = ltb c 128 && is_ascii t

-- BaseAuthentication's keyword
abbrev pub keyword : Text
keyword = codes "Bearer"

-- The words of the header.
unfoldable pub token_of : List Text → Authenticated Text
token_of [] = failed missing_header
token_of (w ∷ ws) =
    if not (text_eq (lower w) (lower keyword)) then failed missing_header else elim ws [
      | [] ↦ failed malformed_header
      | token ∷ [] ↦ if is_ascii token then ok token else failed malformed_encoding
      | token ∷ more ∷ rest ↦ failed malformed_header
    ]

unfoldable pub bearer_token : Text → Authenticated Text
unfolding token_of
bearer_token header = token_of (split header)

unfoldable pub as_failure : Verified AdmissionClaims → Authenticated AdmissionClaims
as_failure (Verify.ok claims) = ok claims
as_failure (Verify.raise expired_admission_token) = failed token_expired
as_failure (Verify.raise invalid_admission_token) = failed token_invalid

unfoldable pub verified : Jwt → Text → ℕ → Authenticated Text → Authenticated AdmissionClaims
unfolding as_failure
verified J secret now (ok token) = as_failure (verify_admission_token J token secret now)
verified J secret now (failed f) = failed f

unfoldable pub authenticate : Jwt → Text → ℕ → Text → Authenticated AdmissionClaims
unfolding bearer_token verified
authenticate J secret now header = verified J secret now (bearer_token header)

pub data Body : Type 0 where
  detail : Text → Body
  fields : List (Text × Json) → Body
  failure : AuthenticationFailed → Body

pub record Response : Type 0 where
  pub status : ℕ
  pub body : Body

-- _serialize
unfoldable pub serialize : Booking → List (Text × Json)
serialize booking =
    (codes "booking_id", number booking.id)
    ∷ (codes "event_id", text booking.event_id)
    ∷ (codes "user_id", text booking.user_id)
    ∷ (codes "jti", text booking.token_jti)
    ∷ (codes "created_at", text booking.created_at)
    ∷ (codes "status", text (codes "confirmed"))
    ∷ []

-- `none` is an exception that the view does not catch.
unfoldable pub response_to : Outcome BookingResult → Option Response
unfolding serialize
response_to (returned result) = some (record {
  status = if result.created then 201 else 200;
  body = fields (serialize result.booking);
})
response_to (raised event_not_found) =
    some (record { status = 404; body = detail (codes "no such event") })
response_to (raised sold_out) =
    some (record { status = 409; body = detail (codes "event is sold out") })
response_to (raised integrity_error) = none

module _ (D : Database) (J : Jwt) (secret : Text) (now : ℕ) (event_id : Text)
    (before after : List AdmissionClaims) where
  open D use {Db}

  unfoldable pub post : AdmissionClaims → Db → Option Response × Db
  unfolding response_to
  post claims db =
      let (outcome, db') = book_ticket D claims before after db in
      if not (text_eq claims.event_id event_id)
      then (
        some (record {
          status = 403;
          body = detail (codes "admission token is for a different event");
        }),
        db,
      )
      else (response_to outcome, db')

  unfoldable pub answered : Authenticated AdmissionClaims → Db → Option Response × Db
  unfolding post
  answered (ok claims) db = post claims db
  answered (failed f) db = (some (record { status = 401; body = failure f }), db)

  -- POST /events/<event_id>/book
  unfoldable pub booking_view : Text → Db → Option Response × Db
  unfolding answered authenticate
  booking_view header db = answered (authenticate J secret now header) db
