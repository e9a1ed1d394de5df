-- ===== src/Booking/Ticket.antt =====
-- bookings/booking.py. The claim and the insert are one transaction, which the lock on the event's
-- row makes one step of the database: it commits, or leaves nothing. Between the steps of one request
-- other requests run theirs; of those only the transactions change the database.
use queue_fair.Prelude.{
  or_else, ℕ, ◌+◌, Bool, true, false, not, Option, none, some, List, [], ◌∷◌, ltb, ◌==◌,
  if◌then◌else◌,
}
use queue_fair.Booking.{Event, Booking, Database, same_jti, same_holder}
use queue_fair.Tokens.Verify.{AdmissionClaims}

pub record BookingResult : Type 0 where
  pub booking : Booking
  pub created : Bool

pub data Raised : Type 0 where
  event_not_found sold_out integrity_error : Raised

pub data Outcome {ℓ} (A : Type ℓ) : Type ℓ where
  returned : A → Outcome A
  raised : Raised → Outcome A

-- tickets_booked < capacity
abbrev pub has_room : Event → Bool
has_room e = ltb e.tickets_booked e.capacity

-- tickets_booked = tickets_booked + 1
abbrev pub claimed : Event → Event
claimed e = record e { tickets_booked = e.tickets_booked + 1 }

module _ (D : Database) where
  open D use {Db, event_exists, update_event, first_booking, create_booking}

  unfoldable pub find_existing : AdmissionClaims → Db → Option Booking
  find_existing claims db =
      or_else (first_booking db (same_jti claims.jti))
        (first_booking db (same_holder claims.event_id claims.user_id))

  -- The insert, in the transaction that began at `start`; a failure rolls back to there.
  unfoldable pub inserted : Db → Option (Booking × Db) → Outcome Booking × Db
  inserted start none = (raised integrity_error, start)
  inserted start (some (b, db)) = (returned b, db)

  -- After the update: the number of rows and the database.
  unfoldable pub updated : AdmissionClaims → Db → Option (ℕ × Db) → Outcome Booking × Db
  unfolding inserted
  updated claims start none = (raised integrity_error, start)
  updated claims start (some (rows, db)) =
      let insert = inserted start (create_booking db claims.event_id claims.user_id claims.jti) in
      if rows == 0
      then if not (event_exists db claims.event_id)
        then (raised event_not_found, start)
        else (raised sold_out, start)
      else insert

  unfoldable pub transaction : AdmissionClaims → Db → Outcome Booking × Db
  unfolding updated
  transaction claims db = updated claims db (update_event db claims.event_id has_room claimed)

  -- The transactions of other requests.
  unfoldable pub run : List AdmissionClaims → Db → Db
  unfolding transaction
  run [] db = db
  run (c ∷ cs) db = run cs (transaction c db).1

  -- The second look, after an IntegrityError.
  unfoldable pub reread : Option Booking → Db → Outcome BookingResult × Db
  reread (some b) db = (returned (record { booking = b; created = false }), db)
  reread none db = (raised integrity_error, db)

  unfoldable pub concluded :
      AdmissionClaims → List AdmissionClaims → Outcome Booking × Db → Outcome BookingResult × Db
  unfolding reread find_existing run
  concluded claims after (returned b, db) = (returned (record { booking = b; created = true }), db)
  concluded claims after (raised integrity_error, db) =
      reread (find_existing claims (run after db)) (run after db)
  concluded claims after (raised event_not_found, db) = (raised event_not_found, db)
  concluded claims after (raised sold_out, db) = (raised sold_out, db)

  unfoldable pub attempt :
      AdmissionClaims
      → (before after : List AdmissionClaims) → Option Booking
      → Db
      → Outcome BookingResult × Db
  unfolding concluded transaction run
  attempt claims before after (some b) db = (returned (record { booking = b; created = false }), db)
  attempt claims before after none db = concluded claims after (transaction claims (run before db))

  -- Other requests run `before` between the first look and the transaction, and `after` between an
  -- IntegrityError and the second look.
  unfoldable pub book_ticket :
      AdmissionClaims → (before after : List AdmissionClaims) → Db → Outcome BookingResult × Db
  unfolding attempt find_existing
  book_ticket claims before after db = attempt claims before after (find_existing claims db) db
