-- ===== src/Booking.antt =====
-- The booking service: bookings/models.py, here, and bookings/booking.py (Ticket). The database
-- with Django's ORM in front of it is a parameter: `Tables` is what it stores, `Database` the
-- queries of the program with the documented result and effect of each. Overlong texts, which a
-- column refuses, and created_at of an event are not modelled.
pub mod Ticket
pub mod Sound
pub mod Runs
pub mod Request
pub mod Memory
pub mod Endpoint
pub mod Urls
pub mod Columns
pub mod Schema
use queue_fair.Prelude.{
  ℕ, ◌≤◌, Text, Bool, true, false, ◌&&◌, ◌||◌, not, Option, none, some, List, [], ◌∷◌, ◌++◌, ◌≡◌,
  is_some, text_eq, update, if◌then◌else◌,
}

pub record Event : Type 0 where
  pub name : Text
  pub capacity : ℕ
  pub tickets_booked : ℕ

-- `created_at` as isoformat writes it.
pub record Booking : Type 0 where
  pub id : ℕ
  pub event_id : Text
  pub user_id : Text
  pub token_jti : Text
  pub created_at : Text

-- The events by their primary key, the bookings in the order of theirs.
pub record Tables : Type 0 where
  pub events : Text → Option Event
  pub bookings : List Booking

abbrev pub find {ℓ} : {A : Type ℓ} → (A → Bool) → List A → Option A
find p [] = none
find p (x ∷ xs) = if p x then some x else find p xs

-- token_jti is unique, and so is (event, user_id): would a row with these values violate that?
abbrev pub same_jti : Text → Booking → Bool
same_jti jti b = text_eq b.token_jti jti

abbrev pub same_holder : (event_id user_id : Text) → Booking → Bool
same_holder event_id user_id b = text_eq b.event_id event_id && text_eq b.user_id user_id

abbrev pub violates : (event_id user_id jti : Text) → Booking → Bool
violates event_id user_id jti b = same_jti jti b || same_holder event_id user_id b

-- The row may be inserted: the foreign key is there, and both unique constraints hold.
abbrev pub insertable : Tables → (event_id user_id jti : Text) → Bool
insertable v event_id user_id jti =
    is_some (v.events event_id) && not (is_some (find (violates event_id user_id jti) v.bookings))

-- The filter on a row that may be missing.
abbrev pub selects : (Event → Bool) → Option Event → Bool
selects p none = false
selects p (some e) = p e

abbrev pub set_event : Tables → Text → Event → Tables
set_event v k e = record v { events = update v.events k (some e) }

abbrev pub add_booking : Tables → Booking → Tables
add_booking v b = record v { bookings = v.bookings ++ b ∷ [] }

-- `none` is an IntegrityError.
pub record Database : Type 1 where
  pub Db : Type 0
  pub view : Db → Tables
  -- Event.objects.filter(pk=k).exists()
  pub event_exists : Db → Text → Bool
  -- Event.objects.filter(pk=k, ...).update(...): the number of rows
  pub update_event : Db → Text → (Event → Bool) → (Event → Event) → Option (ℕ × Db)
  -- Booking.objects.filter(...).first()
  pub first_booking : Db → (Booking → Bool) → Option Booking
  -- Booking.objects.create(event_id, user_id, token_jti)
  pub create_booking : Db → (event_id user_id token_jti : Text) → Option (Booking × Db)
  pub event_exists_lem : (db : Db) (k : Text) → event_exists db k ≡ is_some ((view db).events k)
  pub update_event_none :
      (db : Db) (k : Text) (p : Event → Bool) (f : Event → Event)
      → selects p ((view db).events k) ≡ false
      → update_event db k p f ≡ some (0, db)
  -- the check constraint event_not_oversold allows the new row
  pub update_event_one :
      (db : Db) (k : Text) (p : Event → Bool) (f : Event → Event) (e : Event)
      → (view db).events k ≡ some e
      → p e ≡ true
      → (f e).tickets_booked ≤ (f e).capacity
      → (d : Db) × (update_event db k p f ≡ some (1, d)) × (view d ≡ set_event (view db) k (f e))
  pub first_booking_lem :
      (db : Db) (p : Booking → Bool) → first_booking db p ≡ find p (view db).bookings
  pub create_booking_fails :
      (db : Db) (e u j : Text) → insertable (view db) e u j ≡ false → create_booking db e u j ≡ none
  pub create_booking_adds :
      (db : Db) (e u j : Text)
      → insertable (view db) e u j ≡ true
      → (id : ℕ) × (time : Text) × (d : Db) × (create_booking db e u j
          ≡ some
              (record { id = id; event_id = e; user_id = u; token_jti = j; created_at = time }, d))
        × (view d
            ≡ add_booking
                (view db)
                (record { id = id; event_id = e; user_id = u; token_jti = j; created_at = time }))
