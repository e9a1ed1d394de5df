-- ===== src/Booking/Schema/Rows.antt =====
-- The rows of the tables, and the statements of Booking.antt on them.
use queue_fair.Prelude.{
  ℕ, Text, codes, Bool, true, false, ◌&&◌, ◌||◌, not, some, List, [], ◌∷◌, ◌≡◌, refl, ◌∙◌, ◌==◌,
  arith, leb, length, map, text_eq, is_some, if◌then◌else◌, Bool-cases, inl, inr,
}
use queue_fair.Booking.{Event, Booking, Tables, find, same_jti, same_holder, violates, insertable}
use queue_fair.Booking.Columns.{event_id_column, user_id_column, token_jti_column}
use queue_fair.Booking.Schema.{
  Value, text, number, time, integer_max, bigint_max, Row, Field, char, date_time, big_auto,
  foreign_key, Model, column_lets_in, lets_in, is_new, same_cells, same_cell, booking_model,
  event_model, create_event_model, create_booking_model, operations, created, holds, all_columns,
  all_constraints, column_fits,
}

abbrev pub row_of : Booking → Row
row_of b =
    (codes "id", number b.id)
    ∷ (codes "event", text b.event_id)
    ∷ (codes "user_id", text b.user_id)
    ∷ (codes "token_jti", text b.token_jti)
    ∷ (codes "created_at", time b.created_at)
    ∷ []

-- Whether a table has a key.
abbrev pub keys_of : Tables → Text → Value → Bool
keys_of v model (text t) = if text_eq model (codes "Event") then is_some (v.events t) else false
keys_of v model (number n) = false
keys_of v model (time t) = false

abbrev pub same_id : ℕ → Booking → Bool
same_id id b = b.id == id

new_jti :
    (bs : List Booking) (b : Booking)
    → is_new (codes "token_jti" ∷ []) (map row_of bs) (row_of b)
      ≡ not (is_some (find (same_jti b.token_jti) bs))
unfolding is_new same_cells same_cell
new_jti [] b = refl
new_jti (c ∷ bs) b = elim (Bool-cases (text_eq c.token_jti b.token_jti)) [
  | inl e ↦ rw e refl
  | inr e ↦ rw e (new_jti bs b)
]

new_holder :
    (bs : List Booking) (b : Booking)
    → is_new (codes "event" ∷ codes "user_id" ∷ []) (map row_of bs) (row_of b)
      ≡ not (is_some (find (same_holder b.event_id b.user_id) bs))
unfolding is_new same_cells same_cell
new_holder [] b = refl
new_holder (c ∷ bs) b = elim (Bool-cases (text_eq c.event_id b.event_id)) [
  | inr e ↦ rw e (new_holder bs b)
  | inl e ↦ elim (Bool-cases (text_eq c.user_id b.user_id)) [
    | inl f ↦ rw (e, f) refl
    | inr f ↦ rw (e, f) (new_holder bs b)
  ]
]

new_id :
    (bs : List Booking) (b : Booking)
    → is_new (codes "id" ∷ []) (map row_of bs) (row_of b) ≡ not (is_some (find (same_id b.id) bs))
unfolding is_new same_cells same_cell
new_id [] b = refl
new_id (c ∷ bs) b = elim (Bool-cases (c.id == b.id)) [
  | inl e ↦ rw e refl
  | inr e ↦ rw e (new_id bs b)
]

-- A row violates one of the two constraints, or the other.
find_either :
    (e u j : Text) (bs : List Booking)
    → is_some (find (violates e u j) bs)
      ≡ (is_some (find (same_jti j) bs) || is_some (find (same_holder e u) bs))
find_either e u j [] = refl
find_either e u j (b ∷ bs) = ground (arith, find_either e u j bs)

conjuncts :
    (range known user jti taken held : Bool)
    → ((range && true)
        && ((known && true) && ((user && true) && ((jti && not taken) && ((true && true) && true))))
        && (not held && true))
      ≡ (range && ((known && not (taken || held)) && (user && jti)))
conjuncts range known user jti taken held = ground arith

rotated :
    (i e u j c k : Bool)
    → ((i && (u && (j && (c && (e && true))))) && k)
      ≡ ((i && (e && (u && (j && (c && true))))) && k)
rotated i e u j c k = ground arith

-- The texts of a booking fit their columns.
abbrev pub texts_fit : Booking → Bool
texts_fit b = leb (length b.user_id) user_id_column && leb (length b.token_jti) token_jti_column

booking_rows :
    (v : Tables) (b : Booking)
    → is_some (find (same_id b.id) v.bookings) ≡ false
    → lets_in (keys_of v) booking_model (map row_of v.bookings) (row_of b)
      ≡ (leb b.id bigint_max && (insertable v b.event_id b.user_id b.token_jti && texts_fit b))
unfolding lets_in all_columns all_constraints column_fits holds
booking_rows v b fresh =
    rw
      (
        new_id v.bookings b,
        fresh,
        new_jti v.bookings b,
        new_holder v.bookings b,
        find_either b.event_id b.user_id b.token_jti v.bookings,
      )
      (conjuncts (leb b.id bigint_max) (is_some (v.events b.event_id))
        (leb (length b.user_id) user_id_column) (leb (length b.token_jti) token_jti_column)
        (is_some (find (same_jti b.token_jti) v.bookings))
        (is_some (find (same_holder b.event_id b.user_id) v.bookings)))

abbrev pub event_row : Text → Event → Text → Row
event_row k e created_at =
    (codes "event_id", text k)
    ∷ (codes "name", text e.name)
    ∷ (codes "capacity", number e.capacity)
    ∷ (codes "tickets_booked", number e.tickets_booked)
    ∷ (codes "created_at", time created_at)
    ∷ []

event_conjuncts :
    (id name capacity booked sold : Bool)
    → (((id && true)
          && ((name && true)
              && ((capacity && true) && ((booked && true) && ((true && true) && true)))))
        && (sold && true))
      ≡ (sold && (capacity && (booked && (id && name))))
event_conjuncts id name capacity booked sold = ground arith

event_rows :
    (known : Text → Value → Bool) (rows : List Row) (k : Text) (e : Event) (created_at : Text)
    → is_new (codes "event_id" ∷ []) rows (event_row k e created_at) ≡ true
    → lets_in known event_model rows (event_row k e created_at) ≡ (
        leb e.tickets_booked e.capacity
        && (leb e.capacity integer_max
            && (leb e.tickets_booked integer_max
                && (leb (length k) event_id_column && leb (length e.name) 200))))
unfolding lets_in all_columns all_constraints column_fits holds
event_rows known rows k e created_at fresh = rw fresh (
    event_conjuncts (leb (length k) event_id_column) (leb (length e.name) 200)
      (leb e.capacity integer_max) (leb e.tickets_booked integer_max)
      (leb e.tickets_booked e.capacity))

-- The column of the event stands last in the migration.
same_columns :
    (known : Text → Value → Bool) (rows : List Row) (row : Row)
    → lets_in known create_booking_model rows row ≡ lets_in known booking_model rows row
unfolding lets_in all_columns all_constraints
same_columns known rows row =
    let column = λ (name : Text) (field : Field) (unique : Bool).
      column_lets_in known (record { name = name; field = field; unique = unique }) rows row in
    rotated (column (codes "id") big_auto true)
      (column (codes "event") (foreign_key (codes "Event")) false)
      (column (codes "user_id") (char 64) false) (column (codes "token_jti") (char 64) true)
      (column (codes "created_at") date_time false)
      (all_constraints booking_model.constraints rows row)

-- The migration creates a table of bookings and one of events. Each lets a row in exactly if the
-- table that the models declare does, whatever rows it has. A booking whose id is not taken is let
-- in beside the bookings of `v` exactly if its id is a `bigint`, its event is there, its jti is not
-- taken, its user has no booking of the event, and its texts, which PostgreSQL can store, are not
-- longer than their columns; and an event whose id is not taken, or an event that is changed,
-- exactly if it has no more tickets booked than its capacity, both numbers are an `integer`, and
-- its texts are not longer than their columns.
pub migrated_tables :
    (known : Text → Value → Bool) (rows : List Row) (row : Row) (v : Tables) (b : Booking)
    → is_some (find (same_id b.id) v.bookings) ≡ false
    → (k : Text) (e : Event) (created_at : Text)
    → is_new (codes "event_id" ∷ []) rows (event_row k e created_at) ≡ true
    → (events bookings : Model) × (created (codes "Event") operations ≡ some events)
      × (created (codes "Booking") operations ≡ some bookings)
      × (lets_in known events rows row ≡ lets_in known event_model rows row)
      × (lets_in known bookings rows row ≡ lets_in known booking_model rows row)
      × (lets_in (keys_of v) bookings (map row_of v.bookings) (row_of b)
          ≡ (leb b.id bigint_max && (insertable v b.event_id b.user_id b.token_jti && texts_fit b)))
      × (lets_in known events rows (event_row k e created_at) ≡ (
          leb e.tickets_booked e.capacity
          && (leb e.capacity integer_max
              && (leb e.tickets_booked integer_max
                  && (leb (length k) event_id_column && leb (length e.name) 200)))))
unfolding created
migrated_tables known rows row v b fresh k e created_at new = (
  create_event_model,
  create_booking_model,
  refl,
  refl,
  refl,
  same_columns known rows row,
  same_columns (keys_of v) (map row_of v.bookings) (row_of b) ∙ booking_rows v b fresh,
  event_rows known rows k e created_at new,
)
