-- ===== src/Booking/Memory.antt =====
-- A database whose state is its tables: the interface can be met, and the tests run on it.
use queue_fair.Prelude.{
  ℕ, ◌+◌, ◌≤◌, Text, codes, Bool, true, false, Option, none, some, [], ◌≡◌, refl, is_some, length,
  leb, le→leb, if◌then◌else◌,
}
use queue_fair.Booking.{
  Event, Booking, Tables, Database, find, insertable, selects, set_event, add_booking,
}

-- The update of the row that was found, if the check constraint allows the new one.
abbrev pub update_row :
    Tables → Text → (Event → Bool) → (Event → Event) → Option Event → Option (ℕ × Tables)
update_row v k p f none = some (0, v)
update_row v k p f (some e) =
    if p e
    then (if leb (f e).tickets_booked (f e).capacity then some (1, set_event v k (f e)) else none)
    else some (0, v)

pub update_row_none :
    (v : Tables) (k : Text) (p : Event → Bool) (f : Event → Event) (o : Option Event)
    → selects p o ≡ false
    → update_row v k p f o ≡ some (0, v)
update_row_none v k p f none h = refl
update_row_none v k p f (some e) h = rw h refl

pub update_row_one :
    (v : Tables) (k : Text) (p : Event → Bool) (f : Event → Event) (e : Event)
    → v.events k ≡ some e
    → p e ≡ true
    → (f e).tickets_booked ≤ (f e).capacity
    → (d : Tables) × (update_row v k p f (v.events k) ≡ some (1, d)) × (d ≡ set_event v k (f e))
update_row_one v k p f e here yes_row fits = (
  set_event v k (f e),
  rw (here, yes_row, le→leb (f e).tickets_booked (f e).capacity fits) refl,
  refl,
)

-- The next id is the number of bookings so far.
abbrev pub new_row : Tables → Text → Text → Text → Booking
new_row v e u j = record {
  id = length v.bookings + 1;
  event_id = e;
  user_id = u;
  token_jti = j;
  created_at = codes "2026-08-01T10:00:00+00:00";
}

abbrev pub memory : Database
memory = record {
  Db = Tables;
  view = λ v. v;
  event_exists = λ v k. is_some (v.events k);
  update_event = λ v k p f. update_row v k p f (v.events k);
  first_booking = λ v p. find p v.bookings;
  create_booking = λ v e u j.
      if insertable v e u j then some (new_row v e u j, add_booking v (new_row v e u j)) else none;
  event_exists_lem = λ v k. refl;
  update_event_none = λ v k p f h. update_row_none v k p f (v.events k) h;
  update_event_one = λ v k p f e here h fits. update_row_one v k p f e here h fits;
  first_booking_lem = λ v p. refl;
  create_booking_fails = λ v e u j h. rw h refl;
  create_booking_adds = λ v e u j h. (
    length v.bookings + 1,
    codes "2026-08-01T10:00:00+00:00",
    add_booking v (new_row v e u j),
    rw h refl,
    refl,
  );
}

-- Tables with no row.
abbrev pub no_rows : Tables
no_rows = record { events = λ k. none; bookings = [] }
