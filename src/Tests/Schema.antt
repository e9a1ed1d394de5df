-- ===== src/Tests/Schema.antt =====
-- A booking beside another, and an event beside another, as rows.
use queue_fair.Prelude.{false, List, codes, ◌&&◌, some, [], ◌∷◌, ◌≡◌, refl, leb, length, map}
use queue_fair.Booking.{Event, Booking, Tables, insertable}
use queue_fair.Booking.Memory.{new_row}
use queue_fair.Booking.Columns.{event_id_column}
use queue_fair.Booking.Schema.{
  Model, Row, integer_max, bigint_max, created, operations, lets_in, event_model, booking_model,
  is_new, same_cells, same_cell, all_columns, all_constraints, column_fits, holds,
}
use queue_fair.Booking.Schema.Rows.{migrated_tables, keys_of, row_of, texts_fit, event_row}
use queue_fair.Tests.Data.{keys, ada, bob}
use queue_fair.Tests.Tickets.{on_sale}

abbrev first_booking : Booking
first_booking = new_row on_sale keys.event_id ada (codes "1")

abbrev booked : Tables
booked = record on_sale { bookings = first_booking ∷ [] }

abbrev second_booking : Booking
second_booking = new_row booked keys.event_id bob (codes "2")

abbrev concert : Event
concert = record { name = codes "Coldplay"; capacity = 2; tickets_booked = 1 }

abbrev others : List Row
others = event_row (codes "arijit-delhi-2026") concert (codes "then") ∷ []

migrated_tables_example :
    (events bookings : Model) × (created (codes "Event") operations ≡ some events)
    × (created (codes "Booking") operations ≡ some bookings)
    × (lets_in (keys_of booked) events others (row_of second_booking)
        ≡ lets_in (keys_of booked) event_model others (row_of second_booking))
    × (lets_in (keys_of booked) bookings others (row_of second_booking)
        ≡ lets_in (keys_of booked) booking_model others (row_of second_booking))
    × (lets_in (keys_of booked) bookings (map row_of booked.bookings) (row_of second_booking) ≡ (
        leb second_booking.id bigint_max
        && (insertable booked keys.event_id bob (codes "2") && texts_fit second_booking)))
    × (lets_in (keys_of booked) events others (event_row keys.event_id concert (codes "now")) ≡ (
        leb 1 2
        && (leb 2 integer_max
            && (leb 1 integer_max
                && (leb (length keys.event_id) event_id_column && leb (length concert.name) 200)))))
unfolding is_new same_cells same_cell
migrated_tables_example =
    migrated_tables (keys_of booked) others (row_of second_booking) booked second_booking refl
      keys.event_id concert (codes "now") refl

-- A capacity beyond an `integer`.
huge_refused :
    lets_in
      (keys_of booked)
      event_model
      []
      (event_row keys.event_id (record concert { capacity = 2147483648 }) (codes "now"))
    ≡ false
unfolding lets_in all_columns all_constraints column_fits holds is_new same_cells same_cell
huge_refused = refl
