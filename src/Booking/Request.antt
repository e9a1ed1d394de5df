-- ===== src/Booking/Request.antt =====
-- One request among others.
use queue_fair.Prelude.{
  or_else, true, false, Option, none, some, List, [], ◌∷◌, ◌≡◌, refl, ap, ◌∙◌, arith, text_eq_refl,
  inl, inr, Option-cases,
}
use queue_fair.Booking.{Event, Booking, Tables, Database, find, same_jti, same_holder, violates}
use queue_fair.Booking.Ticket.{
  BookingResult, Outcome, returned, raised, event_not_found, sold_out, run, find_existing,
  book_ticket, attempt, concluded, reread,
}
use queue_fair.Booking.Sound.{IsSound, find-append_some, find-append_none, find_or, find_or_none}
use queue_fair.Booking.Runs.{
  Transacted, missing, full, taken, made, transaction-Transacted, Transacted-IsSound, Later,
  run-IsSound,
}
use queue_fair.Tokens.Verify.{AdmissionClaims}

-- The booking held for the token or else for the user and event.
abbrev pub held_in : AdmissionClaims → List Booking → Option Booking
held_in c bs = or_else (find (same_jti c.jti) bs) (find (same_holder c.event_id c.user_id) bs)

-- What a request is told, by the tables that it leaves.
pub data Answered (c : AdmissionClaims) (v : Tables) : Outcome BookingResult → Type 0 where
  created :
      (b : Booking)
      → find (same_jti c.jti) v.bookings ≡ some b
      → b.event_id ≡ c.event_id
      → b.user_id ≡ c.user_id
      → Answered c v (returned (record { booking = b; created = true }))
  held :
      (b : Booking)
      → held_in c v.bookings ≡ some b
      → Answered c v (returned (record { booking = b; created = false }))
  no_event : v.events c.event_id ≡ none → Answered c v (raised event_not_found)
  no_room :
      (e : Event)
      → v.events c.event_id ≡ some e
      → e.tickets_booked ≡ e.capacity
      → Answered c v (raised sold_out)

module _ (D : Database) where
  open D use {Db, view, first_booking_lem}

  find_existing_lem :
      (c : AdmissionClaims) (db : Db) → find_existing D c db ≡ held_in c (view db).bookings
  unfolding find_existing
  find_existing_lem c db = rw (first_booking_lem, first_booking_lem) refl

  -- A row that stands in the way is still found later.
  clash_held :
      (c : AdmissionClaims) (b : Booking) (v w : Tables)
      → find (violates c.event_id c.user_id c.jti) v.bookings ≡ some b
      → Later D v w
      → (d : Booking) × (held_in c w.bookings ≡ some d)
  clash_held c b v w clash l =
      let found = find_or (same_jti c.jti) (same_holder c.event_id c.user_id) w.bookings b (
        rw l.bookings
          (find-append_some (violates c.event_id c.user_id c.jti) v.bookings l.new b clash)) in
      elim (Option-cases (held_in c w.bookings)) [
        | inl gone ↦ absurd (ground arith)
        | inr found_it ↦ found_it
      ]

  abbrev Reached : AdmissionClaims → Outcome BookingResult × Db → Type 0
  Reached c r = IsSound (view r.1) × Answered c (view r.1) r.0

  module _ (c : AdmissionClaims) (after : List AdmissionClaims) (db : Db)
      (s : IsSound (view db)) where
    reread_lem :
        (d : Db)
        → IsSound (view d)
        → (b : Booking) × (held_in c (view d).bookings ≡ some b)
        → Reached c (reread D (find_existing D c d) d)
    unfolding reread
    reread_lem d sd (b, h) = rw (find_existing_lem, h) (sd, held b h)

    concluded_lem :
        {x : Outcome Booking × Db}
        → Transacted D c db x
        → IsSound (view x.1)
        → Reached c (concluded D c after x)
    unfolding concluded
    concluded_lem (missing h) sx = (sx, no_event h)
    concluded_lem (full e h more) sx = (sx, no_room e h (omega (arith, s.fits c.event_id e h)))
    concluded_lem (taken b clash) sx =
        let (sd, l) = run-IsSound D after db s in
        reread_lem (run D after db) sd (clash_held c b (view db) (view (run D after db)) clash l)
    concluded_lem (made e here room free b he hu hj d v) sx = (
      sx,
      created b
          (rw (ap (λ (w : Tables). w.bookings) v) (
            find-append_none (same_jti c.jti) (view db).bookings (b ∷ []) (
              find_or_none (same_jti c.jti) (same_holder c.event_id c.user_id) (view db).bookings
                free)
            ∙ (rw (hj, text_eq_refl) refl)))
          he hu,
    )

  -- On sound tables, whatever transactions other requests run meanwhile, a request is answered: it
  -- returns a new booking with its own token, user and event, or the booking that is held for its
  -- token or for its user and event, or raises that the event does not exist, or that every ticket is
  -- booked; and never an IntegrityError. The tables stay sound.
  pub book_ticket-Answered :
      (c : AdmissionClaims) (before after : List AdmissionClaims) (db : Db)
      → IsSound (view db)
      → IsSound (view (book_ticket D c before after db).1)
        × Answered c (view (book_ticket D c before after db).1) (book_ticket D c before after db).0
  unfolding book_ticket attempt
  book_ticket-Answered c before after db s = elim (Option-cases (held_in c (view db).bookings)) [
    | inl none_held ↦
        let (s', l) = run-IsSound D before db s in
        let t = transaction-Transacted D c (run D before db) in
        rw (find_existing_lem, none_held)
          (concluded_lem c after (run D before db) s' t
            (Transacted-IsSound D c (run D before db) s' t).0)
    | inr (b, h) ↦ rw (find_existing_lem, h) (s, held b h)
  ]

  created_found :
      (c : AdmissionClaims) (v : Tables) {r : Outcome BookingResult} (b : Booking)
      → Answered c v r
      → r ≡ returned (record { booking = b; created = true })
      → find (same_jti c.jti) v.bookings ≡ some b
  created_found c v b (created d h he hu) e = ground arith
  created_found c v b (held d h) e = absurd (cc)
  created_found c v b (no_event h) e = absurd (cc)
  created_found c v b (no_room d h k) e = absurd (cc)

  -- A request that made a booking, on sound tables and among any others, and is sent again after
  -- any others ran their transactions, returns that same booking as not created, and changes nothing.
  pub book_ticket_replay :
      (c : AdmissionClaims) (before after : List AdmissionClaims) (db : Db) (b : Booking)
      → IsSound (view db)
      → (book_ticket D c before after db).0 ≡ returned (record { booking = b; created = true })
      → (later before' after' : List AdmissionClaims)
      → book_ticket D c before' after' (run D later (book_ticket D c before after db).1) ≡ (
        returned (record { booking = b; created = false }),
        run D later (book_ticket D c before after db).1,
      )
  unfolding book_ticket attempt
  book_ticket_replay c before after db b s made_it later before' after' =
      let d = (book_ticket D c before after db).1 in
      let (sd, a) = book_ticket-Answered c before after db s in
      let l = (run-IsSound D later d sd).1 in
      let found : find (same_jti c.jti) (view (run D later d)).bookings ≡ some b = rw l.bookings (
        find-append_some (same_jti c.jti) (view d).bookings l.new b
          (created_found c (view d) b a made_it)) in
      rw (find_existing_lem, found) refl
