-- ===== src/Booking/Runs.antt =====
-- Transactions of any requests, one after the other.
use queue_fair.Prelude.{
  ℕ, ◌≤◌, ◌<◌, Text, true, false, not, none, some, List, [], ◌∷◌, ◌++◌, ◌≡◌, refl, ap, sym, ◌∙◌,
  arith, is_some, text_eq, text_eq_iff, text_eq_refl, ltb→lt, inl, inr, Option-cases, Bool-cases,
  if◌then◌else◌,
}
use mathlib.Core.List.{append-nil, append_assoc}
use queue_fair.Booking.{
  Event, Booking, Tables, Database, find, violates, selects, set_event, add_booking,
}
use queue_fair.Booking.Ticket.{
  Outcome, returned, raised, event_not_found, sold_out, integrity_error, has_room, claimed,
  transaction, inserted, run,
}
use queue_fair.Booking.Sound.{IsSound, row_after, added-IsSound}
use queue_fair.Tokens.Verify.{AdmissionClaims}

no_room : (e : Event) → has_room e ≡ false → e.capacity ≤ e.tickets_booked
no_room e h = ground arith

module _ (D : Database) where
  open D use {
    Db, view, event_exists, event_exists_lem, update_event, update_event_none, update_event_one,
    create_booking, create_booking_fails, create_booking_adds,
  }

  -- What one transaction does.
  pub data Transacted (c : AdmissionClaims) (db : Db) : Outcome Booking × Db → Type 0 where
    missing : (view db).events c.event_id ≡ none → Transacted c db (raised event_not_found, db)
    full :
        (e : Event)
        → (view db).events c.event_id ≡ some e
        → e.capacity ≤ e.tickets_booked
        → Transacted c db (raised sold_out, db)
    taken :
        (b : Booking)
        → find (violates c.event_id c.user_id c.jti) (view db).bookings ≡ some b
        → Transacted c db (raised integrity_error, db)
    made :
        (e : Event)
        → (view db).events c.event_id ≡ some e
        → e.tickets_booked < e.capacity
        → find (violates c.event_id c.user_id c.jti) (view db).bookings ≡ none
        → (b : Booking) → b.event_id ≡ c.event_id
        → b.user_id ≡ c.user_id
        → b.token_jti ≡ c.jti
        → (d : Db) → view d ≡ add_booking (set_event (view db) c.event_id (claimed e)) b
        → Transacted c db (returned b, d)

  module _ (c : AdmissionClaims) (db : Db) where
    -- The row that an insert adds.
    abbrev row : ℕ → Text → Booking
    row id time = record {
      id = id;
      event_id = c.event_id;
      user_id = c.user_id;
      token_jti = c.jti;
      created_at = time;
    }

    no_row :
        selects has_room ((view db).events c.event_id) ≡ false
        → transaction D c db ≡ (
            if not (is_some ((view db).events c.event_id))
            then (raised event_not_found, db)
            else (raised sold_out, db))
    unfolding transaction
    no_row h = rw (update_event_none db c.event_id has_room claimed h, event_exists_lem) refl

    -- The insert after the claim gave `d`.
    insert :
        (e : Event) (d : Db)
        → (view db).events c.event_id ≡ some e
        → e.tickets_booked < e.capacity
        → view d ≡ set_event (view db) c.event_id (claimed e)
        → Transacted c db (inserted D db (create_booking d c.event_id c.user_id c.jti))
    unfolding inserted
    insert e d here room v =
        elim (Option-cases (find (violates c.event_id c.user_id c.jti) (view db).bookings)) [
          | inr (b, clash) ↦
              rw
                (create_booking_fails d c.event_id c.user_id c.jti
                  (rw (v, text_eq_refl, clash) refl))
                (taken b clash)
          | inl free ↦
              let (id, time, d', created, v') =
                create_booking_adds d c.event_id c.user_id c.jti
                  (rw (v, text_eq_refl, free) refl) in
              rw created (
                made e here room free (row id time) refl refl refl d'
                  (v' ∙ ap (λ w. add_booking w (row id time)) v))
        ]

    one_row :
        (e : Event)
        → (view db).events c.event_id ≡ some e
        → has_room e ≡ true
        → Transacted c db (transaction D c db)
    unfolding transaction
    one_row e here room =
        let fewer = ltb→lt e.tickets_booked e.capacity room in
        let (d, result, v) =
          update_event_one db c.event_id has_room claimed e here room (omega arith) in
        rw result (insert e d here fewer v)

    pub transaction-Transacted : Transacted c db (transaction D c db)
    transaction-Transacted = elim (Option-cases ((view db).events c.event_id)) [
      | inl gone ↦ rw (no_row (rw gone refl), gone) (missing gone)
      | inr (e, here) ↦ elim (Bool-cases (has_room e)) [
        | inl room ↦ one_row e here room
        | inr none_left ↦
            rw (no_row (rw (here, none_left) refl), here) (full e here (no_room e none_left))
      ]
    ]

  -- The tables `w` come after `v`: no booking is lost or changed, and no event or capacity.
  pub record Later (v w : Tables) : Type 0 where
    pub new : List Booking
    pub bookings : w.bookings ≡ v.bookings ++ new
    pub absent : (k : Text) → v.events k ≡ none → w.events k ≡ none
    pub capacity :
        (k : Text) (e : Event)
        → w.events k ≡ some e
        → (f : Event) × (v.events k ≡ some f) × (f.capacity ≡ e.capacity)

  Later-refl : (v : Tables) → Later v v
  Later-refl v = record {
    new = [];
    bookings = sym (append-nil v.bookings);
    absent = λ k h. h;
    capacity = λ k e h. (e, h, refl);
  }

  Later-trans : (u v w : Tables) → Later u v → Later v w → Later u w
  Later-trans u v w a b = record {
    new = a.new ++ b.new;
    bookings = b.bookings ∙ (ap (λ l. l ++ b.new) a.bookings ∙ append_assoc u.bookings a.new b.new);
    absent = λ k h. b.absent k (a.absent k h);
    capacity = λ k e h.
        let (f, old, same) = b.capacity k e h in
        let (g, older, also) = a.capacity k f old in (g, older, also ∙ same);
  }

  made-Later :
      (v : Tables) (k : Text) (e : Event) (b : Booking)
      → v.events k ≡ some e
      → Later v (add_booking (set_event v k (claimed e)) b)
  made-Later v k e b here = record {
    new = b ∷ [];
    bookings = refl;
    absent = λ j h. elim (Bool-cases (text_eq k j)) [
      | inl same ↦ absurd (let both = sym here ∙ (ap v.events ((text_eq_iff k j).0 same) ∙ h) in cc)
      | inr other ↦ rw other h
    ];
    capacity = λ j f h. elim (row_after v e f k j here h) [
      | inl (same, old, now) ↦ (e, old, ap (λ (x : Event). x.capacity) now)
      | inr (other, old) ↦ (f, old, refl)
    ];
  }

  module _ (c : AdmissionClaims) (db : Db) (s : IsSound (view db)) where
    pub Transacted-IsSound :
        {x : Outcome Booking × Db}
        → Transacted c db x
        → IsSound (view x.1) × Later (view db) (view x.1)
    Transacted-IsSound (missing h) = (s, Later-refl (view db))
    Transacted-IsSound (full e h f) = (s, Later-refl (view db))
    Transacted-IsSound (taken b h) = (s, Later-refl (view db))
    Transacted-IsSound (made e here room free b he hu hj d v) = (
      rw (v, ← he) (added-IsSound (view db) e b s (rw he here) room (rw (he, hu, hj) free)),
      rw v (made-Later (view db) c.event_id e b here),
    )

  -- Let any requests run their transactions, one after the other, on sound tables. The tables stay
  -- sound: each event counts its bookings, which are never more than its capacity, and no token and
  -- no user with an event has two. No booking is lost or changed, no event appears and no capacity
  -- changes.
  pub run-IsSound :
      (cs : List AdmissionClaims) (db : Db)
      → IsSound (view db)
      → IsSound (view (run D cs db)) × Later (view db) (view (run D cs db))
  unfolding run
  run-IsSound [] db s = (s, Later-refl (view db))
  run-IsSound (c ∷ cs) db s =
      let (s', l) = Transacted-IsSound c db s (transaction-Transacted c db) in
      let (s'', l') = run-IsSound cs (transaction D c db).1 s' in
      (s'', Later-trans (view db) _ _ l l')
