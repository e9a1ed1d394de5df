-- ===== src/Booking/Sound.antt =====
-- The invariant of the tables.
use queue_fair.Prelude.{
  or_else, ℕ, ◌+◌, ◌≤◌, ◌<◌, Text, Bool, true, false, ◌||◌, none, some, List, [], ◌∷◌, ◌++◌, ◌≡◌,
  refl, ap, ◌∙◌, arith, is_some, text_eq, text_eq_iff, text_eq_comm, inl, inr, Option-cases,
  Bool-cases, ◌⊎◌, if◌then◌else◌,
}
use mathlib.Core.Path.{subst}
use queue_fair.Booking.{Event, Booking, Tables, find, violates, set_event, add_booking}
use queue_fair.Booking.Ticket.{claimed}

-- The bookings of an event.
abbrev pub booked : Text → List Booking → ℕ
booked k [] = 0
booked k (b ∷ bs) = (if text_eq b.event_id k then 1 else 0) + booked k bs

-- No two rows violate a unique constraint.
abbrev pub Unique : List Booking → Type 0
Unique [] = Unit
Unique (b ∷ bs) = (find (violates b.event_id b.user_id b.token_jti) bs ≡ none) × Unique bs

-- Each event counts its bookings, within its capacity, and the unique constraints hold.
pub record IsSound (v : Tables) : Type 0 where
  pub counted :
      (k : Text) (e : Event) → v.events k ≡ some e → e.tickets_booked ≡ booked k v.bookings
  pub fits : (k : Text) (e : Event) → v.events k ≡ some e → e.tickets_booked ≤ e.capacity
  pub unique : Unique v.bookings

booked-append :
    (k : Text) (bs : List Booking) (b : Booking)
    → booked k (bs ++ b ∷ []) ≡ booked k bs + (if text_eq b.event_id k then 1 else 0)
booked-append k [] b = omega arith
booked-append k (c ∷ bs) b = omega (arith, booked-append k bs b)

pub find-append_some :
    {A : Type 0} (p : A → Bool) (bs ds : List A) (b : A)
    → find p bs ≡ some b
    → find p (bs ++ ds) ≡ some b
find-append_some p [] ds b h = absurd (cc)
find-append_some p (c ∷ bs) ds b h = ground (arith, find-append_some p bs ds b)

pub find-append_none :
    {A : Type 0} (p : A → Bool) (bs ds : List A) → find p bs ≡ none → find p (bs ++ ds) ≡ find p ds
find-append_none p [] ds h = refl
find-append_none p (c ∷ bs) ds h = ground (arith, find-append_none p bs ds)

-- A row that satisfies the disjunction is found by the first test or by the second.
pub find_or :
    {A : Type 0} (p q : A → Bool) (bs : List A) (b : A)
    → find (λ x. p x || q x) bs ≡ some b
    → is_some (or_else (find p bs) (find q bs)) ≡ true
find_or p q [] b h = absurd (cc)
find_or p q (c ∷ bs) b h = elim (Bool-cases (p c)) [
  | inl one ↦ rw one refl
  | inr next ↦ elim (Bool-cases (q c)) [
    | inl one ↦ elim (Option-cases (find p bs)) [
      | inl e ↦ rw (next, one, e) refl
      | inr (a, e) ↦ rw (next, one, e) refl
    ]
    | inr also ↦ rw (next, also) (find_or p q bs b (ground arith))
  ]
]

pub find_or_none :
    {A : Type 0} (p q : A → Bool) (bs : List A)
    → find (λ x. p x || q x) bs ≡ none
    → find p bs ≡ none
find_or_none p q [] h = refl
find_or_none p q (c ∷ bs) h = ground (arith, find_or_none p q bs)

violates_comm :
    (b c : Booking)
    → violates b.event_id b.user_id b.token_jti c ≡ violates c.event_id c.user_id c.token_jti b
violates_comm b c =
    rw
      (
        text_eq_comm c.token_jti b.token_jti,
        text_eq_comm c.event_id b.event_id,
        text_eq_comm c.user_id b.user_id,
      )
      refl

Unique-append :
    (bs : List Booking) (b : Booking)
    → Unique bs
    → find (violates b.event_id b.user_id b.token_jti) bs ≡ none
    → Unique (bs ++ b ∷ [])
Unique-append [] b u h = (refl, tt)
Unique-append (c ∷ bs) b u h = elim (Bool-cases (violates b.event_id b.user_id b.token_jti c)) [
  | inl one ↦ absurd (ground arith)
  | inr next ↦ (
    find-append_none (violates c.event_id c.user_id c.token_jti) bs (b ∷ []) u.0
        ∙ (rw (violates_comm c b, next) refl),
    Unique-append bs b u.1 (ground arith),
  )
]

-- The row of an event after the update of another or the same one.
pub row_after :
    (v : Tables) (e f : Event) (j k : Text)
    → v.events j ≡ some e
    → (set_event v j (claimed e)).events k ≡ some f
    → ((text_eq j k ≡ true) × (v.events k ≡ some e) × (claimed e ≡ f))
      ⊎ ((text_eq j k ≡ false) × (v.events k ≡ some f))
row_after v e f j k here h = elim (Bool-cases (text_eq j k)) [
  | inl same ↦
      inl (same, subst (λ i. v.events i ≡ some e) ((text_eq_iff j k).0 same) here, ground arith)
  | inr other ↦ inr (other, ground arith)
]

-- The tables with the ticket claimed and the booking added are sound.
pub added-IsSound :
    (v : Tables) (e : Event) (b : Booking)
    → IsSound v
    → v.events b.event_id ≡ some e
    → e.tickets_booked < e.capacity
    → find (violates b.event_id b.user_id b.token_jti) v.bookings ≡ none
    → IsSound (add_booking (set_event v b.event_id (claimed e)) b)
added-IsSound v e b s here room free = record {
  counted = λ k f h. elim (row_after v e f b.event_id k here h) [
    | inl (same, old, now) ↦
        let grown : booked k (v.bookings ++ b ∷ []) ≡ booked k v.bookings + 1 =
          booked-append k v.bookings b ∙ (rw same refl) in
        omega (arith, ap (λ (x : Event). x.tickets_booked) now, s.counted k e old, grown)
    | inr (other, old) ↦
        let grown : booked k (v.bookings ++ b ∷ []) ≡ booked k v.bookings + 0 =
          booked-append k v.bookings b ∙ (rw other refl) in
        omega (arith, s.counted k f old, grown)
  ];
  fits = λ k f h. elim (row_after v e f b.event_id k here h) [
    | inl (same, old, now) ↦
        omega (
          arith,
          ap (λ (x : Event). x.tickets_booked) now,
          ap (λ (x : Event). x.capacity) now,
          room,
        )
    | inr (other, old) ↦ s.fits k f old
  ];
  unique = Unique-append v.bookings b s.unique free;
}
