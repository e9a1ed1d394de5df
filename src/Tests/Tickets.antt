-- ===== src/Tests/Tickets.antt =====
-- An event with one ticket, two users and the booking endpoint.
use queue_fair.Prelude.{pos, Text, codes, false, some, [], ◌∷◌, ◌++◌, ◌≡◌, refl, arith, update}
use queue_fair.Tokens.Issuer.{issue}
use queue_fair.Tokens.Verify.{AdmissionClaims}
use queue_fair.Booking.{Event, Tables}
use queue_fair.Booking.Memory.{memory, no_rows, new_row}
use queue_fair.Booking.Ticket.{
  returned, run, book_ticket, transaction, find_existing, attempt, concluded, updated, inserted,
}
use queue_fair.Booking.Sound.{IsSound}
use queue_fair.Booking.Runs.{Later, run-IsSound}
use queue_fair.Booking.Request.{Answered, book_ticket-Answered, book_ticket_replay}
use queue_fair.Booking.Endpoint.{
  authenticate, booking_view, answered, bearer_token, token_of, verified, as_failure, post,
  response_to, serialize, fields,
}
use queue_fair.Tokens.Verify.{
  verify_admission_token, checked, claims_from, build, required, require_str, require_int, str_of,
  int_of,
}
use queue_fair.Booking.Endpoint.Answers.{Told, booking_view-Told}
use queue_fair.Tests.Data.{keys, ada, bob}
use queue_fair.Tests.Codecs.{signer}
use queue_fair.Tests.Passes.{signing}

abbrev pub one_ticket : Event
one_ticket = record { name = codes "Coldplay"; capacity = 1; tickets_booked = 0 }

abbrev pub on_sale : Tables
on_sale = record no_rows { events = update no_rows.events keys.event_id (some one_ticket) }

pub on_sale-IsSound : IsSound on_sale
on_sale-IsSound = record {
  counted = λ k e h. ground arith;
  fits = λ k e h. ground arith;
  unique = tt;
}

abbrev claims_of_ada : AdmissionClaims
claims_of_ada = record {
  user_id = ada;
  event_id = keys.event_id;
  jti = codes "1";
  issued_at = pos 1000;
  expires_at = pos 1120;
}

abbrev claims_of_bob : AdmissionClaims
claims_of_bob = record claims_of_ada { user_id = bob; jti = codes "2" }

-- Both run their transactions, ada twice.
run-IsSound_example :
    IsSound (run memory (claims_of_ada ∷ claims_of_bob ∷ claims_of_ada ∷ []) on_sale)
    × Later memory on_sale (run memory (claims_of_ada ∷ claims_of_bob ∷ claims_of_ada ∷ []) on_sale)
run-IsSound_example =
    run-IsSound memory (claims_of_ada ∷ claims_of_bob ∷ claims_of_ada ∷ []) on_sale on_sale-IsSound

-- The same request of ada's commits between the first look and the transaction.
book_ticket-Answered_example :
    IsSound (book_ticket memory claims_of_ada (claims_of_ada ∷ []) [] on_sale).1
    × Answered claims_of_ada
        (book_ticket memory claims_of_ada (claims_of_ada ∷ []) [] on_sale).1
        (book_ticket memory claims_of_ada (claims_of_ada ∷ []) [] on_sale).0
book_ticket-Answered_example =
    book_ticket-Answered memory claims_of_ada (claims_of_ada ∷ []) [] on_sale on_sale-IsSound

book_ticket_replay_example :
    book_ticket memory claims_of_ada [] []
      (run memory (claims_of_bob ∷ []) (book_ticket memory claims_of_ada [] [] on_sale).1)
    ≡ (
      returned
          (record { booking = new_row on_sale keys.event_id ada (codes "1"); created = false }),
      run memory (claims_of_bob ∷ []) (book_ticket memory claims_of_ada [] [] on_sale).1,
    )
unfolding book_ticket find_existing attempt concluded transaction updated inserted run
book_ticket_replay_example =
    book_ticket_replay memory claims_of_ada [] [] on_sale
      (new_row on_sale keys.event_id ada (codes "1")) on_sale-IsSound refl (claims_of_bob ∷ []) []
      []

abbrev header : Text
header = codes "bearer " ++ (issue signer signing keys.event_id ada 10 (codes "7")).jwt

-- The pass books the ticket.
booked :
    (booking_view memory signer signing.secret 70 keys.event_id [] [] header on_sale).0
    ≡ some (record {
      status = 201;
      body = fields (serialize (new_row on_sale keys.event_id ada (codes "7")));
    })
unfolding booking_view answered authenticate bearer_token token_of verified as_failure
    verify_admission_token checked claims_from build required require_str require_int str_of int_of
    issue post response_to book_ticket find_existing attempt concluded transaction updated inserted
    run
booked = refl

booking_view-Told_example :
    IsSound (booking_view memory signer signing.secret 70 keys.event_id [] [] header on_sale).1
    × Told
        (authenticate signer signing.secret 70 header)
        keys.event_id
        (booking_view memory signer signing.secret 70 keys.event_id [] [] header on_sale).1
        (booking_view memory signer signing.secret 70 keys.event_id [] [] header on_sale).0
booking_view-Told_example =
    booking_view-Told memory signer signing.secret 70 keys.event_id [] [] header on_sale
      on_sale-IsSound
