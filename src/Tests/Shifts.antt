-- ===== src/Tests/Shifts.antt =====
-- Two shifts of the event with three waiting tokens, for the second in line.
use queue_fair.Prelude.{
  pos, ◌++◌, ℕ, ◌+◌, ◌/◌, codes, some, List, [], ◌∷◌, ◌≡◌, refl, arith, inl, inr,
}
use mathlib.Core.List.{Memᴰ}
use queue_fair.Redis.Memory.{memory}
use queue_fair.Redis.{All}
use queue_fair.State.{AdmittedOutcome}
use queue_fair.Validation.{is_valid_event_id, is_valid_queue_token, new_queue_token, token_hex}
use queue_fair.Repository.{delivered, lost}
use queue_fair.Admission.Rounds.{Round}
use queue_fair.Api
use queue_fair.Api.{Request, Settings, token_for, queue_token_from, accepted, cookie_name}
use queue_fair.Api.Asking.{admitted_response}
use queue_fair.Booking.Urls
use queue_fair.Booking.Endpoint
use queue_fair.Booking.Endpoint.{authenticate}
use queue_fair.Booking.Endpoint.Bearer.{header_of}
use queue_fair.Tokens.Issuer.{issuer}
use queue_fair.System.{Action, joins, asks, ticks, expires, run}
use queue_fair.System.Shifts.{Shift, all_actions}
use queue_fair.System.Kept.Over.{Leaves}
use queue_fair.System.Waiter.{waiter_served}
use queue_fair.System.Answered.{Drawn}
use queue_fair.System.Kept.Until.{Fair}
use queue_fair.System.Reloads.{reloading_waiter_served}
use queue_fair.Tests.Data.{keys, ada, bob, three_waiting, three, three-Holds}
use queue_fair.Tests.Inputs.{thousandths, some_bytes}
use queue_fair.Tests.Codecs.{codec, signer}
use queue_fair.Tests.Passes.{signing}
use queue_fair.Tests.Routes.{router, event-IsSlug, settings, asking}
use queue_fair.Tests.Service.{joining, round_at, unheard}

-- Two shifts, for the second in line.
abbrev first_shift : Shift 100
first_shift = record {
  round = round_at 1000000;
  heard = refl;
  actions = joins delivered joining some_bytes ∷ ticks unheard ∷ ticks (round_at 1000601) ∷ [];
  orderly = (omega arith, (omega arith, tt));
  long_enough = omega arith;
}

abbrev second_shift : Shift 100
second_shift = record {
  round = round_at 1000700;
  heard = refl;
  actions = asks delivered asking ∷ expires ada ∷ ticks (round_at 1001301) ∷ [];
  orderly = (omega arith, tt);
  long_enough = omega arith;
}

abbrev shifts : List (Shift 100)
shifts = first_shift ∷ second_shift ∷ []

leaves : All (Leaves keys.event_id bob) (all_actions shifts)
unfolding token_for queue_token_from accepted new_queue_token token_hex
leaves = (
  inr (refl, refl),
  (refl, (inl refl, (inr (refl, refl), (inr (refl, refl), (tt, (refl, (inr (refl, refl), tt))))))),
)

drawn : All Drawn (all_actions shifts)
drawn = (λ j. refl, (tt, (λ j. refl, (λ j. refl, (λ j. refl, (tt, (tt, (λ j. refl, tt))))))))

waiter_served_example :
    (round : Round) × (j : ℕ) × (o : AdmittedOutcome) × Memᴰ (ticks round) (all_actions shifts)
    × ((Api.position thousandths settings keys.event_id memory codec delivered asking (
          run thousandths settings memory codec
            (issuer signer signing)
            120
            keys.event_id
            (all_actions shifts)
            three_waiting)).0
        ≡ some (admitted_response o))
    × (Urls.resolve router o.admission.book_url ≡ some keys.event_id)
    × (authenticate signer signing.secret (round.now_ms / 1000 + 60) (header_of o.admission.pass)
        ≡ Endpoint.ok (record {
          user_id = bob;
          event_id = keys.event_id;
          jti = round.uuid j;
          issued_at = pos (round.now_ms / 1000);
          expires_at = pos (round.now_ms / 1000 + 120);
        }))
unfolding is_valid_queue_token is_valid_event_id
waiter_served_example =
    waiter_served thousandths settings memory codec signer router signing 120 keys.event_id
      three_waiting three three-Holds refl
      (record { rate = omega arith; burst = omega arith; batch_max = omega arith }) refl
      event-IsSlug (omega arith) bob 1 refl refl shifts (omega arith) leaves drawn asking refl refl
      60 (omega arith)

-- The second in line reloads the page before and after it is admitted.
abbrev reloading : Request
reloading = record {
  method = codes "POST";
  cookies = (cookie_name keys.event_id, bob) ∷ [];
  query = [];
}

abbrev third_shift : Shift 100
third_shift = record {
  round = round_at 1000700;
  heard = refl;
  actions =
      joins delivered reloading some_bytes
      ∷ ticks (round_at 1001301)
      ∷ joins lost reloading some_bytes
      ∷ expires bob
      ∷ [];
  orderly = (omega arith, tt);
  long_enough = omega arith;
}

abbrev reloads : List (Shift 100)
reloads = first_shift ∷ third_shift ∷ []

fair : All Fair (all_actions reloads)
fair = (
  inr (refl, refl),
  (
    tt,
    (inl refl, (inr (refl, refl), (inr (refl, refl), (tt, (inr (refl, refl), (tt, (tt, tt))))))),
  ),
)

uuids_nonempty : All Drawn (all_actions reloads)
uuids_nonempty =
    (λ j. refl, (tt, (λ j. refl, (λ j. refl, (λ j. refl, (tt, (λ j. refl, (tt, (tt, tt)))))))))

reloading_waiter_served_example :
    (earlier later : List Action) × (round : Round) × (j : ℕ) × (o : AdmittedOutcome) × (earlier
        ++ (ticks round ∷ later)
      ≡ all_actions reloads)
    × ((Api.position thousandths settings keys.event_id memory codec delivered asking (
          run thousandths settings memory codec
            (issuer signer signing)
            120
            keys.event_id
            (earlier ++ ticks round ∷ [])
            three_waiting)).0
        ≡ some (admitted_response o))
    × (Urls.resolve router o.admission.book_url ≡ some keys.event_id)
    × (authenticate signer signing.secret (round.now_ms / 1000 + 60) (header_of o.admission.pass)
        ≡ Endpoint.ok (record {
          user_id = bob;
          event_id = keys.event_id;
          jti = round.uuid j;
          issued_at = pos (round.now_ms / 1000);
          expires_at = pos (round.now_ms / 1000 + 120);
        }))
unfolding is_valid_queue_token is_valid_event_id
reloading_waiter_served_example =
    reloading_waiter_served thousandths settings memory codec signer router signing 120
      keys.event_id three_waiting three three-Holds refl
      (record { rate = omega arith; burst = omega arith; batch_max = omega arith }) refl
      event-IsSlug (omega arith) bob 1 refl refl reloads (omega arith) fair uuids_nonempty asking
      refl refl 60 (omega arith)
