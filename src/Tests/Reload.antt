-- ===== src/Tests/Reload.antt =====
-- A client joins and reloads.
use queue_fair.Prelude.{
  Text, ℕ, List, ◌++◌, ap, codes, true, false, some, [], ◌∷◌, ◌≡◌, refl, arith,
}
use queue_fair.Redis.Memory.{memory}
use queue_fair.Validation.{is_valid_queue_token, is_valid_event_id, new_queue_token, token_hex}
use queue_fair.Repository.{delivered, lost}
use queue_fair.Repository.Replies.{outcome_of}
use queue_fair.Api
use queue_fair.Api.{
  Request, Response, Settings, token_for, queue_token_from, accepted, last_value, cookie_name,
}
use queue_fair.Api.Sent.{after, join_sent, unavailable_sent}
use queue_fair.Api.Refresh.{join_refresh}
use queue_fair.Api.Ghost.{join_lost_twice}
use queue_fair.Queue.{Holds}
use queue_fair.Tests.Data.{keys, three_waiting, three, three-Holds}
use queue_fair.Tests.Inputs.{thousandths, some_bytes}

abbrev settings : Settings
settings = record { max_age = 86400; secure = true }

abbrev first : Request
first = record { method = codes "POST"; cookies = []; query = [] }

abbrev token : Text
token = codes "000102030405060708090a0b0c0dfeff"

-- With an older cookie, which the response replaces.
abbrev again : Request
again = record first { cookies = (codes "qf_" ++ keys.event_id, codes "old") ∷ [] }

minted : token_for first keys.event_id some_bytes ≡ token
unfolding token_for queue_token_from accepted new_queue_token token_hex
minted = refl

-- A fourth token gets the sequence 11.
join_refresh_example :
    ((Api.join thousandths settings keys.event_id memory delivered first some_bytes three_waiting).0
      ≡ some (
          join_sent thousandths settings keys.event_id (token_for first keys.event_id some_bytes) (
            outcome_of memory keys.event_id three_waiting
              (token_for first keys.event_id some_bytes)
              three)))
    × (Api.join thousandths settings keys.event_id memory delivered
          (after
            (Api.join thousandths settings keys.event_id memory delivered first some_bytes
              three_waiting).0
            again)
          some_bytes
          (Api.join thousandths settings keys.event_id memory delivered first some_bytes
            three_waiting).1
        ≡ (
          some (
              join_sent thousandths settings keys.event_id
                (token_for first keys.event_id some_bytes)
                (record (outcome_of memory keys.event_id three_waiting
                  (token_for first keys.event_id some_bytes)
                  three) { joined = false })),
          (Api.join thousandths settings keys.event_id memory delivered first some_bytes
              three_waiting).1,
        ))
unfolding token_for queue_token_from accepted new_queue_token token_hex is_valid_event_id
join_refresh_example =
    join_refresh thousandths settings keys.event_id memory three_waiting three three-Holds refl
      first again some_bytes some_bytes refl refl refl refl (omega arith)

abbrev other_bytes : List ℕ
other_bytes = 1 ∷ 1 ∷ 2 ∷ 3 ∷ 4 ∷ 5 ∷ 6 ∷ 7 ∷ 8 ∷ 9 ∷ 10 ∷ 11 ∷ 12 ∷ 13 ∷ 254 ∷ 255 ∷ []

abbrev first_byte : List ℕ → ℕ
first_byte [] = 0
first_byte (b ∷ bs) = b

other_minted : new_queue_token other_bytes ≡ codes "010102030405060708090a0b0c0dfeff"
unfolding new_queue_token token_hex
other_minted = refl

join_lost_twice_example :
    ((Api.join thousandths settings keys.event_id memory lost first some_bytes three_waiting).0
      ≡ some unavailable_sent)
    × ((Api.join thousandths settings keys.event_id memory delivered first other_bytes
          (Api.join thousandths settings keys.event_id memory lost first some_bytes
            three_waiting).1).0
        ≡ some (
            join_sent thousandths settings keys.event_id (new_queue_token other_bytes) (record {
              sequence = 12;
              joined = true;
              total_waiting = 5;
              admitted_total = 7;
              rate_per_min = 100;
            })))
    × Holds
        (Api.join thousandths settings keys.event_id memory delivered first other_bytes
          (Api.join thousandths settings keys.event_id memory lost first some_bytes
            three_waiting).1).1
        keys
        (record three {
          waiting = three.waiting ++ new_queue_token some_bytes ∷ new_queue_token other_bytes ∷ [];
        })
unfolding queue_token_from accepted new_queue_token token_hex is_valid_event_id
join_lost_twice_example =
    join_lost_twice thousandths settings keys.event_id memory three_waiting three three-Holds refl
      first first some_bytes other_bytes refl refl refl refl refl (omega arith) (omega arith)
      (λ e. absurd (omega (arith, ap first_byte e))) refl refl

-- The last value of a repeated parameter counts.
last_counts :
    queue_token_from
      (record first { query = (codes "t", codes "old") ∷ (codes "t", token) ∷ [] })
      keys.event_id
    ≡ some token
unfolding queue_token_from accepted last_value is_valid_queue_token
last_counts = refl
