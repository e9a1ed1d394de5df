-- ===== src/Tests/Sales.antt =====
-- Two sales on one server.
use queue_fair.Prelude.{Text, codes, List, [], ◌∷◌, ◌≡◌, refl, update}
use queue_fair.Redis.{View}
use queue_fair.Redis.Memory.{memory}
use queue_fair.Keys
use queue_fair.Keys.{EventKeys}
use queue_fair.Keys.Distinct.{Kind, key_of}
use queue_fair.Validation.{is_valid_event_id}
use queue_fair.Queue.Apart.{Same}
use queue_fair.Queue.Runs.{settings}
use queue_fair.Repository.{delivered, lost}
use queue_fair.Api
use queue_fair.Tokens.Issuer.{issuer}
use queue_fair.System.{Action, joins, ticks, run}
use queue_fair.System.Sales.{own, run_all, Selling}
use queue_fair.System.Sales.Alone.{sale_alone}
use queue_fair.Tests.Data.{keys, three_waiting, three}
use queue_fair.Tests.Inputs.{thousandths, some_bytes}
use queue_fair.Tests.Codecs.{codec, signer}
use queue_fair.Tests.Passes.{signing}
use queue_fair.Tests.Routes
use queue_fair.Tests.Routes.{asking}
use queue_fair.Tests.Service.{joining, broken, round_at}

abbrev second : EventKeys
second = record { event_id = codes "arijit-delhi-2026" }

-- The second sale is open, with no one in line.
abbrev two_sales : View
two_sales = record three_waiting {
  hashes = update three_waiting.hashes (Keys.config second) (settings 60 10 50);
}

sells_first : Selling memory two_sales keys.event_id
unfolding is_valid_event_id
sells_first = record {
  valid = refl;
  line = three;
  in_step = record {
    members = refl;
    issued = refl;
    counted = refl;
    distinct = (refl, (refl, (refl, tt)));
  };
  live = refl;
}

sells_second : Selling memory two_sales second.event_id
unfolding is_valid_event_id
sells_second = record {
  valid = refl;
  line = record { admitted = 0; waiting = [] };
  in_step = record { members = refl; issued = refl; counted = refl; distinct = tt };
  live = refl;
}

abbrev evening : List (Text × Action)
evening =
    (keys.event_id, joins delivered joining some_bytes)
    ∷ (second.event_id, joins lost joining some_bytes)
    ∷ (keys.event_id, ticks broken)
    ∷ (second.event_id, ticks (round_at 1060000))
    ∷ []

sale_alone_example :
    Same
      (key_of Kind.queue keys)
      (run thousandths Routes.settings memory codec
        (issuer signer signing)
        120
        keys.event_id
        (own keys.event_id evening)
        two_sales)
      (run_all thousandths Routes.settings memory codec
        (issuer signer signing)
        120
        evening
        two_sales)
    × ((Api.position thousandths Routes.settings keys.event_id memory codec delivered asking (
          run_all thousandths Routes.settings memory codec
            (issuer signer signing)
            120
            evening
            two_sales)).0
        ≡ (Api.position thousandths Routes.settings keys.event_id memory codec delivered asking (
            run thousandths Routes.settings memory codec
              (issuer signer signing)
              120
              keys.event_id
              (own keys.event_id evening)
              two_sales)).0)
    × ((Api.join thousandths Routes.settings keys.event_id memory delivered joining some_bytes (
          run_all thousandths Routes.settings memory codec
            (issuer signer signing)
            120
            evening
            two_sales)).0
        ≡ (Api.join thousandths Routes.settings keys.event_id memory delivered joining some_bytes (
            run thousandths Routes.settings memory codec
              (issuer signer signing)
              120
              keys.event_id
              (own keys.event_id evening)
              two_sales)).0)
sale_alone_example =
    sale_alone thousandths Routes.settings memory codec (issuer signer signing) 120 evening
      two_sales (sells_first, (sells_second, (sells_first, (sells_second, tt)))) keys.event_id
      sells_first Kind.queue delivered asking joining some_bytes
