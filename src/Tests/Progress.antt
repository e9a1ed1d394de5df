-- ===== src/Tests/Progress.antt =====
-- Three windows on the event with three waiting tokens, and the loop over a failing network.
use queue_fair.Prelude.{◌+◌, Text, some, List, [], ◌∷◌, ◌++◌, ◌≡◌, refl, arith, length, map}
use queue_fair.Redis.Memory.{memory}
use queue_fair.Scripts.{flat}
use queue_fair.Queue.{Line, Holds, numbered, index_of}
use queue_fair.Queue.Runs.{join, admit, log, IsLive}
use queue_fair.Queue.Runs.Progress.Served.{served, Window, all_events}
use queue_fair.Repository.{delivered, refused, lost}
use queue_fair.Admission.{run_forever}
use queue_fair.Admission.Rounds.{Round, tick_of, run_forever-Holds}
use queue_fair.Tokens.Issuer.{issuer}
use queue_fair.Tests.Data.{keys, eve, new, three_waiting, three, three-Holds}
use queue_fair.Tests.Codecs.{codec, signer}
use queue_fair.Tests.Passes.{signing}

-- Two ticks, 601 ms apart: at 100 a minute, just over one token. Someone joins between.
abbrev first : Window 100
first = record {
  start = 1000000;
  events = join new ∷ admit 1000601 ∷ [];
  timely = (omega arith, tt);
  long_enough = omega arith;
}

abbrev second : Window 100
second = record {
  start = 1000700;
  events = admit 1001301 ∷ [];
  timely = (omega arith, tt);
  long_enough = omega arith;
}

abbrev third : Window 100
third = record {
  start = 1001301;
  events = admit 1001902 ∷ [];
  timely = (omega arith, tt);
  long_enough = omega arith;
}

abbrev windows : List (Window 100)
windows = first ∷ second ∷ third ∷ []

-- The last of the three.
served_example :
    (gone : List Text) × (log memory keys (all_events windows) three_waiting
      ≡ flat (numbered 8 gone))
    × (index_of eve gone ≡ some 2)
served_example =
    served memory keys three_waiting three three-Holds refl
      (record { rate = omega arith; burst = omega arith; batch_max = omega arith }) eve 2 refl
      windows (omega arith)

-- A round without a server, one whose pipeline breaks after the first SET, and one that is served.
abbrev rounds : List Round
rounds =
    record {
      popping = refused;
      parking = delivered;
      sent = 0;
      now_ms = 1000000;
      uuid = λ n. n ∷ [];
    }
    ∷ record { popping = delivered; parking = lost; sent = 1; now_ms = 1001000; uuid = λ n. n ∷ [] }
    ∷ record {
      popping = delivered;
      parking = delivered;
      sent = 0;
      now_ms = 1002000;
      uuid = λ n. n ∷ [];
    }
    ∷ []

run_forever-Holds_example :
    (after : Line) × (gone : List Text) × (length
        (run_forever
          (issuer signer signing)
          120
          keys.event_id
          (map (tick_of memory codec (issuer signer signing) 120 keys.event_id) rounds)
          three_waiting).0
      ≡ 3)
    × Holds
        (run_forever
          (issuer signer signing)
          120
          keys.event_id
          (map (tick_of memory codec (issuer signer signing) 120 keys.event_id) rounds)
          three_waiting).1
        keys
        after
    × IsLive
        (run_forever
          (issuer signer signing)
          120
          keys.event_id
          (map (tick_of memory codec (issuer signer signing) 120 keys.event_id) rounds)
          three_waiting).1
        keys
    × (gone ++ after.waiting ≡ three.waiting)
    × (after.admitted ≡ 7 + length gone)
run_forever-Holds_example =
    run_forever-Holds memory codec (issuer signer signing) 120 keys.event_id rounds three_waiting
      three three-Holds refl
