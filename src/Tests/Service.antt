-- ===== src/Tests/Service.antt =====
-- The service over the event with three waiting tokens: requests, ticks and an expiry.
use queue_fair.Prelude.{ℕ, ◌+◌, ◌*◌, ◌-◌, ◌≤◌, codes, List, [], ◌∷◌, ◌≡◌, refl, arith}
use queue_fair.Redis.Memory.{memory}
use queue_fair.Repository.{delivered, refused, lost}
use queue_fair.Admission.Rounds.{Round}
use queue_fair.Api.{Request}
use queue_fair.Queue.Runs.{final}
use queue_fair.Queue.Runs.Rate.{admitted_total}
use queue_fair.Tokens.Issuer.{issuer}
use queue_fair.System.{Action, joins, asks, ticks, expires, run, trace}
use queue_fair.System.Trace.{run-trace}
use queue_fair.System.Passes.{passes_within}
use queue_fair.System.Passes.Count.{parked}
use queue_fair.Tests.Data.{keys, ada, three_waiting, three, three-Holds}
use queue_fair.Tests.Inputs.{thousandths, some_bytes}
use queue_fair.Tests.Codecs.{codec, signer}
use queue_fair.Tests.Passes.{signing, uuid}
use queue_fair.Tests.Routes.{settings, asking}

abbrev pub joining : Request
joining = record { method = codes "POST"; cookies = []; query = [] }

abbrev pub round_at : ℕ → Round
round_at now = record {
  popping = delivered;
  parking = delivered;
  sent = 0;
  now_ms = now;
  uuid = uuid;
}

-- No server, and a pipeline that breaks after one pass.
abbrev pub unheard : Round
unheard = record (round_at 1000200) { popping = refused }

abbrev pub broken : Round
broken = record (round_at 1060000) { parking = lost; sent = 1 }

abbrev morning : List Action
morning =
    joins lost joining some_bytes
    ∷ ticks unheard
    ∷ asks delivered asking
    ∷ ticks broken
    ∷ expires ada
    ∷ asks delivered asking
    ∷ []

run-trace_example :
    run thousandths settings memory codec
      (issuer signer signing)
      120
      keys.event_id
      morning
      three_waiting
    ≡ final memory keys
        (trace thousandths settings memory codec
          (issuer signer signing)
          120
          keys.event_id
          morning
          three_waiting)
        three_waiting
run-trace_example =
    run-trace thousandths settings memory codec (issuer signer signing) 120 keys.event_id morning
      three_waiting

-- A minute at a rate of 100 with a burst of 2.
passes_within_example :
    (parked (
          trace thousandths settings memory codec
            (issuer signer signing)
            120
            keys.event_id
            morning
            three_waiting)
        + 7
      ≤ admitted_total memory keys (
          run thousandths settings memory codec
            (issuer signer signing)
            120
            keys.event_id
            morning
            three_waiting))
    × (60000
          * admitted_total memory keys (
              run thousandths settings memory codec
                (issuer signer signing)
                120
                keys.event_id
                morning
                three_waiting)
        ≤ 60000 * 7 + 60000 * 2 + 100 * (1060000 - 1000000))
passes_within_example =
    passes_within thousandths settings memory codec (issuer signer signing) 120 keys.event_id
      morning three_waiting three 1000000 three-Holds refl (omega arith, (omega arith, tt))
