-- ===== src/System/Shifts.antt =====
-- Stretches of a run in which the rate grants more than one token.
use queue_fair.Prelude.{
  ℕ, suc, ◌-◌, ◌*◌, ◌≤◌, ◌<◌, Text, List, [], ◌∷◌, ◌++◌, ◌≡◌, refl, ap, sym, ◌∙◌, arith, length,
}
use mathlib.Core.Path.{ap₂}
use mathlib.Core.List.{append_assoc}
use queue_fair.Redis.{Redis}
use queue_fair.Keys.{EventKeys}
use queue_fair.Ports.{PassIssuer}
use queue_fair.State.{Float}
use queue_fair.Scripts.{token_unit}
use queue_fair.Queue.Runs.{Event, join, ask, admit, park, expire, configure, Timely, end_time}
use queue_fair.Queue.Runs.Progress.Served.{Window, all_events}
use queue_fair.Queue.Runs.Progress.Served
use queue_fair.Repository
use queue_fair.Repository.{Network, delivered, refused, lost}
use queue_fair.Repository.Codec.{JsonCodec}
use queue_fair.Admission.Rounds.{Round}
use queue_fair.Api.{Settings}
use queue_fair.System.{
  Action, joins, asks, ticks, configures, expires, reaching, perform, run, parks_of, events_of,
  trace,
}
use queue_fair.System.Quiet.{AllQuiet, joins-AllQuiet, asks-AllQuiet, parks_of-AllQuiet}
use queue_fair.System.Rate.{Orderly, ends_by}

-- The last clock, if a tick at `now` follows one at `t`.
abbrev pub clock_after : Network → ℕ → ℕ → ℕ
clock_after delivered t now = now
clock_after refused t now = t
clock_after lost t now = now

-- The clock of the last tick that reaches Redis.
abbrev pub last_heard : ℕ → List Action → ℕ
last_heard t [] = t
last_heard t (joins net request bytes ∷ more) = last_heard t more
last_heard t (asks net request ∷ more) = last_heard t more
last_heard t (ticks r ∷ more) = last_heard (clock_after r.popping t r.now_ms) more
last_heard t (configures trips rate burst batch_max ∷ more) = last_heard t more
last_heard t (expires u ∷ more) = last_heard t more

-- A tick that reaches Redis, and then actions with clocks that do not step back and an unchanged
-- configuration, the last tick to reach Redis when more than one token has been granted since.
pub record Shift (rate : ℕ) : Type 0 where
  pub round : Round
  pub heard : round.popping ≡ delivered
  pub actions : List Action
  pub orderly : Orderly round.now_ms actions
  pub long_enough : token_unit < rate * (last_heard round.now_ms actions - round.now_ms)

abbrev pub actions_of : {rate : ℕ} → Shift rate → List Action
actions_of s = ticks s.round ∷ s.actions

abbrev pub all_actions : {rate : ℕ} → List (Shift rate) → List Action
all_actions [] = []
all_actions (s ∷ ss) = actions_of s ++ all_actions ss

end_time-quiet : (t : ℕ) (xs es : List Event) → AllQuiet xs → end_time t (xs ++ es) ≡ end_time t es
end_time-quiet t [] es q = refl
end_time-quiet t (join u ∷ xs) es q = end_time-quiet t xs es q.1
end_time-quiet t (ask u ∷ xs) es q = end_time-quiet t xs es q.1
end_time-quiet t (park u payload ttl ∷ xs) es q = end_time-quiet t xs es q.1
end_time-quiet t (expire u ∷ xs) es q = end_time-quiet t xs es q.1
end_time-quiet t (admit now ∷ xs) es q = absurd (q.0)
end_time-quiet t (configure rate burst batch_max ∷ xs) es q = absurd (q.0)

Timely-quiet : (t : ℕ) (xs es : List Event) → AllQuiet xs → Timely t es → Timely t (xs ++ es)
Timely-quiet t [] es q h = h
Timely-quiet t (join u ∷ xs) es q h = Timely-quiet t xs es q.1 h
Timely-quiet t (ask u ∷ xs) es q h = Timely-quiet t xs es q.1 h
Timely-quiet t (park u payload ttl ∷ xs) es q h = Timely-quiet t xs es q.1 h
Timely-quiet t (expire u ∷ xs) es q h = Timely-quiet t xs es q.1 h
Timely-quiet t (admit now ∷ xs) es q h = absurd (q.0)
Timely-quiet t (configure rate burst batch_max ∷ xs) es q h = absurd (q.0)

clock_after_le : (net : Network) (t now : ℕ) → t ≤ now → clock_after net t now ≤ now
clock_after_le delivered t now le = omega arith
clock_after_le refused t now le = le
clock_after_le lost t now le = omega arith

Orderly-earlier : (s t : ℕ) (actions : List Action) → s ≤ t → Orderly t actions → Orderly s actions
Orderly-earlier s t [] le o = tt
Orderly-earlier s t (joins net request bytes ∷ more) le o = Orderly-earlier s t more le o
Orderly-earlier s t (asks net request ∷ more) le o = Orderly-earlier s t more le o
Orderly-earlier s t (ticks r ∷ more) le o = (omega (arith, le, o.0), o.1)
Orderly-earlier s t (configures trips rate burst batch_max ∷ more) le o = absurd o
Orderly-earlier s t (expires u ∷ more) le o = Orderly-earlier s t more le o

end_time-reaching :
    (net : Network) (t now : ℕ) (es : List Event)
    → end_time t (reaching net (admit now) ++ es) ≡ end_time (clock_after net t now) es
end_time-reaching delivered t now es = refl
end_time-reaching refused t now es = refl
end_time-reaching lost t now es = refl

module _ (F : Float) (settings : Settings) (R : Redis) (J : JsonCodec) (issuer : PassIssuer)
    (ttl : ℕ) (event_id : Text) where
  open R use {Db}

  abbrev keys : EventKeys
  keys = record { event_id = event_id }

  abbrev performed : Action → Db → Db
  performed = perform F settings R J issuer ttl event_id

  abbrev trace_of : List Action → Db → List Event
  trace_of = trace F settings R J issuer ttl event_id

  -- What follows the pop of a tick.
  abbrev pub parked_by : Round → Db → List Event
  parked_by r db =
      parks_of F settings R J issuer ttl event_id r
        (Repository.admit_batch R r.popping event_id r.now_ms db).0

  end_time-trace :
      (actions : List Action) (t : ℕ) (db : Db)
      → Orderly t actions
      → end_time t (trace_of actions db) ≡ last_heard t actions
  unfolding trace events_of
  end_time-trace [] t db o = refl
  end_time-trace (joins net request bytes ∷ more) t db o =
      end_time-quiet t (events_of F settings R J issuer ttl event_id (joins net request bytes) db) _
        (joins-AllQuiet F settings R J issuer ttl event_id net request bytes db)
      ∙ end_time-trace more t (performed (joins net request bytes) db) o
  end_time-trace (asks net request ∷ more) t db o =
      end_time-quiet t (events_of F settings R J issuer ttl event_id (asks net request) db) _
        (asks-AllQuiet F settings R J issuer ttl event_id net request db)
      ∙ end_time-trace more t (performed (asks net request) db) o
  end_time-trace (ticks r ∷ more) t db o =
      ap (λ es. end_time t es)
        (append_assoc (reaching r.popping (admit r.now_ms)) (parked_by r db)
          (trace_of more (performed (ticks r) db)))
      ∙ end_time-reaching r.popping t r.now_ms
          (parked_by r db ++ trace_of more (performed (ticks r) db))
      ∙ end_time-quiet (clock_after r.popping t r.now_ms) (parked_by r db)
          (trace_of more (performed (ticks r) db))
          (parks_of-AllQuiet F settings R J issuer ttl event_id r
            (Repository.admit_batch R r.popping event_id r.now_ms db).0)
      ∙ end_time-trace more (clock_after r.popping t r.now_ms) (performed (ticks r) db) (
          Orderly-earlier (clock_after r.popping t r.now_ms) r.now_ms more
            (clock_after_le r.popping t r.now_ms o.0) o.1)
  end_time-trace (configures trips rate burst batch_max ∷ more) t db o = absurd o
  end_time-trace (expires u ∷ more) t db o = end_time-trace more t (performed (expires u) db) o

  trace-append :
      (a b : List Action) (db : Db)
      → trace_of (a ++ b) db
        ≡ trace_of a db ++ trace_of b (run F settings R J issuer ttl event_id a db)
  unfolding trace run
  trace-append [] b db = refl
  trace-append (x ∷ a) b db =
      ap (λ es. events_of F settings R J issuer ttl event_id x db ++ es)
        (trace-append a b (performed x db))
      ∙ sym (append_assoc (events_of F settings R J issuer ttl event_id x db) _ _)

  -- A shift is a window of the events.
  window_of : {rate : ℕ} → Shift rate → Db → Window rate
  window_of s db =
      let next = performed (ticks s.round) db in
      let quiet =
        parks_of-AllQuiet F settings R J issuer ttl event_id s.round
          (Repository.admit_batch R s.round.popping event_id s.round.now_ms db).0 in
      let ended =
        end_time-quiet s.round.now_ms (parked_by s.round db) (trace_of s.actions next) quiet
        ∙ end_time-trace s.actions s.round.now_ms next s.orderly in
      record {
        start = s.round.now_ms;
        events = parked_by s.round db ++ trace_of s.actions next;
        timely =
            Timely-quiet s.round.now_ms _ _ quiet
              (ends_by F settings R J issuer ttl event_id s.actions s.round.now_ms next
                s.orderly).0;
        long_enough = rw ended s.long_enough;
      }

  pub windows_of : {rate : ℕ} → List (Shift rate) → Db → List (Window rate)
  windows_of [] db = []
  windows_of (s ∷ ss) db =
      window_of s db ∷ windows_of ss (run F settings R J issuer ttl event_id (actions_of s) db)

  pub length-windows_of :
      {rate : ℕ} (ss : List (Shift rate)) (db : Db) → length (windows_of ss db) ≡ length ss
  unfolding windows_of
  length-windows_of [] db = refl
  length-windows_of (s ∷ ss) db = ap suc (length-windows_of ss _)

  shift_events :
      {rate : ℕ} (s : Shift rate) (db : Db)
      → Served.events_of (window_of s db) ≡ trace_of (actions_of s) db
  unfolding window_of trace events_of
  shift_events s db = rw (s.heard) refl

  pub all_events_lem :
      {rate : ℕ} (ss : List (Shift rate)) (db : Db)
      → all_events (windows_of ss db) ≡ trace_of (all_actions ss) db
  unfolding windows_of trace
  all_events_lem [] db = refl
  all_events_lem (s ∷ ss) db =
      ap₂ ◌++◌ (shift_events s db)
        (all_events_lem ss (run F settings R J issuer ttl event_id (actions_of s) db))
      ∙ sym (trace-append (actions_of s) (all_actions ss) db)
