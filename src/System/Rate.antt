-- ===== src/System/Rate.antt =====
-- How many passes a run of the service hands out.
use queue_fair.Prelude.{ℕ, ◌≤◌, Text, List, [], ◌∷◌, ◌++◌, sym, arith}
use mathlib.Core.Path.{subst}
use mathlib.Core.List.{append_assoc}
use queue_fair.Redis.{Redis}
use queue_fair.Ports.{PassIssuer}
use queue_fair.State.{Float}
use queue_fair.Queue.Runs.{Event, join, ask, admit, park, expire, configure, Timely, end_time}
use queue_fair.Repository.{Network, delivered, refused, lost}
use queue_fair.Repository.Codec.{JsonCodec}
use queue_fair.Api.{Settings}
use queue_fair.System.{
  Action, joins, asks, ticks, configures, expires, reaching, perform, events_of, trace,
}
use queue_fair.System.Quiet.{AllQuiet, joins-AllQuiet, asks-AllQuiet, parks_of-AllQuiet}

-- The clocks of the ticks do not step back from `t` on, and no one reconfigures.
abbrev pub Orderly : ℕ → List Action → Type 0
Orderly t [] = Unit
Orderly t (joins net request bytes ∷ more) = Orderly t more
Orderly t (asks net request ∷ more) = Orderly t more
Orderly t (ticks r ∷ more) = (t ≤ r.now_ms) × Orderly r.now_ms more
Orderly t (configures trips rate burst batch_max ∷ more) = ⊥
Orderly t (expires u ∷ more) = Orderly t more

-- The clock of the last tick.
abbrev pub last_clock : ℕ → List Action → ℕ
last_clock t [] = t
last_clock t (joins net request bytes ∷ more) = last_clock t more
last_clock t (asks net request ∷ more) = last_clock t more
last_clock t (ticks r ∷ more) = last_clock r.now_ms more
last_clock t (configures trips rate burst batch_max ∷ more) = last_clock t more
last_clock t (expires u ∷ more) = last_clock t more

-- Events that are timely up to a time.
record Until (t u : ℕ) (es : List Event) : Type 0 where
  timely : Timely t es
  ends : end_time t es ≤ u

Until-weaken : (t s u : ℕ) (es : List Event) → s ≤ t → t ≤ u → Until t u es → Until s u es
Until-weaken t s u [] le le' h = record { timely = tt; ends = omega arith }
Until-weaken t s u (admit now ∷ es) le le' h = record {
  timely = (omega (arith, h.timely.0), h.timely.1);
  ends = h.ends;
}
Until-weaken t s u (configure rate burst batch_max ∷ es) le le' h = absurd h.timely
Until-weaken t s u (join v ∷ es) le le' h =
    let r = Until-weaken t s u es le le' (record { timely = h.timely; ends = h.ends }) in
    record { timely = r.timely; ends = r.ends }
Until-weaken t s u (ask v ∷ es) le le' h =
    let r = Until-weaken t s u es le le' (record { timely = h.timely; ends = h.ends }) in
    record { timely = r.timely; ends = r.ends }
Until-weaken t s u (park v p ttl ∷ es) le le' h =
    let r = Until-weaken t s u es le le' (record { timely = h.timely; ends = h.ends }) in
    record { timely = r.timely; ends = r.ends }
Until-weaken t s u (expire v ∷ es) le le' h =
    let r = Until-weaken t s u es le le' (record { timely = h.timely; ends = h.ends }) in
    record { timely = r.timely; ends = r.ends }

Orderly-last : (t : ℕ) (more : List Action) → Orderly t more → t ≤ last_clock t more
Orderly-last t [] h = omega arith
Orderly-last t (joins net request bytes ∷ more) h = Orderly-last t more h
Orderly-last t (asks net request ∷ more) h = Orderly-last t more h
Orderly-last t (ticks r ∷ more) h = omega (arith, h.0, Orderly-last r.now_ms more h.1)
Orderly-last t (configures trips rate burst batch_max ∷ more) h = absurd h
Orderly-last t (expires u ∷ more) h = Orderly-last t more h

module _ (F : Float) (settings : Settings) (R : Redis) (J : JsonCodec) (issuer : PassIssuer)
    (ttl : ℕ) (event_id : Text) where
  open R use {Db, view}

  Until-quiet : (t u : ℕ) (xs es : List Event) → AllQuiet xs → Until t u es → Until t u (xs ++ es)
  Until-quiet t u [] es q h = h
  Until-quiet t u (join v ∷ xs) es q h =
      let r = Until-quiet t u xs es q.1 h in record { timely = r.timely; ends = r.ends }
  Until-quiet t u (ask v ∷ xs) es q h =
      let r = Until-quiet t u xs es q.1 h in record { timely = r.timely; ends = r.ends }
  Until-quiet t u (park v p life ∷ xs) es q h =
      let r = Until-quiet t u xs es q.1 h in record { timely = r.timely; ends = r.ends }
  Until-quiet t u (expire v ∷ xs) es q h =
      let r = Until-quiet t u xs es q.1 h in record { timely = r.timely; ends = r.ends }
  Until-quiet t u (admit now ∷ xs) es q h = absurd (q.0)
  Until-quiet t u (configure rate burst batch_max ∷ xs) es q h = absurd (q.0)

  Until-reaching :
      (net : Network) (t u now : ℕ) (es : List Event)
      → t ≤ now
      → now ≤ u
      → Until now u es
      → Until t u (reaching net (admit now) ++ es)
  Until-reaching delivered t u now es le le' h = record { timely = (le, h.timely); ends = h.ends }
  Until-reaching refused t u now es le le' h = Until-weaken now t u es le le' h
  Until-reaching lost t u now es le le' h = record { timely = (le, h.timely); ends = h.ends }

  -- A run with orderly clocks has a timely trace.
  Until-trace :
      (actions : List Action) (t : ℕ) (db : Db)
      → Orderly t actions
      → Until t (last_clock t actions) (trace F settings R J issuer ttl event_id actions db)
  unfolding trace events_of
  Until-trace [] t db o = record { timely = tt; ends = omega arith }
  Until-trace (joins net request bytes ∷ more) t db o =
      Until-quiet t _ _ _ (joins-AllQuiet F settings R J issuer ttl event_id net request bytes db) (
        Until-trace more t (perform F settings R J issuer ttl event_id (joins net request bytes) db)
          o)
  Until-trace (asks net request ∷ more) t db o =
      Until-quiet t _ _ _ (asks-AllQuiet F settings R J issuer ttl event_id net request db)
        (Until-trace more t (perform F settings R J issuer ttl event_id (asks net request) db) o)
  Until-trace (ticks r ∷ more) t db o =
      let next = perform F settings R J issuer ttl event_id (ticks r) db in
      let rest = Until-trace more r.now_ms next o.1 in
      subst (Until t (last_clock r.now_ms more))
        (sym (append_assoc (reaching r.popping (admit r.now_ms)) _ _))
        (Until-reaching r.popping t _ r.now_ms _ o.0 (Orderly-last r.now_ms more o.1) (
          Until-quiet r.now_ms _ _ _ (parks_of-AllQuiet F settings R J issuer ttl event_id r _)
            rest))
  Until-trace (configures trips rate burst batch_max ∷ more) t db o = absurd o
  Until-trace (expires v ∷ more) t db o =
      let rest = Until-trace more t (perform F settings R J issuer ttl event_id (expires v) db) o in
      record { timely = rest.timely; ends = rest.ends }

  -- When the trace of a run ends.
  pub ends_by :
      (actions : List Action) (t : ℕ) (db : Db)
      → Orderly t actions
      → Timely t (trace F settings R J issuer ttl event_id actions db)
        × (end_time t (trace F settings R J issuer ttl event_id actions db) ≤ last_clock t actions)
  ends_by actions t db o = let u = Until-trace actions t db o in (u.timely, u.ends)
