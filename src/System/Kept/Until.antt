-- ===== src/System/Kept/Until.antt =====
-- A token over a run, up to the tick that pops it, whatever it does meanwhile.
use queue_fair.Prelude.{
  ◌<◌, ℕ, ◌/◌, Text, none, List, [], ◌∷◌, ◌++◌, ◌≡◌, refl, ap, sym, ◌⊎◌, inl, inr,
}
use mathlib.Core.Path.{subst}
use queue_fair.Redis.{Redis, All}
use queue_fair.Keys.{EventKeys}
use queue_fair.Ports.{PassIssuer}
use queue_fair.State.{Float}
use queue_fair.Queue.{Line, Holds, index_of}
use queue_fair.Queue.Runs.{admit, IsLive}
use queue_fair.Queue.Runs.Step.{line_after}
use queue_fair.Repository.{delivered}
use queue_fair.Repository.Codec.{JsonCodec}
use queue_fair.Admission.Rounds.{Round}
use queue_fair.Api.{Settings}
use queue_fair.System.{Action, joins, asks, ticks, configures, expires, perform, run, events_of}
use queue_fair.System.Quiet.{AllQuiet, joins-AllQuiet, asks-AllQuiet}
use queue_fair.System.Trace.{perform-events}
use queue_fair.System.Kept.{Collectable}
use queue_fair.System.Kept.Over.{Reliable}
use queue_fair.System.Kept.Tick.{Kept-tick, Holds-tick, IsLive-tick, tick_refused}
use queue_fair.System.Kept.Waits.{Waits, Waits-events}

-- Any action but a new configuration, with the round trips of a tick that pops delivered.
abbrev pub Fair : Action → Type 0
Fair (joins net request bytes) = Unit
Fair (asks net request) = Unit
Fair (ticks r) = Reliable r
Fair (configures trips rate burst batch_max) = ⊥
Fair (expires u) = Unit

module _ (F : Float) (settings : Settings) (R : Redis) (J : JsonCodec) (issuer : PassIssuer)
    (ttl : ℕ) (event_id : Text) (t : Text) (place : ℕ)
    (names : (u jti : Text) (now : ℕ) → (issuer.issue event_id u now jti).queue_token ≡ u) where
  open R use {Db, view}

  abbrev keys : EventKeys
  keys = record { event_id = event_id }

  abbrev Waiting : Db → Type 0
  Waiting = Waits R event_id t place

  -- A tick of the run popped it, and stored its pass.
  pub record Popped (actions : List Action) (db : Db) : Type 0 where
    pub earlier : List Action
    pub round : Round
    pub later : List Action
    pub split : earlier ++ (ticks round ∷ later) ≡ actions
    pub line : Line
    pub in_step :
        Holds
          (view (
            perform F settings R J issuer ttl event_id
              (ticks round)
              (run F settings R J issuer ttl event_id earlier db)))
          keys
          line
    pub live :
        IsLive
          (view (
            perform F settings R J issuer ttl event_id
              (ticks round)
              (run F settings R J issuer ttl event_id earlier db)))
          keys
    pub gone : index_of t line.waiting ≡ none
    pub collectable :
        Collectable R J issuer ttl event_id t
          (λ r. r ≡ round)
          (view (
            perform F settings R J issuer ttl event_id
              (ticks round)
              (run F settings R J issuer ttl event_id earlier db)))

  Waits-quiet :
      (a : Action) (db : Db)
      → AllQuiet (events_of F settings R J issuer ttl event_id a db)
      → Waiting db
      → Waiting (perform F settings R J issuer ttl event_id a db)
  Waits-quiet a db quiet w =
      subst Waiting (sym (perform-events F settings R J issuer ttl event_id a db)) (
        Waits-events R event_id t place (events_of F settings R J issuer ttl event_id a db) db quiet
          w)

  -- The tick at the head of a run.
  Popped-here :
      (r : Round) (more : List Action) (db : Db) (w : Waiting db)
      → 0 < ttl
      → r.popping ≡ delivered
      → r.parking ≡ delivered
      → Waiting (perform F settings R J issuer ttl event_id (ticks r) db)
        ⊎ Popped (ticks r ∷ more) db
  unfolding run
  Popped-here r more db w lives popping parking =
      let after = line_after R keys (admit r.now_ms) db w.line in
      let in_step =
        Holds-tick F settings R J issuer ttl event_id db w.line w.in_step w.live r popping
          parking in
      let live =
        IsLive-tick F settings R J issuer ttl event_id db w.line w.in_step w.live r popping
          parking in
      elim (Kept-tick F settings R J issuer ttl event_id db w.line w.in_step w.live r t (λ x. x ≡ r)
        place refl (λ u jti. names u jti (r.now_ms / 1000)) popping parking lives
        (inl (w.index, w.here, w.due))) [
          | inl (i, here, due) ↦ inl (record {
            line = after;
            in_step = in_step;
            live = live;
            index = i;
            here = here;
            due = due;
          })
          | inr (gone, c) ↦ inr (record {
            earlier = [];
            round = r;
            later = more;
            split = refl;
            line = after;
            in_step = in_step;
            live = live;
            gone = gone;
            collectable = c;
          })
        ]

  Waits-or-Popped_tick :
      (r : Round) (more : List Action) (db : Db)
      → 0 < ttl
      → Reliable r
      → Waiting db
      → Waiting (perform F settings R J issuer ttl event_id (ticks r) db)
        ⊎ Popped (ticks r ∷ more) db
  Waits-or-Popped_tick r more db lives (inl unheard) w =
      inl (subst Waiting (sym (tick_refused F settings R J issuer ttl event_id r db unheard)) w)
  Waits-or-Popped_tick r more db lives (inr (popping, parking)) w =
      Popped-here r more db w lives popping parking

  Popped-later :
      (a : Action) (more : List Action) (db : Db)
      → Popped more (perform F settings R J issuer ttl event_id a db)
      → Popped (a ∷ more) db
  unfolding run
  Popped-later a more db p = record {
    earlier = a ∷ p.earlier;
    round = p.round;
    later = p.later;
    split = ap (λ l. a ∷ l) p.split;
    line = p.line;
    in_step = p.in_step;
    live = p.live;
    gone = p.gone;
    collectable = p.collectable;
  }

  act :
      (a : Action) (more : List Action) (db : Db)
      → 0 < ttl
      → Fair a
      → Waiting db
      → Waiting (perform F settings R J issuer ttl event_id a db) ⊎ Popped (a ∷ more) db
  unfolding events_of
  act (joins net request bytes) more db lives fair w = inl (
      Waits-quiet (joins net request bytes) db
        (joins-AllQuiet F settings R J issuer ttl event_id net request bytes db) w)
  act (asks net request) more db lives fair w = inl (
      Waits-quiet (asks net request) db
        (asks-AllQuiet F settings R J issuer ttl event_id net request db) w)
  act (ticks r) more db lives fair w = Waits-or-Popped_tick r more db lives fair w
  act (configures trips rate burst batch_max) more db lives fair w = absurd fair
  act (expires u) more db lives fair w = inl (Waits-quiet (expires u) db (tt, tt) w)

  -- It waits after the run, or one of its ticks popped it.
  pub Waits-or-Popped :
      (actions : List Action) (db : Db)
      → 0 < ttl
      → All Fair actions
      → Waiting db
      → Waiting (run F settings R J issuer ttl event_id actions db) ⊎ Popped actions db
  unfolding run
  Waits-or-Popped [] db lives fair w = inl w
  Waits-or-Popped (a ∷ more) db lives fair w = elim (act a more db lives fair.0 w) [
    | inr popped ↦ inr popped
    | inl still ↦
        elim (Waits-or-Popped more (perform F settings R J issuer ttl event_id a db) lives fair.1
          still) [ inl waits ↦ inl waits | inr popped ↦ inr (Popped-later a more db popped) ]
  ]
