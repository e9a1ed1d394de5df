-- ===== src/System/Kept/Over.antt =====
-- A token over a run in which it does not join again and its pass does not expire.
use queue_fair.Prelude.{
  ◌<◌, ℕ, ◌/◌, Text, codes, false, Option, none, some, List, [], ◌∷◌, ◌≡◌, refl, sym, ◌⊎◌, not,
  text_eq, inl, inr,
}
use mathlib.Core.Path.{subst}
use mathlib.Core.List.{Memᴰ}
use queue_fair.Redis.{Redis, All}
use queue_fair.Keys.{EventKeys}
use queue_fair.Ports.{PassIssuer}
use queue_fair.State.{Float}
use queue_fair.Validation.{is_valid_event_id}
use queue_fair.Queue.{Line, Holds}
use queue_fair.Queue.Runs.{Event, join, ask, admit, step, final, IsLive}
use queue_fair.Queue.Runs.Step.{line_after, step-Stepped}
use queue_fair.Repository.{Network, delivered, refused}
use queue_fair.Repository.Codec.{JsonCodec}
use queue_fair.Admission.Rounds.{Round}
use queue_fair.Api.{Settings, queue_token_from, token_for}
use queue_fair.System.{
  Action, joins, asks, ticks, configures, expires, perform, run, asked_by, events_of,
}
use queue_fair.System.Quiet.{All-branch, All-reaching}
use queue_fair.System.Trace.{perform-events}
use queue_fair.System.Kept.{Kept, Spares, Kept-step}
use queue_fair.System.Kept.Tick.{Kept-tick, Holds-tick, IsLive-tick, tick_refused}

-- The round trips of a tick that pops are delivered.
abbrev pub Reliable : Round → Type 0
Reliable r = (r.popping ≡ refused) ⊎ ((r.popping ≡ delivered) × (r.parking ≡ delivered))

-- An action that leaves a token to the ticks.
abbrev pub Leaves : Text → Text → Action → Type 0
Leaves event_id t (joins net request bytes) = text_eq (token_for request event_id bytes) t ≡ false
Leaves event_id t (asks net request) = Unit
Leaves event_id t (ticks r) = Reliable r
Leaves event_id t (configures trips rate burst batch_max) = ⊥
Leaves event_id t (expires u) = text_eq u t ≡ false

module _ (F : Float) (settings : Settings) (R : Redis) (J : JsonCodec) (issuer : PassIssuer)
    (ttl : ℕ) (event_id : Text) (t : Text) (Source : Round → Type 0) (place : ℕ)
    (names : (u jti : Text) (now : ℕ) → (issuer.issue event_id u now jti).queue_token ≡ u) where
  open R use {Db, view}

  abbrev keys : EventKeys
  keys = record { event_id = event_id }

  -- The keys are in step, and the token is kept.
  pub record Tracked (db : Db) : Type 0 where
    pub line : Line
    pub in_step : Holds (view db) keys line
    pub live : IsLive (view db) keys
    pub kept : Kept R J issuer ttl event_id t Source place line (view db)

  abbrev Sparing : Event → Type 0
  Sparing = Spares R J issuer ttl event_id t

  Tracked-events :
      (es : List Event) (db : Db) → All Sparing es → Tracked db → Tracked (final R keys es db)
  unfolding final
  Tracked-events [] db s k = k
  Tracked-events (e ∷ es) db s k =
      let st = step-Stepped R keys db k.line k.in_step k.live e in
      Tracked-events es (step R keys e db).1 s.1 (record {
        line = line_after R keys e db k.line;
        in_step = st.in_step;
        live = st.live;
        kept =
            Kept-step R J issuer ttl event_id t Source place e db k.line s.0 k.in_step k.live
              k.kept;
      })

  asked_by-Sparing :
      (net : Network) (o : Option Text)
      → All Sparing (asked_by F settings R J issuer ttl event_id net o)
  asked_by-Sparing net none = tt
  asked_by-Sparing net (some u) = All-reaching Sparing net (ask u) tt

  via_events :
      (a : Action) (db : Db)
      → All Sparing (events_of F settings R J issuer ttl event_id a db)
      → Tracked db
      → Tracked (perform F settings R J issuer ttl event_id a db)
  via_events a db s k =
      subst Tracked (sym (perform-events F settings R J issuer ttl event_id a db))
        (Tracked-events (events_of F settings R J issuer ttl event_id a db) db s k)

  Tracked-tick :
      (r : Round) (db : Db)
      → 0 < ttl
      → Source r
      → Reliable r
      → Tracked db
      → Tracked (perform F settings R J issuer ttl event_id (ticks r) db)
  Tracked-tick r db lives source (inl unheard) k =
      subst Tracked (sym (tick_refused F settings R J issuer ttl event_id r db unheard)) k
  Tracked-tick r db lives source (inr (popping, parking)) k = record {
    line = line_after R keys (admit r.now_ms) db k.line;
    in_step =
        Holds-tick F settings R J issuer ttl event_id db k.line k.in_step k.live r popping parking;
    live =
        IsLive-tick F settings R J issuer ttl event_id db k.line k.in_step k.live r popping parking;
    kept =
        Kept-tick F settings R J issuer ttl event_id db k.line k.in_step k.live r t Source place
          source (λ u jti. names u jti (r.now_ms / 1000)) popping parking lives k.kept;
  }

  Tracked-perform :
      (a : Action) (db : Db)
      → 0 < ttl
      → ((r : Round) → ticks r ≡ a → Source r)
      → Leaves event_id t a
      → Tracked db
      → Tracked (perform F settings R J issuer ttl event_id a db)
  unfolding events_of
  Tracked-perform (joins net request bytes) db lives source l k =
      via_events _ db
        (All-branch Sparing (not (text_eq request.method (codes "POST"))) _ _ tt (
          All-branch Sparing (not (is_valid_event_id event_id)) _ _ tt
            (All-reaching Sparing net (join (token_for request event_id bytes)) l)))
        k
  Tracked-perform (asks net request) db lives source l k =
      via_events _ db
        (All-branch Sparing (not (text_eq request.method (codes "GET"))) _ _ tt (
          All-branch Sparing (not (is_valid_event_id event_id)) _ _ tt
            (asked_by-Sparing net (queue_token_from request event_id))))
        k
  Tracked-perform (ticks r) db lives source l k = Tracked-tick r db lives (source r refl) l k
  Tracked-perform (configures trips rate burst batch_max) db lives source l k = absurd l
  Tracked-perform (expires u) db lives source l k = via_events (expires u) db (l, tt) k

  pub Tracked-run :
      (actions : List Action) (db : Db)
      → 0 < ttl
      → ((r : Round) → Memᴰ (ticks r) actions → Source r)
      → All (Leaves event_id t) actions
      → Tracked db
      → Tracked (run F settings R J issuer ttl event_id actions db)
  unfolding run
  Tracked-run [] db lives source l k = k
  Tracked-run (a ∷ more) db lives source l k =
      Tracked-run more _ lives (λ r m. source r (Memᴰ.tail m)) l.1
        (Tracked-perform a db lives (λ r e. source r (Memᴰ.head e)) l.0 k)
