-- ===== src/Queue/Runs/Progress/Served.antt =====
-- The place in the queue and the number of windows that it takes.
use queue_fair.Prelude.{
  ℕ, suc, ◌+◌, ◌-◌, ◌*◌, ◌≤◌, ◌<◌, Text, codes, some, List, [], ◌∷◌, ◌++◌, ◌≡◌, refl, ap, false,
  ltb, ltb→lt, ◌∙◌, arith, length, length-append, Option-cases, Bool-cases, inl, inr, text_eq,
}
use Prim.Native.Nat.{min}
use queue_fair.Redis.{Redis}
use queue_fair.Keys.{EventKeys}
use queue_fair.Scripts.{token_unit, flat}
use queue_fair.Queue.{Line, Holds, numbered, index_of}
use queue_fair.Queue.Places.{index_of-more, index_of-lt}
use queue_fair.Queue.Admit.{config_of}
use queue_fair.Queue.Runs.{Event, admit, configure, step, final, log, IsLive, Timely, end_time}
use queue_fair.Queue.Runs.Step.{rate_of, step-Stepped, line_after}
use queue_fair.Queue.Runs.Append.{final-append}
use queue_fair.Queue.Runs.Order.{final-order}
use queue_fair.Queue.Runs.Rate.{admitted_total, tick_config}
use queue_fair.Queue.Runs.Rate.Bucket.{config-quiet}
use queue_fair.Queue.Runs.Progress.{IsRunning}
use queue_fair.Queue.Runs.Progress.Window.{window_pops}

-- A window of `rate` per minute: a tick at a time, and then events with clocks that do not step back
-- and an unchanged configuration, the last tick when more than one token has been granted since.
pub record Window (rate : ℕ) : Type 0 where
  pub start : ℕ
  pub events : List Event
  pub timely : Timely start events
  pub long_enough : token_unit < rate * (end_time start events - start)

abbrev pub events_of : {rate : ℕ} → Window rate → List Event
events_of w = admit w.start ∷ w.events

abbrev pub all_events : {rate : ℕ} → List (Window rate) → List Event
all_events [] = []
all_events (w ∷ ws) = events_of w ++ all_events ws

index_of-prefix :
    (t : Text) (a b : List Text) (i : ℕ)
    → index_of t (a ++ b) ≡ some i
    → i < length a
    → index_of t a ≡ some i
index_of-prefix t [] b i h lt = absurd (omega arith)
index_of-prefix t (u ∷ a) b i h lt = elim (Bool-cases (text_eq u t)) [
  | inl same ↦ ground arith
  | inr other ↦ elim (Option-cases (index_of t (a ++ b))) [
    | inl e ↦ absurd (ground arith)
    | inr (j, e) ↦
        let next : i ≡ suc j = ground arith in
        let lt' : j < length a = omega (arith, next) in
        ground (arith, index_of-prefix t a b j e lt')
  ]
]

nobody : (n : ℕ) → ltb 0 n ≡ false → n ≡ 0
nobody n h = ground arith

module _ (R : Redis) (keys : EventKeys) where
  open R use {Db, view}

  -- The configuration is the same after timely events.
  config-final :
      (es : List Event) (db : Db) (q : Line) (t : ℕ) (f : Text)
      → Holds (view db) keys q
      → IsLive (view db) keys
      → 0 < rate_of R keys db
      → Timely t es
      → config_of R keys (final R keys es db) f ≡ config_of R keys db f
  unfolding final
  config-final [] db q t f h live runs timely = refl
  config-final (configure rate burst batch_max ∷ es) db q t f h live runs timely = absurd timely
  config-final (admit now ∷ es) db q t f h live runs timely =
      let st = step-Stepped R keys db q h live (admit now) in
      config-final es (step R keys (admit now) db).1 (line_after R keys (admit now) db q) now f
        st.in_step st.live
        (rw (tick_config R keys db q h live now runs (codes "rate_per_min")) runs) timely.1
      ∙ tick_config R keys db q h live now runs f
  config-final (e ∷ es) db q t f h live runs timely =
      let st = step-Stepped R keys db q h live e in
      config-final es (step R keys e db).1 (line_after R keys e db q) t f st.in_step st.live
        (rw (config-quiet R keys db q h live e tt (codes "rate_per_min")) runs) timely
      ∙ config-quiet R keys db q h live e tt f

  pub IsLive-final :
      (es : List Event) (db : Db) (q : Line)
      → Holds (view db) keys q
      → IsLive (view db) keys
      → IsLive (view (final R keys es db)) keys
  unfolding final
  IsLive-final [] db q h live = live
  IsLive-final (e ∷ es) db q h live =
      let st = step-Stepped R keys db q h live e in
      IsLive-final es (step R keys e db).1 (line_after R keys e db q) st.in_step st.live

  -- Each window admits one at least, while someone waits.
  pub windows_admit :
      (rate : ℕ) (ws : List (Window rate)) (db : Db) (q : Line)
      → Holds (view db) keys q
      → IsLive (view db) keys
      → IsRunning R keys db
      → rate_of R keys db ≡ rate
      → q.admitted + min (length ws) (length q.waiting)
        ≤ admitted_total R keys (final R keys (all_events ws) db)
  unfolding final
  windows_admit rate [] db q h live r same = omega (arith, h.counted)
  windows_admit rate (w ∷ ws) db q h live r same =
      let (after, gone, fresh, holds, logged, counted, order, came) =
        final-order R keys (events_of w) db q h live in
      let d = final R keys (events_of w) db in
      let config = λ (f : Text).
        config-final (events_of w) db q w.start f h live r.rate (omega arith, w.timely) in
      let size = ap (length {A = Text}) order in
      let rest =
        windows_admit rate ws d after holds (IsLive-final (events_of w) db q h live)
          (record {
            rate = rw (config (codes "rate_per_min")) r.rate;
            burst = rw (config (codes "burst")) r.burst;
            batch_max = rw (config (codes "batch_max")) r.batch_max;
          })
          (config (codes "rate_per_min") ∙ same) in
      rw (final-append R keys (events_of w) (all_events ws) db)
        (elim (Bool-cases (ltb 0 (length q.waiting))) [
          | inl waits ↦ omega (
            arith,
            rest,
            counted,
            size,
            length-append gone after.waiting,
            length-append q.waiting fresh,
            holds.counted,
            window_pops R keys w.start w.events db q h live r (ltb→lt 0 (length q.waiting) waits)
                w.timely (rw same w.long_enough),
          )
          | inr idle ↦ omega (arith, rest, counted, nobody (length q.waiting) idle)
        ])

  -- On a configured event in step with `q`, with a rate and a batch size above 0 and a burst above
  -- 1, take as many windows, one after the other, as a waiting token has places before it, and one
  -- more. In each, a tick is followed by any events of any processes, with clocks that do not step
  -- back and no new configuration, up to a tick by which the rate has granted more than one token
  -- since the first. Then the token is among those popped, in its place: the one after those before
  -- it, with its own sequence.
  pub served :
      (db : Db) (q : Line)
      → Holds (view db) keys q
      → IsLive (view db) keys
      → IsRunning R keys db
      → (t : Text) (i : ℕ) → index_of t q.waiting ≡ some i
      → (ws : List (Window (config_of R keys db (codes "rate_per_min")))) → i < length ws
      → (gone : List Text) × (log R keys (all_events ws) db ≡ flat (numbered (suc q.admitted) gone))
        × (index_of t gone ≡ some i)
  served db q h live r t i here ws enough =
      let (after, gone, fresh, holds, logged, counted, order, came) =
        final-order R keys (all_events ws) db q h live in
      let popped : i < length gone = omega (
        arith,
        windows_admit (rate_of R keys db) ws db q h live r refl,
        holds.counted,
        counted,
        index_of-lt t q.waiting i here,
      ) in
      (
        gone,
        logged,
        index_of-prefix t gone after.waiting i (rw order (index_of-more t q.waiting fresh i here))
            popped,
      )
