-- ===== src/Queue/Runs/Progress.antt =====
-- How soon a waiting token is admitted.
pub mod Window
pub mod Served
use queue_fair.Prelude.{
  ℕ, zero, suc, ◌+◌, ◌-◌, ◌*◌, ◌/◌, ◌≤◌, ◌<◌, Text, codes, true, false, List, [], ◌∷◌, ◌++◌, ◌≡◌,
  refl, ap, sym, ◌∙◌, arith, leb, ltb, ltb→lt, length, length-append, length-take, length-drop,
  take, Bool-cases, inl, inr, if◌then◌else◌,
}
use mathlib.Core.Path.{subst}
use queue_fair.Redis.{Redis}
use queue_fair.Keys
use queue_fair.Keys.{EventKeys}
use queue_fair.Scripts.{token_unit, elapsed, refill, bucket_state, batch_size}
use queue_fair.Queue.{Line, Holds, leave, enter}
use queue_fair.Queue.Admit.{config_of, live_tokens, due}
use queue_fair.Queue.Runs.{
  Event, join, ask, admit, park, expire, configure, step, final, IsLive, Timely, end_time,
}
use queue_fair.Queue.Runs.Step.{admitted_by, line_after, added_by, rate_of, step-Stepped}
use queue_fair.Queue.Runs.Order.{count_after, order_after, final-order}
use queue_fair.Queue.Runs.Rate.{
  Stored, tick_stores, tick_config, admitted_total, elapsed_forward, span_split,
}
use queue_fair.Queue.Runs.Rate.Bucket.{IsQuiet, Stored-quiet, config-quiet, burst_of}

-- A batch is empty only if the bucket holds no whole token.
batch_size_zero :
    (n batch_max waiting : ℕ)
    → 0 < batch_max
    → 0 < waiting
    → batch_size n batch_max waiting ≡ 0
    → n ≡ 0
unfolding batch_size
batch_size_zero n batch_max waiting hb hw e = ground arith

-- A refill that leaves one token at most lost nothing to a burst above one.
refill_short :
    (burst rate tokens ms : ℕ)
    → 1 < burst
    → refill burst rate tokens ms ≤ token_unit
    → refill burst rate tokens ms ≡ tokens + ms * rate
unfolding refill
refill_short burst rate tokens ms hb h = omega arith

module _ (R : Redis) (keys : EventKeys) where
  open R use {Db, view, whole, whole_near}

  -- The drop runs, its burst is more than one token, and its batches are not empty.
  pub record IsRunning (db : Db) : Type 0 where
    pub rate : 0 < config_of R keys db (codes "rate_per_min")
    pub burst : 1 < config_of R keys db (codes "burst")
    pub batch_max : 0 < config_of R keys db (codes "batch_max")

  -- The counter never falls.
  pub total_grows :
      (es : List Event) (db : Db) (q : Line)
      → Holds (view db) keys q
      → IsLive (view db) keys
      → q.admitted ≤ admitted_total R keys (final R keys es db)
  total_grows es db q h live =
      let (after, gone, fresh, holds, logged, counted, order, came) =
        final-order R keys es db q h live in
      omega (arith, holds.counted, counted)

  module _ (db : Db) (q : Line) (h : Holds (view db) keys q) (live : IsLive (view db) keys)
      (r : IsRunning db) where
    pub IsRunning-quiet : (e : Event) → IsQuiet e → IsRunning (step R keys e db).1
    IsRunning-quiet e quiet = record {
      rate = rw (config-quiet R keys db q h live e quiet (codes "rate_per_min")) r.rate;
      burst = rw (config-quiet R keys db q h live e quiet (codes "burst")) r.burst;
      batch_max = rw (config-quiet R keys db q h live e quiet (codes "batch_max")) r.batch_max;
    }

    pub IsRunning-tick : (now : ℕ) → IsRunning (step R keys (admit now) db).1
    IsRunning-tick now = record {
      rate = rw (tick_config R keys db q h live now r.rate (codes "rate_per_min")) r.rate;
      burst = rw (tick_config R keys db q h live now r.rate (codes "burst")) r.burst;
      batch_max = rw (tick_config R keys db q h live now r.rate (codes "batch_max")) r.batch_max;
    }

    pub quiet_waits :
        (e : Event)
        → IsQuiet e
        → ((line_after R keys e db q).admitted ≡ q.admitted)
          × (length q.waiting ≤ length (line_after R keys e db q).waiting)
    unfolding leave
    quiet_waits (admit now) quiet = absurd quiet
    quiet_waits (configure rate burst batch_max) quiet = absurd quiet
    quiet_waits (join u) quiet = (
      omega (arith, count_after R keys (join u) db q),
      omega (
        arith,
        ap (length {A = Text}) (order_after R keys (join u) db q),
        length-append q.waiting (added_by R keys (join u) q),
      ),
    )
    quiet_waits _ quiet = (omega arith, omega arith)

    tick_by : (now : ℕ) → admitted_by R keys (admit now) db q ≡ due R keys db q now
    tick_by now =
        let runs : leb (rate_of R keys db) 0 ≡ false = ground (arith, r.rate) in rw runs refl

    pub tick_pops :
        (now : ℕ)
        → 0 < due R keys db q now
        → q.admitted < (line_after R keys (admit now) db q).admitted
    unfolding leave
    tick_pops now pops = rw (tick_by now) (omega (arith, pops))

    pub tick_waits :
        (now : ℕ)
        → due R keys db q now ≡ 0
        → ((line_after R keys (admit now) db q).admitted ≡ q.admitted)
          × (length (line_after R keys (admit now) db q).waiting ≡ length q.waiting)
    unfolding leave
    tick_waits now idle = rw (tick_by now, idle) (omega arith, refl)

    -- What a tick that pops no one leaves in the bucket.
    pub tick_gathers :
        (now : ℕ)
        → 0 < length q.waiting
        → due R keys db q now ≡ 0
        → (live_tokens R keys db now ≤ token_unit)
          × Stored R keys (step R keys (admit now) db).1 (live_tokens R keys db now) now
    tick_gathers now some_wait idle = (
      omega (
        arith,
        whole_near (Keys.bucket keys) now (live_tokens R keys db now),
        batch_size_zero (whole (Keys.bucket keys) now (live_tokens R keys db now)) _ _ r.batch_max
            some_wait idle,
      ),
      subst (λ n. Stored R keys (step R keys (admit now) db).1 n now)
          (omega (arith, idle, ap (λ n. n * token_unit) idle))
          (tick_stores R keys db q h live now r.rate),
    )

    -- The bucket refilled, when it gathered one token at most.
    pub gathered :
        (tokens last now : ℕ)
        → Stored R keys db tokens last
        → last ≤ now
        → live_tokens R keys db now ≤ token_unit
        → live_tokens R keys db now ≡ tokens + (now - last) * rate_of R keys db
    unfolding bucket_state
    gathered tokens last now s le =
        rw (s.tokens_lem, s.last_lem, elapsed_forward now last le)
          (refill_short (burst_of R keys db) (rate_of R keys db) tokens (now - last) r.burst)
