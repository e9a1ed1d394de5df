-- ===== src/Queue/Runs/Rate/Bounds.antt =====
-- What one event adds to the number admitted, and what it leaves in the bucket.
use queue_fair.Prelude.{
  ℕ, ◌+◌, ◌-◌, ◌*◌, ◌≤◌, codes, true, false, List, [], ◌∷◌, ◌≡◌, refl, ap, ◌∙◌, arith, or_zero, leb,
  length,
}
use queue_fair.Redis.{Redis}
use queue_fair.Keys
use queue_fair.Keys.{EventKeys}
use queue_fair.Scripts.{token_unit, elapsed, bucket_state}
use queue_fair.Queue.{Line, Holds, leave, enter}
use queue_fair.Queue.Admit.{config_of, live_tokens, due}
use queue_fair.Queue.Release.{batch_size_bounds}
use queue_fair.Queue.Runs.{
  Event, join, ask, admit, park, expire, configure, step, IsLive, Timely, end_time,
}
use queue_fair.Queue.Runs.Step.{line_after, rate_of}
use queue_fair.Queue.Runs.Order.{count_after}
use queue_fair.Queue.Runs.Rate.Bucket.{
  tick_config, Stored, IsQuiet, config-quiet, admit_paused_keeps, refill_bounds, burst_of,
}

pub Timely-end : (es : List Event) (t : ℕ) → Timely t es → t ≤ end_time t es
Timely-end [] t h = omega arith
Timely-end (admit now ∷ es) t h = omega (arith, h.0, Timely-end es now h.1)
Timely-end (configure rate burst batch_max ∷ es) t h = absurd h
Timely-end (join u ∷ es) t h = Timely-end es t h
Timely-end (ask u ∷ es) t h = Timely-end es t h
Timely-end (park u payload ttl ∷ es) t h = Timely-end es t h
Timely-end (expire u ∷ es) t h = Timely-end es t h

distribute : (r x y : ℕ) → r * (x + y) ≡ r * x + y * r
distribute r x y = omega arith

joined : (a b c : ℕ) → a ≤ b → b ≤ c → c - a ≡ (c - b) + (b - a)
joined a b c p q = omega arith

pub elapsed_forward : (now last : ℕ) → last ≤ now → elapsed now last ≡ now - last
unfolding elapsed
elapsed_forward now last h = ground arith

-- Time that passes in two parts.
pub span_split : (rate a b c : ℕ) → a ≤ b → b ≤ c → rate * (c - a) ≡ rate * (c - b) + (b - a) * rate
span_split rate a b c p q = ap (λ n. rate * n) (joined a b c p q) ∙ distribute rate (c - b) (b - a)

module _ (R : Redis) (keys : EventKeys) where
  open R use {Db, view, whole, whole_le}

  -- The counter of those admitted.
  abbrev pub admitted_total : Db → ℕ
  admitted_total db = or_zero ((view db).numbers (Keys.admitted keys))

  -- The refilled tokens of a stored bucket whose time is not ahead.
  pub live_tokens_bound :
      (db : Db) (tokens last now : ℕ)
      → Stored R keys db tokens last
      → last ≤ now
      → live_tokens R keys db now ≤ tokens + (now - last) * rate_of R keys db
  unfolding bucket_state
  live_tokens_bound db tokens last now s h =
      rw (s.tokens_lem, s.last_lem, elapsed_forward now last h)
        (refill_bounds (burst_of R keys db) (rate_of R keys db) tokens (now - last)).1

  pub live_tokens-burst :
      (db : Db) (now : ℕ) → live_tokens R keys db now ≤ burst_of R keys db * token_unit
  live_tokens-burst db now = (refill_bounds _ _ _ _).0

  -- One tick within a longer time: what it spends, and what is left.
  tick_spends :
      (rate tokens n total after last now end : ℕ)
      → n * token_unit ≤ total
      → total ≤ tokens + (now - last) * rate
      → last ≤ now
      → now ≤ end
      → after ≤ (total - n * token_unit) + rate * (end - now)
      → after + n * token_unit ≤ tokens + rate * (end - last)
  tick_spends rate tokens n total after last now end a b c d e =
      omega (arith, span_split rate last now end c d)

  module _ (db : Db) (q : Line) (h : Holds (view db) keys q) (live : IsLive (view db) keys) where
    quiet_admitted : (e : Event) → IsQuiet e → (line_after R keys e db q).admitted ≡ q.admitted
    unfolding leave enter
    quiet_admitted (admit now) quiet = absurd quiet
    quiet_admitted (configure rate burst batch_max) quiet = absurd quiet
    quiet_admitted (join t) quiet = omega (arith, count_after R keys (join t) db q)
    quiet_admitted _ quiet = omega arith

    -- A bound on what comes after a quiet event bounds what comes after its start.
    pub quiet_bound :
        (e : Event)
        → IsQuiet e
        → (total rest f : ℕ)
        → total
          ≤ token_unit * (line_after R keys e db q).admitted
            + rest
            + config_of R keys (step R keys e db).1 (codes "rate_per_min") * f
        → total ≤ token_unit * q.admitted + rest + rate_of R keys db * f
    quiet_bound e quiet total rest f bound = omega (
      arith,
      quiet_admitted e quiet,
      ap (λ r. r * f) (config-quiet R keys db q h live e quiet (codes "rate_per_min")),
    )

    due-live : (now : ℕ) → due R keys db q now * token_unit ≤ live_tokens R keys db now
    due-live now = omega (
      arith,
      (batch_size_bounds (whole (Keys.bucket keys) now (live_tokens R keys db now))
          (config_of R keys db (codes "batch_max")) (length q.waiting)).2,
      whole_le (Keys.bucket keys) now (live_tokens R keys db now),
    )

    module _ (now : ℕ) where
      abbrev after : Db
      after = (step R keys (admit now) db).1

      abbrev line' : Line
      line' = line_after R keys (admit now) db q

      paused_admitted : leb (rate_of R keys db) 0 ≡ true → line'.admitted ≡ q.admitted
      unfolding leave
      paused_admitted stop = rw stop (omega arith)

      pub paused_same : leb (rate_of R keys db) 0 ≡ true → after ≡ db
      paused_same stop = admit_paused_keeps R keys db q h live now (ground arith)

      -- While the drop is paused.
      pub paused_bound :
          leb (rate_of R keys db) 0 ≡ true
          → (total rest f g : ℕ)
          → total ≤ token_unit * line'.admitted + rest + rate_of R keys after * f
          → total ≤ token_unit * q.admitted + rest + rate_of R keys db * g
      paused_bound stop total rest f g bound =
          let zero_rate : rate_of R keys db ≡ 0 = ground arith in
          omega (
            arith,
            paused_admitted stop,
            ap (λ d. rate_of R keys d * f) (paused_same stop),
            ap (λ r. r * f) zero_rate,
          )

      running_admitted :
          leb (rate_of R keys db) 0 ≡ false → line'.admitted ≡ q.admitted + due R keys db q now
      unfolding leave
      running_admitted runs = rw runs refl

      -- While it runs, from the tick on.
      pub running_bound :
          leb (rate_of R keys db) 0 ≡ false
          → (total f : ℕ)
          → total
            ≤ token_unit * line'.admitted
              + (live_tokens R keys db now - due R keys db q now * token_unit)
              + rate_of R keys after * f
          → total ≤ token_unit * q.admitted + live_tokens R keys db now + rate_of R keys db * f
      running_bound runs total f bound = omega (
        arith,
        due-live now,
        running_admitted runs,
        ap (λ r. r * f) (tick_config R keys db q h live now (ground arith) (codes "rate_per_min")),
      )
