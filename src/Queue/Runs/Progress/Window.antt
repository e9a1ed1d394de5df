-- ===== src/Queue/Runs/Progress/Window.antt =====
-- A window of time in which the rate grants more than one token.
use queue_fair.Prelude.{
  ℕ, ◌-◌, ◌*◌, ◌≤◌, ◌<◌, codes, List, [], ◌∷◌, ◌≡◌, ap, arith, ltb, ltb→lt, length, Bool-cases, inl,
  inr,
}
use queue_fair.Redis.{Redis}
use queue_fair.Keys.{EventKeys}
use queue_fair.Scripts.{token_unit}
use queue_fair.Queue.{Line, Holds}
use queue_fair.Queue.Admit.{live_tokens, due}
use queue_fair.Queue.Runs.{Event, admit, configure, step, final, IsLive, Timely, end_time}
use queue_fair.Queue.Runs.Step.{line_after, rate_of, step-Stepped}
use queue_fair.Queue.Runs.Rate.{Stored, tick_config, admitted_total, span_split}
use queue_fair.Queue.Runs.Rate.Bucket.{Stored-quiet, config-quiet}
use queue_fair.Queue.Runs.Progress.{
  IsRunning, total_grows, tick_pops, tick_waits, quiet_waits, tick_gathers, gathered,
  IsRunning-quiet, IsRunning-tick,
}

no_time : (rate start tokens : ℕ) → rate * (start - start) ≤ tokens
no_time rate start tokens =
    let none_passed : start - start ≡ 0 = omega arith in
    omega (arith, ap (λ n. rate * n) none_passed)

module _ (R : Redis) (keys : EventKeys) where
  open R use {Db, view}

  -- The time since `start` is in the bucket, which holds one token at most.
  window_pops_from :
      (es : List Event) (db : Db) (q : Line) (start last tokens : ℕ)
      → Holds (view db) keys q
      → IsLive (view db) keys
      → IsRunning R keys db
      → 0 < length q.waiting
      → Timely last es
      → start ≤ last
      → Stored R keys db tokens last
      → rate_of R keys db * (last - start) ≤ tokens
      → tokens ≤ token_unit
      → token_unit < rate_of R keys db * (end_time last es - start)
      → q.admitted < admitted_total R keys (final R keys es db)
  unfolding final
  window_pops_from [] db q start last tokens h live r waits timely le s lower upper enough =
      absurd (omega arith)
  window_pops_from (configure rate burst batch_max ∷ es) db q start last tokens h live r waits
        timely le s lower upper enough =
      absurd timely
  window_pops_from (admit now ∷ es) db q start last tokens h live r waits timely le s lower upper
        enough =
      let st = step-Stepped R keys db q h live (admit now) in
      let next = (step R keys (admit now) db).1 in
      elim (Bool-cases (ltb 0 (due R keys db q now))) [
        | inl pops ↦ omega (
          arith,
          tick_pops R keys db q h live r now (ltb→lt 0 (due R keys db q now) pops),
          total_grows R keys es next (line_after R keys (admit now) db q) st.in_step st.live,
        )
        | inr idles ↦
            let idle : due R keys db q now ≡ 0 = ground arith in
            let (same, size) = tick_waits R keys db q h live r now idle in
            let (short, stored) = tick_gathers R keys db q h live r now waits idle in
            let rate = tick_config R keys db q h live now r.rate (codes "rate_per_min") in
            rw (← same) (
              window_pops_from es next (line_after R keys (admit now) db q) start now
                (live_tokens R keys db now) st.in_step st.live
                (IsRunning-tick R keys db q h live r now) (omega (arith, size)) timely.1
                (omega (arith, timely.0)) stored
                (rw rate (
                  omega (
                    arith,
                    gathered R keys db q h live r tokens last now s timely.0 short,
                    span_split (rate_of R keys db) start last now le timely.0,
                  )))
                short (rw rate enough))
      ]
  window_pops_from (e ∷ es) db q start last tokens h live r waits timely le s lower upper enough =
      let st = step-Stepped R keys db q h live e in
      let (same, more) = quiet_waits R keys db q h live r e tt in
      rw (← same) (
        window_pops_from es (step R keys e db).1 (line_after R keys e db q) start last tokens
          st.in_step st.live (IsRunning-quiet R keys db q h live r e tt) (omega (arith, more))
          timely le (Stored-quiet R keys db q h live e tt s)
          (rw (config-quiet R keys db q h live e tt (codes "rate_per_min")) lower) upper
          (rw (config-quiet R keys db q h live e tt (codes "rate_per_min")) enough))

  -- From a tick at `start` on, to a time at which the rate has granted a token.
  pub window_pops :
      (start : ℕ) (es : List Event) (db : Db) (q : Line)
      → Holds (view db) keys q
      → IsLive (view db) keys
      → IsRunning R keys db
      → 0 < length q.waiting
      → Timely start es
      → token_unit < rate_of R keys db * (end_time start es - start)
      → q.admitted < admitted_total R keys (final R keys (admit start ∷ es) db)
  unfolding final
  window_pops start es db q h live r waits timely enough =
      let st = step-Stepped R keys db q h live (admit start) in
      let next = (step R keys (admit start) db).1 in
      elim (Bool-cases (ltb 0 (due R keys db q start))) [
        | inl pops ↦ omega (
          arith,
          tick_pops R keys db q h live r start (ltb→lt 0 (due R keys db q start) pops),
          total_grows R keys es next (line_after R keys (admit start) db q) st.in_step st.live,
        )
        | inr idles ↦
            let idle : due R keys db q start ≡ 0 = ground arith in
            let (same, size) = tick_waits R keys db q h live r start idle in
            let (short, stored) = tick_gathers R keys db q h live r start waits idle in
            let rate = tick_config R keys db q h live start r.rate (codes "rate_per_min") in
            rw (← same) (
              window_pops_from es next (line_after R keys (admit start) db q) start start
                (live_tokens R keys db start) st.in_step st.live
                (IsRunning-tick R keys db q h live r start) (omega (arith, size)) timely
                (omega arith) stored
                (no_time (rate_of R keys next) start (live_tokens R keys db start)) short
                (rw rate enough))
      ]
