-- ===== src/Queue/Runs/Rate.antt =====
-- The number admitted over any interleaving.
pub mod Bucket
pub mod Bounds
pub use Bucket.{Stored, tick_stores, tick_config}
pub use Bounds.{elapsed_forward, span_split, admitted_total}
use mathlib.Core.Path.{ap₂}
use queue_fair.Prelude.{
  ℕ, zero, suc, ◌+◌, ◌-◌, ◌*◌, ◌≤◌, ◌<◌, Text, codes, Bool, true, false, some, List, [], ◌∷◌, ◌≡◌,
  refl, ap, sym, ◌∙◌, arith, or_zero, leb, Bool-cases, inl, inr, if◌then◌else◌, length, length-take,
  take,
}
use queue_fair.Redis.{Redis}
use queue_fair.Keys
use queue_fair.Keys.{EventKeys}
use queue_fair.Scripts.{token_unit, elapsed, refill, bucket_state}
use queue_fair.Queue.{Line, Holds, leave, enter}
use queue_fair.Queue.Admit.{config_of, live_tokens, due}
use queue_fair.Queue.Release.{batch_size_bounds}
use queue_fair.Queue.Runs.{
  Event, join, ask, admit, park, expire, configure, step, final, IsLive, Timely, end_time,
}
use queue_fair.Queue.Runs.Step.{admitted_by, line_after, rate_of, step-Stepped}
use queue_fair.Queue.Runs.Order.{count_after}
use Bucket.{
  Stored, quiet-hashes, IsQuiet, Stored-quiet, config-quiet, admit_paused_keeps, refill_bounds,
  burst_of,
}
use Bounds.{
  Timely-end, paused_bound, paused_same, running_bound, live_tokens_bound, live_tokens-burst,
  quiet_bound,
}

module _ (R : Redis) (keys : EventKeys) where
  open R use {Db, view}

  within-Stored :
      (es : List Event) (db : Db) (q : Line) (t tokens last : ℕ)
      → Holds (view db) keys q
      → IsLive (view db) keys
      → Timely t es
      → Stored R keys db tokens last
      → last ≤ t
      → token_unit * admitted_total R keys (final R keys es db)
        ≤ token_unit * q.admitted + tokens + rate_of R keys db * (end_time t es - last)
  unfolding final
  within-Stored [] db q t tokens last h live timely s le = omega (arith, h.counted)
  within-Stored (admit now ∷ es) db q t tokens last h live timely s le =
      let st = step-Stepped R keys db q h live (admit now) in
      let rest =
        λ (tk l : ℕ) (s' : Stored R keys (step R keys (admit now) db).1 tk l) (le' : l ≤ now).
          within-Stored es (step R keys (admit now) db).1 (line_after R keys (admit now) db q) now
            tk l st.in_step st.live timely.1 s' le' in
      elim (Bool-cases (leb (rate_of R keys db) 0)) [
        | inl stop ↦
            paused_bound R keys db q h live now stop _ tokens (end_time now es - last)
              (end_time now es - last)
              (rest tokens last (rw (paused_same R keys db q h live now stop) s)
                (omega (arith, timely.0)))
        | inr runs ↦ omega (
          arith,
          running_bound R keys db q h live now runs _ (end_time now es - now)
              (rest _ now (tick_stores R keys db q h live now (ground arith)) (omega arith)),
          live_tokens_bound R keys db tokens last now s (omega (arith, timely.0)),
          span_split (rate_of R keys db) last now (end_time now es) (omega (arith, timely.0))
              (Timely-end es now timely.1),
        )
      ]
  within-Stored (configure rate burst batch_max ∷ es) db q t tokens last h live timely s le =
      absurd timely
  within-Stored (e ∷ es) db q t tokens last h live timely s le =
      let st = step-Stepped R keys db q h live e in
      quiet_bound R keys db q h live e tt _ tokens (end_time t es - last) (
        within-Stored es (step R keys e db).1 (line_after R keys e db q) t tokens last st.in_step
          st.live timely (Stored-quiet R keys db q h live e tt s) le)

  within_any :
      (es : List Event) (db : Db) (q : Line) (t : ℕ)
      → Holds (view db) keys q
      → IsLive (view db) keys
      → Timely t es
      → token_unit * admitted_total R keys (final R keys es db)
        ≤ token_unit * q.admitted
          + token_unit * burst_of R keys db
          + rate_of R keys db * (end_time t es - t)
  unfolding final
  within_any [] db q t h live timely = omega (arith, h.counted)
  within_any (admit now ∷ es) db q t h live timely =
      let st = step-Stepped R keys db q h live (admit now) in
      let next = (step R keys (admit now) db).1 in
      elim (Bool-cases (leb (rate_of R keys db) 0)) [
        | inl stop ↦
            paused_bound R keys db q h live now stop _ (token_unit * burst_of R keys db)
              (end_time now es - now) (end_time now es - t)
              (omega (
                arith,
                ap (burst_of R keys) (paused_same R keys db q h live now stop),
                within_any es next (line_after R keys (admit now) db q) now st.in_step st.live
                    timely.1,
              ))
        | inr runs ↦ omega (
          arith,
          running_bound R keys db q h live now runs _ (end_time now es - now) (
              within-Stored es next (line_after R keys (admit now) db q) now _ now st.in_step
                st.live timely.1 (tick_stores R keys db q h live now (ground arith)) (omega arith)),
          live_tokens-burst R keys db now,
          span_split (rate_of R keys db) t now (end_time now es) timely.0
              (Timely-end es now timely.1),
        )
      ]
  within_any (configure rate burst batch_max ∷ es) db q t h live timely = absurd timely
  within_any (e ∷ es) db q t h live timely =
      let st = step-Stepped R keys db q h live e in
      quiet_bound R keys db q h live e tt _ (token_unit * burst_of R keys db) (end_time t es - t) (
        omega (
          arith,
          within_any es (step R keys e db).1 (line_after R keys e db q) t st.in_step st.live timely,
          config-quiet R keys db q h live e tt (codes "burst"),
        ))

  -- On a configured event in step with `q`, let any processes run any events from the time `t` on, the
  -- configuration unchanged, with clocks that do not step back. Then the number admitted grows by at
  -- most the burst and the rate times the time that passed: in sixty-thousandths of a token, by at
  -- most 60000 * burst + rate * milliseconds. The bucket may hold anything before.
  pub admitted_within :
      (es : List Event) (db : Db) (q : Line) (t : ℕ)
      → Holds (view db) keys q
      → IsLive (view db) keys
      → Timely t es
      → token_unit * admitted_total R keys (final R keys es db)
        ≤ token_unit * admitted_total R keys db
          + token_unit * config_of R keys db (codes "burst")
          + config_of R keys db (codes "rate_per_min") * (end_time t es - t)
  admitted_within es db q t h live timely =
      omega (arith, h.counted, within_any es db q t h live timely)
