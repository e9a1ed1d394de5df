-- ===== src/Queue/Runs/Skew.antt =====
-- The bucket and clocks that step back.
use Prim.Native.Nat.{min}
use queue_fair.Prelude.{ℕ, ◌+◌, ◌-◌, ◌*◌, ◌≤◌, ◌<◌, codes, ◌≡◌, refl, arith}
use queue_fair.Redis.{Redis}
use queue_fair.Keys.{EventKeys}
use queue_fair.Scripts.{token_unit, refill, elapsed, bucket_state}
use queue_fair.Queue.{Line, Holds}
use queue_fair.Queue.Admit.{config_of, live_tokens, due}
use queue_fair.Queue.Runs.{admit, step, IsLive}
use queue_fair.Queue.Runs.Step.{rate_of}
use queue_fair.Queue.Runs.Rate.{Stored, tick_stores, tick_config}

refill_none :
    (burst rate tokens now last : ℕ)
    → now ≤ last
    → refill burst rate tokens (elapsed now last) ≡ min (burst * token_unit) tokens
unfolding refill elapsed
refill_none burst rate tokens now last h = ground arith

elapsed_since : (now last : ℕ) → last ≤ now → elapsed now last ≡ now - last
unfolding elapsed
elapsed_since now last h = ground arith

module _ (R : Redis) (keys : EventKeys) where
  open R use {Db, view}

  module _ (db : Db) (q : Line) (h : Holds (view db) keys q) (live : IsLive (view db) keys) where
    -- Let the bucket hold `tokens` as of the time `last`, and the drop run. A tick with an earlier
    -- clock `back` adds no tokens. A later tick with the clock `last`, the time that was reached
    -- before, adds the tokens of all the time from `back` to `last` once more, up to the burst.
    pub step_back_credits :
        (tokens last back : ℕ)
        → Stored R keys db tokens last
        → 0 < rate_of R keys db
        → back ≤ last
        → (live_tokens R keys db back
            ≡ min (config_of R keys db (codes "burst") * token_unit) tokens)
          × (live_tokens R keys (step R keys (admit back) db).1 last
              ≡ min (config_of R keys db (codes "burst") * token_unit) (
                  (live_tokens R keys db back - due R keys db q back * token_unit)
                  + (last - back) * rate_of R keys db))
    unfolding bucket_state refill
    step_back_credits tokens last back s runs le =
        let t = tick_stores R keys db q h live back runs in
        (
          rw (s.tokens_lem, s.last_lem) (refill_none _ _ tokens back last le),
          rw
              (
                t.tokens_lem,
                t.last_lem,
                tick_config R keys db q h live back runs (codes "burst"),
                tick_config R keys db q h live back runs (codes "rate_per_min"),
                elapsed_since last back le,
              )
              refl,
        )
