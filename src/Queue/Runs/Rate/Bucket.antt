-- ===== src/Queue/Runs/Rate/Bucket.antt =====
-- What an event does to the bucket of an event's queue.
use queue_fair.Prelude.{
  ℕ, ◌+◌, ◌-◌, ◌*◌, ◌≤◌, ◌<◌, Text, codes, Option, some, List, [], ◌∷◌, ◌≡◌, ap, arith, or_zero,
  lookup, lookup-insert, text_eq-append,
}
use queue_fair.Redis.{Redis, insert_all}
use queue_fair.Keys
use queue_fair.Keys.{EventKeys}
use queue_fair.Scripts.{token_unit, refill}
use queue_fair.Queue.{Line, Holds}
use queue_fair.Queue.Join.{join-enter}
use queue_fair.Queue.Position.{position-told}
use queue_fair.Queue.Admit.{
  config_of, bucket_field, live_tokens, due, admit_batch-leave, admit_batch_paused,
}
use queue_fair.Queue.Runs.{Event, join, ask, admit, park, expire, configure, step, IsLive}
use queue_fair.Queue.Runs.Step.{rate_of, present_of_live}

-- Events that touch neither the bucket nor the configuration.
abbrev pub IsQuiet : Event → Type 0
IsQuiet (admit now) = ⊥
IsQuiet (configure rate burst batch_max) = ⊥
IsQuiet (join t) = Unit
IsQuiet (ask t) = Unit
IsQuiet (park t payload ttl) = Unit
IsQuiet (expire t) = Unit

abbrev field_after : List (Text × ℕ) → ℕ → ℕ → Text → Option ℕ
field_after h tokens last f =
    lookup f (insert_all ((codes "tokens", tokens) ∷ (codes "last_refill_ms", last) ∷ []) h)

tokens_stored :
    (h : List (Text × ℕ)) (tokens last : ℕ)
    → field_after h tokens last (codes "tokens") ≡ some tokens
tokens_stored h tokens last = simp lookup-insert

last_stored :
    (h : List (Text × ℕ)) (tokens last : ℕ)
    → field_after h tokens last (codes "last_refill_ms") ≡ some last
last_stored h tokens last = simp lookup-insert

module _ (R : Redis) (keys : EventKeys) where
  open R use {Db, view, view-set_ex, view-expire}

  -- The bucket holds so much, as of a time.
  pub record Stored (db : Db) (tokens last : ℕ) : Type 0 where
    pub tokens_lem : bucket_field R keys db (codes "tokens") ≡ some tokens
    pub last_lem : bucket_field R keys db (codes "last_refill_ms") ≡ some last

  abbrev pub burst_of : Db → ℕ
  burst_of db = config_of R keys db (codes "burst")

  module _ (db : Db) (q : Line) (h : Holds (view db) keys q) (live : IsLive (view db) keys) where
    pub quiet-hashes :
        (e : Event) → IsQuiet e → (view (step R keys e db).1).hashes ≡ (view db).hashes
    unfolding step
    quiet-hashes (admit now) quiet = absurd quiet
    quiet-hashes (configure rate burst batch_max) quiet = absurd quiet
    quiet-hashes (join t) quiet =
        (join-enter R keys db t q h (present_of_live (view db) keys live)).2
    quiet-hashes (ask t) quiet =
        ap (λ (out : _ × Db). (view out.1).hashes)
          (position-told R keys db t q h (present_of_live (view db) keys live))
    quiet-hashes (park t payload ttl) quiet =
        ap (λ v. v.hashes) (view-set_ex db (Keys.pass_for keys t) payload ttl)
    quiet-hashes (expire t) quiet = ap (λ v. v.hashes) (view-expire db (Keys.pass_for keys t))

    module _ (e : Event) (quiet : IsQuiet e) where
      pub Stored-quiet :
          {tokens last : ℕ} → Stored db tokens last → Stored (step R keys e db).1 tokens last
      Stored-quiet s =
          let same = quiet-hashes e quiet in
          record { tokens_lem = rw same s.tokens_lem; last_lem = rw same s.last_lem }

      pub config-quiet :
          (f : Text) → config_of R keys (step R keys e db).1 f ≡ config_of R keys db f
      config-quiet f =
          ap (λ (s : Text → List (Text × ℕ)). or_zero (lookup f (s (Keys.config keys))))
            (quiet-hashes e quiet)

    module _ (now : ℕ) where
      pub admit_paused_keeps : rate_of R keys db ≡ 0 → (step R keys (admit now) db).1 ≡ db
      unfolding step
      admit_paused_keeps stop =
          ap (λ (out : _ × Db). out.1)
            (admit_batch_paused R keys db q h now (present_of_live (view db) keys live) stop)

      module _ (runs : 0 < rate_of R keys db) where
        pub tick_config :
            (f : Text) → config_of R keys (step R keys (admit now) db).1 f ≡ config_of R keys db f
        unfolding step
        tick_config f =
            let out =
              admit_batch-leave R keys db q h now (present_of_live (view db) keys live) runs in
            rw out.kept (simp text_eq-append)

        pub tick_stores :
            Stored
              (step R keys (admit now) db).1
              (live_tokens R keys db now - due R keys db q now * token_unit)
              now
        unfolding step
        tick_stores =
            let out =
              admit_batch-leave R keys db q h now (present_of_live (view db) keys live) runs in
            let old = (view db).hashes (Keys.bucket keys) in
            let tokens = live_tokens R keys db now - due R keys db q now * token_unit in
            record {
              tokens_lem = rw out.kept (simp text_eq-append (tokens_stored old tokens now));
              last_lem = rw out.kept (simp text_eq-append (last_stored old tokens now));
            }

-- A refill grants at most the time that passed, and at most the burst.
pub refill_bounds :
    (burst rate tokens ms : ℕ)
    → (refill burst rate tokens ms ≤ burst * token_unit)
      × (refill burst rate tokens ms ≤ tokens + ms * rate)
unfolding refill
refill_bounds burst rate tokens ms = (omega arith, omega arith)
