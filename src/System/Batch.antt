-- ===== src/System/Batch.antt =====
-- What a delivered pop of a tick returns, whether the drop runs or is paused.
use queue_fair.Prelude.{ℕ, Text, codes, some, [], ◌≡◌, refl, arith, take, leb, Bool-cases, inl, inr}
use queue_fair.Redis.{Redis}
use queue_fair.Keys.{EventKeys}
use queue_fair.Result.{ok}
use queue_fair.Queue.{Line, Holds}
use queue_fair.Queue.Admit.{admit_batch_paused, config_of}
use queue_fair.Queue.Runs.{admit, IsLive}
use queue_fair.Queue.Runs.Step.{present_of_live, rate_of, admitted_by}
use queue_fair.Repository.{delivered, admit_batch, decode_batch}
use queue_fair.Repository.Replies.{admit_batch_returns}

module _ (R : Redis) (event_id : Text) where
  open R use {Db, view}

  abbrev keys : EventKeys
  keys = record { event_id = event_id }

  module _ (db : Db) (q : Line) (h : Holds (view db) keys q) (live : IsLive (view db) keys)
      (now : ℕ) where
    paused_batch :
        config_of R keys db (codes "rate_per_min") ≡ 0
        → (admit_batch R delivered event_id now db).0
          ≡ ok (some (record { admitted_tokens = []; admitted_total = q.admitted }))
    unfolding admit_batch decode_batch
    paused_batch stop =
        rw (admit_batch_paused R keys db q h now (present_of_live (view db) keys live) stop) refl

    pub batch_tokens :
        (total : ℕ) × ((admit_batch R delivered event_id now db).0
          ≡ ok (
              some (record {
                admitted_tokens = take (admitted_by R keys (admit now) db q) q.waiting;
                admitted_total = total;
              })))
    batch_tokens = elim (Bool-cases (leb (rate_of R keys db) 0)) [
      | inl stop ↦ rw stop (q.admitted, paused_batch (ground arith))
      | inr runs ↦ rw runs (_, (admit_batch_returns R event_id db q h live now (ground arith)).0)
    ]
