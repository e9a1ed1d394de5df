-- ===== src/Admission/Stranded.antt =====
-- A tick whose passes cannot be parked, the gap that core/admission.py names.
use queue_fair.Prelude.{
  ℕ, ◌+◌, ◌<◌, Text, codes, none, some, List, [], ◌∷◌, ◌≡◌, refl, ap, ◌∙◌, take,
}
use queue_fair.Redis.{Redis}
use queue_fair.Keys
use queue_fair.Keys.{EventKeys}
use queue_fair.Result.{ok, raise, redis_error, unknown_token}
use queue_fair.Ports.{PassIssuer}
use queue_fair.Queue.{Line, Holds, leave, index_of}
use queue_fair.Queue.Position.{position-told, told}
use queue_fair.Queue.Runs.{IsLive}
use queue_fair.Queue.Runs.Step.{present_of_live}
use queue_fair.Queue.Admit.{due, config_of}
use queue_fair.Repository.{delivered, refused, admit_batch, repository, position}
use queue_fair.Repository.Codec.{JsonCodec}
use queue_fair.Repository.Replies.{admit_batch_returns}
use queue_fair.Admission.{admit_once, hand_out}
use queue_fair.Queue.Places.{index_of-drop}
use queue_fair.Admission.Collect.{popped-strings, tick, popped_IsLive}

module _ (R : Redis) (J : JsonCodec) (issuer : PassIssuer) (event_id : Text) (ttl now_ms : ℕ)
    (uuid : ℕ → Text) where
  open R use {Db, view}

  abbrev event : EventKeys
  event = record { event_id = event_id }

  hand_out_refused :
      (sent : ℕ) (ts : List Text) (total : ℕ) (d : Db) (t : Text) (j : ℕ)
      → index_of t ts ≡ some j
      → hand_out
          (repository R J delivered refused sent)
          issuer
          ttl
          event_id
          now_ms
          uuid
          (ok (some (record { admitted_tokens = ts; admitted_total = total })))
          d
        ≡ (raise redis_error, d)
  unfolding hand_out repository
  hand_out_refused sent [] total d t j h = absurd (cc)
  hand_out_refused sent (u ∷ ts) total d t j h = refl

  module _ (db : Db) (q : Line) (h : Holds (view db) (record { event_id = event_id }) q)
      (live : IsLive (view db) (record { event_id = event_id }))
      (runs : 0 < config_of R (record { event_id = event_id }) db (codes "rate_per_min")) where
    abbrev popped_db : Db
    popped_db = (admit_batch R delivered event_id now_ms db).1

    refused_tick :
        (sent : ℕ) (t : Text) (j : ℕ)
        → index_of t (take (due R event db q now_ms) q.waiting) ≡ some j
        → tick R J issuer event_id ttl now_ms uuid refused sent db ≡ (raise redis_error, popped_db)
    unfolding admit_once repository
    refused_tick sent t j here = rw ((admit_batch_returns R event_id db q h live now_ms runs).0) (
        hand_out_refused sent (take (due R event db q now_ms) q.waiting)
          (q.admitted + due R event db q now_ms) popped_db t j here)

    -- Let the controller tick on a configured, running event in step with `q`, the pop delivered
    -- and the parking of the passes refused. The tick raises RedisError, and a token that it popped,
    -- with no pass from before, is told that it is unknown: it has lost its place.
    tick_stranded :
        (sent : ℕ) (t : Text) (j : ℕ)
        → index_of t (take (due R (record { event_id = event_id }) db q now_ms) q.waiting) ≡ some j
        → (view db).strings (Keys.pass_for (record { event_id = event_id }) t) ≡ none
        → ((tick R J issuer event_id ttl now_ms uuid refused sent db).0 ≡ raise redis_error)
          × ((position R J delivered event_id t
                (tick R J issuer event_id ttl now_ms uuid refused sent db).1).0
              ≡ raise unknown_token)
    unfolding position told leave
    tick_stranded sent t j here no_pass =
        let out = admit_batch_returns R event_id db q h live now_ms runs in
        let stays : IsLive (view popped_db) event =
          popped_IsLive R J issuer event_id ttl now_ms uuid db q h live runs in
        let empty : (view popped_db).strings (Keys.pass_for event t) ≡ none =
          ap (λ f. f (Keys.pass_for event t))
            (popped-strings R J issuer event_id ttl now_ms uuid db q h live runs)
          ∙ no_pass in
        rw (refused_tick sent t j here) (
          refl,
          rw
              (
                position-told R event popped_db t (leave (due R event db q now_ms) q) out.1
                    (present_of_live (view popped_db) event stays),
                index_of-drop t (due R event db q now_ms) j q.waiting h.distinct here,
                empty,
              )
              refl,
        )
