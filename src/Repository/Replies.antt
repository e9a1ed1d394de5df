-- ===== src/Repository/Replies.antt =====
-- What the methods return for the queue of an event.
use queue_fair.Prelude.{
  ℕ, suc, ◌+◌, ◌≤◌, ◌<◌, Text, codes, Bool, true, false, some, List, [], ◌∷◌, ◌≡◌, refl, ap, sym,
  ◌∙◌, arith, length, length-take, map, take, or_zero, lookup, ◌==◌, ==_iff,
}
use mathlib.Core.Path.{ap₂}
use queue_fair.Redis.{Redis}
use queue_fair.Keys
use queue_fair.Keys.{EventKeys}
use queue_fair.Result.{Result, ok, raise, redis_error}
use queue_fair.Scripts.{flat}
use queue_fair.State.{
  JoinOutcome, PositionOutcome, Float, state_from, state_from_position, position_from,
}
use queue_fair.Queue.{Line, Holds, enter, leave, numbered, index_of}
use queue_fair.Queue.Runs.{IsLive}
use queue_fair.Queue.Runs.Step.{present_of_live}
use queue_fair.Queue.Numbered.{enter_place, enter-enter}
use queue_fair.Queue.Join.{flag, join-enter, join-resume, rate_of}
use queue_fair.Queue.Position.{position-told, told}
use queue_fair.Queue.Admit.{admit_batch-leave, due, config_of}
use queue_fair.Queue.Release.{batch_size_bounds, released}
use queue_fair.Repository.{
  delivered, lost, join, position, admit_batch, decode_batch, truth, waiting, Standing,
  every_second, atom_text,
}
use queue_fair.Repository.Codec.{JsonCodec}

truth-flag : (b : Bool) → truth (flag b) ≡ b
truth-flag true = refl
truth-flag false = refl

every_second-flat :
    (R : Redis) (n : ℕ) (l : List Text) → map (atom_text R) (every_second (flat (numbered n l))) ≡ l
unfolding every_second flat
every_second-flat R n [] = refl
every_second-flat R n (t ∷ l) = ap (◌∷◌ t) (every_second-flat R (suc n) l)

module _ (R : Redis) (event_id : Text) where
  open R use {Db, view}

  abbrev keys : EventKeys
  keys = record { event_id = event_id }

  -- What a join tells, by the result of `enter` and the rate.
  abbrev entered : Line × ℕ × Bool → ℕ → JoinOutcome
  entered r rate = record {
    sequence = r.1;
    joined = r.2;
    total_waiting = length r.0.waiting;
    admitted_total = r.0.admitted;
    rate_per_min = rate;
  }

  -- What a join of `t` tells, when the queue is `q`.
  abbrev pub outcome_of : Db → Text → Line → JoinOutcome
  outcome_of db t q = record {
    sequence = (enter t q).1;
    joined = (enter t q).2;
    total_waiting = length (enter t q).0.waiting;
    admitted_total = (enter t q).0.admitted;
    rate_per_min = rate_of R keys db;
  }

  module _ (db : Db) (t : Text) (q : Line) (h : Holds (view db) keys q)
      (live : IsLive (view db) keys) where
    pub join_returns :
        ((join R delivered event_id t db).0 ≡ ok (some (outcome_of db t q)))
        × Holds (view (join R delivered event_id t db).1) keys (enter t q).0
        × ((view (join R delivered event_id t db).1).hashes ≡ (view db).hashes)
    unfolding join
    join_returns =
        let out = join-enter R keys db t q h (present_of_live (view db) keys live) in
        (
          rw (out.1) (
              ap (λ b. ok (some (entered ((enter t q).0, (enter t q).1, b) (rate_of R keys db))))
                (truth-flag (enter t q).2)),
          out.0,
          out.2,
        )

    abbrev pub lost_db : Db
    lost_db = (join R lost event_id t db).1

    lost-delivered : lost_db ≡ (join R delivered event_id t db).1
    unfolding join
    lost-delivered = refl

    pub lost-Holds : Holds (view lost_db) keys (enter t q).0
    lost-Holds = rw lost-delivered (join_returns.1)

    pub lost-hashes : (view lost_db).hashes ≡ (view db).hashes
    lost-hashes = rw lost-delivered (join_returns.2)

    pub lost-IsLive : IsLive (view lost_db) keys
    lost-IsLive = rw lost-hashes live

  module _ (db : Db) (t : Text) (q : Line) (h : Holds (view db) keys q)
      (live : IsLive (view db) keys) where
    pub resumed :
        (d : Db)
        → Holds (view d) keys (enter t q).0
        → IsLive (view d) keys
        → (view d).hashes ≡ (view db).hashes
        → (join R delivered event_id t d).0
          ≡ ok (some (record (outcome_of db t q) { joined = false }))
    resumed d hd ld same =
        (join_returns d t (enter t q).0 hd ld).0
        ∙ ap (λ r. ok (some (entered r (rate_of R keys d)))) (enter-enter t q)
        ∙ ap
            (λ (s : Text → List (Text × ℕ)). ok (
              some (
                entered ((enter t q).0, (enter t q).1, false)
                  (or_zero (lookup (codes "rate_per_min") (s (Keys.config keys)))))))
            same

    pub unchanged :
        (d : Db) → Holds (view d) keys (enter t q).0 → (join R delivered event_id t d).1 ≡ d
    unfolding join
    unchanged d hd =
        let (i, here, s) = enter_place t q in join-resume R keys d t (enter t q).0 hd i here

    -- On a configured event in step with `q`, a join whose reply is lost raises RedisError; the
    -- same join again returns the sequence that the first one gave, not `joined`, and changes
    -- nothing any more.
    pub join_retry :
        ((join R lost event_id t db).0 ≡ raise redis_error)
        × ((join R delivered event_id t (join R lost event_id t db).1).0
            ≡ ok (some (record (outcome_of db t q) { joined = false })))
        × ((join R delivered event_id t (join R lost event_id t db).1).1
            ≡ (join R lost event_id t db).1)
    unfolding join
    join_retry =
        let d = lost_db db t q h live in
        let hd = lost-Holds db t q h live in
        (refl, resumed d hd (lost-IsLive db t q h live) (lost-hashes db t q h live), unchanged d hd)

  module _ (J : JsonCodec) (F : Float) where
    -- What a waiter in place `i` is told.
    abbrev pub place_of : Db → Line → ℕ → PositionOutcome
    place_of db q i = record {
      position = i + 1;
      total_waiting = length q.waiting;
      admitted_total = q.admitted;
      rate_per_min = rate_of R keys db;
    }

    position_returns :
        (db : Db) (t : Text) (q : Line)
        → Holds (view db) keys q
        → IsLive (view db) keys
        → (i : ℕ) → index_of t q.waiting ≡ some i
        → position R J delivered event_id t db ≡ (ok (waiting (place_of db q i)), db)
    unfolding position told
    position_returns db t q h live i here =
        rw (position-told R keys db t q h (present_of_live (view db) keys live), here) refl

    clamp_place : (sequence a i : ℕ) → sequence ≡ suc (a + i) → position_from sequence a ≡ i + 1
    unfolding position_from
    clamp_place sequence a i e = omega arith

    -- On a configured event in step with `q`, let a token join, and then ask for its position. The
    -- state computed from the join's sequence and the number admitted is the state that the measured
    -- rank gives, in every field.
    pub join_then_position :
        (db : Db) (t : Text) (q : Line)
        → Holds (view db) keys q
        → IsLive (view db) keys
        → (i : JoinOutcome) × (o : PositionOutcome) × ((join R delivered event_id t db).0
            ≡ ok (some i))
          × ((position R J delivered event_id t (join R delivered event_id t db).1).0
              ≡ ok (waiting o))
          × (state_from F i ≡ state_from_position F o)
    unfolding state_from state_from_position
    join_then_position db t q h live =
        let out = join_returns db t q h live in
        let d = (join R delivered event_id t db).1 in
        let (i, here, s) = enter_place t q in
        let asked = position_returns d t (enter t q).0 out.1 (rw (out.2) live) i here in
        let rates =
          ap
            (λ (f : Text → List (Text × ℕ)).
              or_zero (lookup (codes "rate_per_min") (f (Keys.config keys))))
            out.2 in
        (
          outcome_of db t q,
          place_of d (enter t q).0 i,
          out.0,
          ap (λ (x : Result Standing × Db). x.0) asked,
          ap₂
              (λ p r. state_from_position F (record {
                position = p;
                total_waiting = length (enter t q).0.waiting;
                admitted_total = (enter t q).0.admitted;
                rate_per_min = r;
              }))
              (clamp_place (enter t q).1 (enter t q).0.admitted i s) (sym rates),
        )

  module _ (db : Db) (q : Line) (h : Holds (view db) keys q) (live : IsLive (view db) keys) where
    pub decoded_batch :
        (n : ℕ)
        → n ≤ length q.waiting
        → decode_batch R (released R keys q n)
          ≡ ok (
              some (record { admitted_tokens = take n q.waiting; admitted_total = q.admitted + n }))
    unfolding decode_batch
    decoded_batch n fits =
        let size : (length (take n q.waiting) == n) ≡ true =
          (==_iff (length (take n q.waiting)) n).1 (omega (arith, length-take n q.waiting)) in
        rw (every_second-flat, size) refl

    -- On a configured event in step with `q` whose drop runs, `admit_batch` returns the first `due`
    -- waiting tokens, in their order, and the new total; its assertion never fails.
    pub admit_batch_returns :
        (now : ℕ)
        → 0 < config_of R keys db (codes "rate_per_min")
        → ((admit_batch R delivered event_id now db).0
            ≡ ok (
                some (record {
                  admitted_tokens = take (due R keys db q now) q.waiting;
                  admitted_total = q.admitted + due R keys db q now;
                })))
          × Holds
              (view (admit_batch R delivered event_id now db).1)
              keys
              (leave (due R keys db q now) q)
    unfolding admit_batch
    admit_batch_returns now runs =
        let out = admit_batch-leave R keys db q h now (present_of_live (view db) keys live) runs in
        (
          rw out.reply (decoded_batch (due R keys db q now) (batch_size_bounds _ _ _).0),
          out.in_step,
        )
