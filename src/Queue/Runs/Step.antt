-- ===== src/Queue/Runs/Step.antt =====
-- What one event does to a queue that is in step.
use queue_fair.Prelude.{
  ℕ, suc, ◌<◌, Text, codes, true, false, none, some, List, [], ◌∷◌, ◌≡◌, refl, arith, take, insert,
  text_eq-append, is_empty, leb, Bool-cases, inl, inr, if◌then◌else◌,
}
use queue_fair.Redis.{View, Redis, present, insert_all}
use queue_fair.Keys
use queue_fair.Keys.{EventKeys}
use queue_fair.Scripts.{flat}
use queue_fair.Queue.{Line, Holds, enter, leave, numbered, index_of}
use queue_fair.Queue.Join.{join-enter}
use queue_fair.Queue.Position.{position-told}
use queue_fair.Queue.Admit.{admit_batch-leave, admit_batch_paused, due, config_of}
use queue_fair.Queue.Release.{Holds-set_hash, Holds-leave_zero}
use queue_fair.Queue.Runs.{
  Event, join, ask, admit, park, expire, configure, step, popped_by, IsLive, settings,
}

-- A live event is configured for the scripts.
pub present_of_live :
    (v : View) (keys : EventKeys) → IsLive v keys → present v (Keys.config keys) ≡ true
present_of_live v keys live = ground arith

pub live_insert : (f : Text) (n : ℕ) (h : List (Text × ℕ)) → is_empty (insert f n h) ≡ false
live_insert f n [] = refl
live_insert f n ((g, m) ∷ h) = ground arith

-- HSET leaves a field.
live_insert_all : (fs h : List (Text × ℕ)) → is_empty h ≡ false → is_empty (insert_all fs h) ≡ false
live_insert_all [] h live = live
live_insert_all ((f, n) ∷ fs) h live = live_insert_all fs (insert f n h) (live_insert f n h)

-- An admission step is a batch of the first `n`, none if the drop is paused.
module _ (R : Redis) (keys : EventKeys) where
  open R use {Db, view, view-hset, view-set_ex, view-expire}

  abbrev pub rate_of : Db → ℕ
  rate_of db = config_of R keys db (codes "rate_per_min")

  abbrev pub admitted_by : Event → Db → Line → ℕ
  admitted_by (admit now) db q = if leb (rate_of db) 0 then 0 else due R keys db q now
  admitted_by _ db q = 0

  -- The tokens that the event adds.
  abbrev pub added_by : Event → Line → List Text
  added_by (join t) q = elim (index_of t q.waiting) [ none ↦ t ∷ [] | some i ↦ [] ]
  added_by _ q = []

  -- The queue after an event.
  abbrev pub line_after : Event → Db → Line → Line
  line_after (join t) db q = (enter t q).0
  line_after e db q = leave (admitted_by e db q) q

  pub record Stepped (e : Event) (db : Db) (q : Line) : Type 0 where
    pub in_step : Holds (view (step R keys e db).1) keys (line_after e db q)
    pub log :
        popped_by R keys e (step R keys e db).0
        ≡ flat (numbered (suc q.admitted) (take (admitted_by e db q) q.waiting))
    pub live : IsLive (view (step R keys e db).1) keys

  module _ (db : Db) (q : Line) (h : Holds (view db) keys q) (live : IsLive (view db) keys) where
    Stepped-join : (t : Text) → Stepped (join t) db q
    unfolding step flat
    Stepped-join t =
        let entered = join-enter R keys db t q h (present_of_live (view db) keys live) in
        record { in_step = entered.0; log = refl; live = rw (entered.2) live }

    Stepped-ask : (t : Text) → Stepped (ask t) db q
    unfolding step flat
    Stepped-ask t =
        let told = position-told R keys db t q h (present_of_live (view db) keys live) in
        record {
          in_step = rw told (Holds-leave_zero (view db) keys q h);
          log = refl;
          live = rw told live;
        }

    paused_rate : (rate : ℕ) → leb rate 0 ≡ true → rate ≡ 0
    paused_rate rate e = ground arith

    running_rate : (rate : ℕ) → leb rate 0 ≡ false → 0 < rate
    running_rate rate e = ground arith

    Stepped-paused : (now : ℕ) → leb (rate_of db) 0 ≡ true → Stepped (admit now) db q
    unfolding step flat
    Stepped-paused now stop =
        let out =
          admit_batch_paused R keys db q h now (present_of_live (view db) keys live)
            (paused_rate (rate_of db) stop) in
        record {
          in_step = rw (out, stop) (Holds-leave_zero (view db) keys q h);
          log = rw (out, stop) refl;
          live = rw out live;
        }

    Stepped-running : (now : ℕ) → leb (rate_of db) 0 ≡ false → Stepped (admit now) db q
    unfolding step flat
    Stepped-running now runs =
        let out =
          admit_batch-leave R keys db q h now (present_of_live (view db) keys live)
            (running_rate (rate_of db) runs) in
        record {
          in_step = rw runs out.in_step;
          log = rw (runs, out.reply) refl;
          live = rw out.kept (simp text_eq-append live);
        }

    Stepped-admit : (now : ℕ) → Stepped (admit now) db q
    Stepped-admit now = elim (Bool-cases (leb (rate_of db) 0)) [
      | inl stop ↦ Stepped-paused now stop
      | inr runs ↦ Stepped-running now runs
    ]

    Stepped-park : (t payload : Text) (ttl : ℕ) → Stepped (park t payload ttl) db q
    unfolding step flat
    Stepped-park t payload ttl =
        let e = view-set_ex db (Keys.pass_for keys t) payload ttl in
        let z = Holds-leave_zero (view db) keys q h in
        record {
          in_step = rw e (record {
            members = z.members;
            issued = z.issued;
            counted = z.counted;
            distinct = z.distinct;
          });
          log = refl;
          live = rw e live;
        }

    Stepped-expire : (t : Text) → Stepped (expire t) db q
    unfolding step flat
    Stepped-expire t =
        let e = view-expire db (Keys.pass_for keys t) in
        let z = Holds-leave_zero (view db) keys q h in
        record {
          in_step = rw e (record {
            members = z.members;
            issued = z.issued;
            counted = z.counted;
            distinct = z.distinct;
          });
          log = refl;
          live = rw e live;
        }

    Stepped-configure : (rate burst batch_max : ℕ) → Stepped (configure rate burst batch_max) db q
    unfolding step flat
    Stepped-configure rate burst batch_max =
        let fs = settings rate burst batch_max in
        let old = (view db).hashes (Keys.config keys) in
        let e = view-hset db (Keys.config keys) fs in
        record {
          in_step = rw e (
              Holds-set_hash (view db) keys (leave 0 q) (Keys.config keys) (insert_all fs old)
                (Holds-leave_zero (view db) keys q h));
          log = refl;
          live = rw e (simp (text_eq-append) (live_insert_all fs old live));
        }

    -- Every event keeps the keys in step with the queue and the event configured, and pops exactly
    -- the first of the queue, with their sequences.
    pub step-Stepped : (e : Event) → Stepped e db q
    step-Stepped (join t) = Stepped-join t
    step-Stepped (ask t) = Stepped-ask t
    step-Stepped (admit now) = Stepped-admit now
    step-Stepped (park t payload ttl) = Stepped-park t payload ttl
    step-Stepped (expire t) = Stepped-expire t
    step-Stepped (configure rate burst batch_max) = Stepped-configure rate burst batch_max
