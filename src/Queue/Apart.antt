-- ===== src/Queue/Apart.antt =====
-- What the scripts and the other events of one sale leave of a key that is not of that sale.
use queue_fair.Prelude.{
  ℕ, Text, Option, List, [], ◌∷◌, ◌≡◌, refl, ◌∙◌, false, text_eq, leb, Bool-cases, Option-cases,
  inl, inr,
}
use queue_fair.Redis.{View, Redis, set_zset, set_number, set_hash, set_string}
use queue_fair.Keys
use queue_fair.Keys.{EventKeys}
use queue_fair.Keys.Distinct.{Kind, key_of}
use queue_fair.Scripts
use queue_fair.Scripts.{release, spend, tick}
use queue_fair.Queue.{Line, Holds, index_of}
use queue_fair.Queue.Join.{join_new, join-resume}
use queue_fair.Queue.Position.{position-told}
use queue_fair.Queue.Runs
use queue_fair.Queue.Runs.{Event, ask, admit, park, expire, configure, step, final, IsLive}
use queue_fair.Queue.Runs.Step.{present_of_live, step-Stepped, line_after}

-- The same value stands under a key, of whatever sort.
pub record Same (k : Text) (v w : View) : Type 0 where
  pub zset : w.zsets k ≡ v.zsets k
  pub number : w.numbers k ≡ v.numbers k
  pub hash : w.hashes k ≡ v.hashes k
  pub string : w.strings k ≡ v.strings k

pub Same-refl : (k : Text) (v : View) → Same k v v
Same-refl k v = record { zset = refl; number = refl; hash = refl; string = refl }

pub Same-trans : (k : Text) (u v w : View) → Same k u v → Same k v w → Same k u w
Same-trans k u v w a b = record {
  zset = b.zset ∙ a.zset;
  number = b.number ∙ a.number;
  hash = b.hash ∙ a.hash;
  string = b.string ∙ a.string;
}

-- An event whose keys are the same is in step with the same queue.
pub Holds-Same :
    (e : EventKeys) (v w : View) (p : Line)
    → ((k : Kind) → Same (key_of k e) v w)
    → Holds v e p
    → Holds w e p
Holds-Same e v w p same h = record {
  members = (same Kind.queue).zset ∙ h.members;
  issued = rw ((same Kind.seq).number) h.issued;
  counted = rw ((same Kind.admitted).number) h.counted;
  distinct = h.distinct;
}

module _ (k : Text) (v : View) (j : Text) (other : text_eq j k ≡ false) where
  Same-set_zset : (l : List (Text × ℕ)) → Same k v (set_zset v j l)
  Same-set_zset l = record { zset = rw other refl; number = refl; hash = refl; string = refl }

  Same-set_number : (n : ℕ) → Same k v (set_number v j n)
  Same-set_number n = record { zset = refl; number = rw other refl; hash = refl; string = refl }

  Same-set_hash : (h : List (Text × ℕ)) → Same k v (set_hash v j h)
  Same-set_hash h = record { zset = refl; number = refl; hash = rw other refl; string = refl }

  Same-set_string : (s : Option (Text × ℕ)) → Same k v (set_string v j s)
  Same-set_string s = record { zset = refl; number = refl; hash = refl; string = rw other refl }

module _ (R : Redis) (keys : EventKeys) (k : Text)
    (foreign : (j : Kind) → text_eq (key_of j keys) k ≡ false) where
  open R use {Db, view, exists, view-zpopmin, view-incrby, view-hset, view-set_ex, view-expire}

  Same-release :
      (n : ℕ) (db : Db)
      → Same k (view db) (view (release R (Keys.queue keys) (Keys.admitted keys) n db).1)
  unfolding release
  Same-release n db = elim (Bool-cases (leb n 0)) [
    | inl e ↦ rw e (Same-refl k (view db))
    | inr e ↦
        rw (e, view-incrby, view-zpopmin)
          (Same-trans k _ _ _ (Same-set_zset k (view db) (Keys.queue keys) (foreign Kind.queue) _)
            (Same-set_number k _ (Keys.admitted keys) (foreign Kind.admitted) _))
  ]

  Same-hset :
      (j : Text) (fs : List (Text × ℕ)) (db : Db)
      → text_eq j k ≡ false
      → Same k (view db) (view (R.hset db j fs))
  Same-hset j fs db other = rw (view-hset db j fs) (Same-set_hash k (view db) j other _)

  Same-spend :
      (batch_max now tokens : ℕ) (db : Db)
      → Same k (view db) (
          view
            (spend R
              (Keys.queue keys)
              (Keys.admitted keys)
              (Keys.bucket keys)
              batch_max
              now
              tokens
              db).1)
  unfolding spend
  Same-spend batch_max now tokens db =
      Same-trans k _ _ _ (Same-hset (Keys.bucket keys) _ db (foreign Kind.bucket))
        (Same-release _ _)

  Same-tick :
      (rate burst batch_max now : ℕ) (db : Db)
      → Same k (view db) (
          view
            (tick R
              (Keys.queue keys)
              (Keys.admitted keys)
              (Keys.bucket keys)
              rate
              burst
              batch_max
              now
              db).1)
  unfolding tick
  Same-tick rate burst batch_max now db = elim (Bool-cases (leb rate 0)) [
    | inl e ↦ rw e (Same-refl k (view db))
    | inr e ↦ rw e (Same-spend batch_max now _ db)
  ]

  Same-admit : (now : ℕ) (db : Db) → Same k (view db) (view (step R keys (admit now) db).1)
  unfolding step Scripts.admit_batch
  Same-admit now db = elim (Bool-cases (exists db (Keys.config keys))) [
    | inl e ↦ rw e (Same-tick _ _ _ now db)
    | inr e ↦ rw e (Same-refl k (view db))
  ]

  module _ (db : Db) (q : Line) (h : Holds (view db) keys q) (live : IsLive (view db) keys) where
    Same-join : (t : Text) → Same k (view db) (view (step R keys (Runs.join t) db).1)
    unfolding step
    Same-join t = elim (Option-cases (index_of t q.waiting)) [
      | inl new ↦ rw (join_new R keys db t q h (present_of_live (view db) keys live) new) (
          Same-trans k _ _ _ (Same-set_number k (view db) (Keys.seq keys) (foreign Kind.seq) _)
            (Same-set_zset k _ (Keys.queue keys) (foreign Kind.queue) _))
      | inr (i, old) ↦ rw (join-resume R keys db t q h i old) (Same-refl k (view db))
    ]

    Same-step : (e : Event) → Same k (view db) (view (step R keys e db).1)
    unfolding step
    Same-step (Runs.join t) = Same-join t
    Same-step (ask t) =
        rw (position-told R keys db t q h (present_of_live (view db) keys live))
          (Same-refl k (view db))
    Same-step (admit now) = Same-admit now db
    Same-step (park t payload ttl) =
        rw (view-set_ex db (Keys.pass_for keys t) payload ttl)
          (Same-set_string k (view db) (Keys.pass_for keys t) (foreign (Kind.pass_for t)) _)
    Same-step (expire t) =
        rw (view-expire db (Keys.pass_for keys t))
          (Same-set_string k (view db) (Keys.pass_for keys t) (foreign (Kind.pass_for t)) _)
    Same-step (configure rate burst batch_max) =
        Same-hset (Keys.config keys) _ db (foreign Kind.config)

  pub Same-final :
      (es : List Event) (db : Db) (q : Line)
      → Holds (view db) keys q
      → IsLive (view db) keys
      → Same k (view db) (view (final R keys es db))
  unfolding final
  Same-final [] db q h live = Same-refl k (view db)
  Same-final (e ∷ es) db q h live =
      let st = step-Stepped R keys db q h live e in
      Same-trans k _ _ _ (Same-step db q h live e)
        (Same-final es (step R keys e db).1 (line_after R keys e db q) st.in_step st.live)
