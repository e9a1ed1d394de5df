-- ===== src/Queue/Alike.antt =====
-- Two servers with the same keys of an event: the scripts of the event do the same to both.
pub mod Steps
use queue_fair.Prelude.{
  ℕ, suc, ◌+◌, ◌-◌, ◌*◌, Text, codes, Bool, Option, none, some, List, [], ◌∷◌, ◌++◌, ◌≡◌, refl, ap,
  sym, ◌∙◌, true, false, text_eq, leb, Bool-cases, Option-cases, length, drop, or_zero, lookup, inl,
  inr,
}
use mathlib.Core.Path.{subst, ap₂}
use queue_fair.Redis.{View, Redis, present, set_zset, set_number, set_hash, set_string, insert_all}
use queue_fair.Keys
use queue_fair.Keys.{EventKeys}
use queue_fair.Keys.Distinct.{Kind, key_of}
use queue_fair.Scripts
use queue_fair.Scripts.{release, spend, tick, batch_size, token_unit}
use queue_fair.Queue.{Line, Holds, index_of}
use queue_fair.Queue.Apart.{Same, Holds-Same}
use queue_fair.Queue.Join.{join_new, join-resume}
use queue_fair.Queue.Position.{position-told}
use queue_fair.Queue.Runs
use queue_fair.Queue.Runs.{
  Event, ask, admit, park, expire, configure, settings, step, final, IsLive,
}
use queue_fair.Queue.Runs.Step.{present_of_live, step-Stepped, line_after}

abbrev pub Alike : EventKeys → View → View → Type 0
Alike keys v w = (k : Kind) → Same (key_of k keys) v w

present-Same : (k : Text) (v w : View) → Same k v w → present w k ≡ present v k
present-Same k v w s = rw (s.zset, s.number, s.hash, s.string) refl

module _ (k : Text) (v w : View) (s : Same k v w) (j : Text) where
  pub Same-both_zset : (l m : List (Text × ℕ)) → m ≡ l → Same k (set_zset v j l) (set_zset w j m)
  Same-both_zset l m e = elim (Bool-cases (text_eq j k)) [
    | inl here ↦ record { zset = rw here e; number = s.number; hash = s.hash; string = s.string }
    | inr there ↦ record {
      zset = rw there (s.zset);
      number = s.number;
      hash = s.hash;
      string = s.string;
    }
  ]

  pub Same-both_number : (n m : ℕ) → m ≡ n → Same k (set_number v j n) (set_number w j m)
  Same-both_number n m e = elim (Bool-cases (text_eq j k)) [
    | inl here ↦ record {
      zset = s.zset;
      number = rw here (ap (λ (i : ℕ). some i) e);
      hash = s.hash;
      string = s.string;
    }
    | inr there ↦ record {
      zset = s.zset;
      number = rw there (s.number);
      hash = s.hash;
      string = s.string;
    }
  ]

  Same-both_hash : (l m : List (Text × ℕ)) → m ≡ l → Same k (set_hash v j l) (set_hash w j m)
  Same-both_hash l m e = elim (Bool-cases (text_eq j k)) [
    | inl here ↦ record { zset = s.zset; number = s.number; hash = rw here e; string = s.string }
    | inr there ↦ record {
      zset = s.zset;
      number = s.number;
      hash = rw there (s.hash);
      string = s.string;
    }
  ]

  pub Same-both_string : (o : Option (Text × ℕ)) → Same k (set_string v j o) (set_string w j o)
  Same-both_string o = elim (Bool-cases (text_eq j k)) [
    | inl here ↦ record { zset = s.zset; number = s.number; hash = s.hash; string = rw here refl }
    | inr there ↦ record {
      zset = s.zset;
      number = s.number;
      hash = s.hash;
      string = rw there (s.string);
    }
  ]

module _ (R : Redis) (keys : EventKeys) where
  open R use {
    Db, view, exists, exists_lem, zcard_lem, hget, hget_lem, view-zpopmin, view-incrby, view-hset,
  }

  abbrev pub Both : Db → Db → Type 0
  Both a b = Alike keys (view a) (view b)

  exists-Both : (a b : Db) → Both a b → exists b (Keys.config keys) ≡ exists a (Keys.config keys)
  exists-Both a b s =
      exists_lem b (Keys.config keys)
      ∙ present-Same (Keys.config keys) (view a) (view b) (s Kind.config)
      ∙ sym (exists_lem a (Keys.config keys))

  hget-Both :
      (k : Kind) (f : Text) (a b : Db)
      → Both a b
      → hget b (key_of k keys) f ≡ hget a (key_of k keys) f
  hget-Both k f a b s = rw (hget_lem, hget_lem, (s k).hash) refl

  zcard-Both : (a b : Db) → Both a b → R.zcard b (Keys.queue keys) ≡ R.zcard a (Keys.queue keys)
  zcard-Both a b s = rw (zcard_lem, zcard_lem, (s Kind.queue).zset) refl

  Alike-release :
      (n : ℕ) (a b : Db)
      → Both a b
      → Both
          (release R (Keys.queue keys) (Keys.admitted keys) n a).1
          (release R (Keys.queue keys) (Keys.admitted keys) n b).1
  unfolding release
  Alike-release n a b s k = elim (Bool-cases (leb n 0)) [
    | inl e ↦ rw e (s k)
    | inr e ↦
        rw (e, view-incrby, view-zpopmin, view-incrby, view-zpopmin)
          (Same-both_number _ _ _
            (Same-both_zset (key_of k keys) (view a) (view b) (s k) (Keys.queue keys) _ _
              (ap (drop n) ((s Kind.queue).zset)))
            (Keys.admitted keys) _ _
            (ap (λ (o : Option ℕ). or_zero o + n) ((s Kind.admitted).number)))
  ]

  pub Alike-hset :
      (j : Kind) (fs gs : List (Text × ℕ)) (a b : Db)
      → gs ≡ fs
      → Both a b
      → Both (R.hset a (key_of j keys) fs) (R.hset b (key_of j keys) gs)
  Alike-hset j fs gs a b e s k =
      rw (view-hset a (key_of j keys) fs, view-hset b (key_of j keys) gs)
        (Same-both_hash (key_of k keys) (view a) (view b) (s k) (key_of j keys) _ _
          (ap₂ (λ f h. insert_all f h) e ((s j).hash)))

  Alike-spend :
      (batch_max now tokens : ℕ) (a b : Db)
      → Both a b
      → Both
          (spend R
            (Keys.queue keys)
            (Keys.admitted keys)
            (Keys.bucket keys)
            batch_max
            now
            tokens
            a).1
          (spend R
            (Keys.queue keys)
            (Keys.admitted keys)
            (Keys.bucket keys)
            batch_max
            now
            tokens
            b).1
  unfolding spend
  Alike-spend batch_max now tokens a b s =
      rw (zcard-Both a b s) (Alike-release _ _ _ (Alike-hset Kind.bucket _ _ a b refl s))

  Alike-tick :
      (rate burst batch_max now : ℕ) (a b : Db)
      → Both a b
      → Both
          (tick R
            (Keys.queue keys)
            (Keys.admitted keys)
            (Keys.bucket keys)
            rate
            burst
            batch_max
            now
            a).1
          (tick R
            (Keys.queue keys)
            (Keys.admitted keys)
            (Keys.bucket keys)
            rate
            burst
            batch_max
            now
            b).1
  unfolding tick
  Alike-tick rate burst batch_max now a b s = elim (Bool-cases (leb rate 0)) [
    | inl e ↦ rw e s
    | inr e ↦
        rw
          (
            e,
            hget-Both Kind.bucket (codes "tokens") a b s,
            hget-Both Kind.bucket (codes "last_refill_ms") a b s,
          )
          (Alike-spend batch_max now _ a b s)
  ]

  pub Alike-admit :
      (now : ℕ) (a b : Db)
      → Both a b
      → Both (step R keys (admit now) a).1 (step R keys (admit now) b).1
  unfolding step Scripts.admit_batch
  Alike-admit now a b s = elim (Bool-cases (exists a (Keys.config keys))) [
    | inl e ↦
        rw
          (
            exists-Both a b s,
            e,
            hget-Both Kind.config (codes "rate_per_min") a b s,
            hget-Both Kind.config (codes "burst") a b s,
            hget-Both Kind.config (codes "batch_max") a b s,
          )
          (Alike-tick _ _ _ now a b s)
    | inr e ↦ rw (exists-Both a b s, e) s
  ]
