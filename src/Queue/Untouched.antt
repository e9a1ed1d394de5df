-- ===== src/Queue/Untouched.antt =====
-- admit_batch.lua and the strings, the parked passes among them.
use queue_fair.Prelude.{ℕ, Text, ◌≡◌, refl, ap, ◌∙◌, leb, Bool-cases, inl, inr}
use queue_fair.Redis.{View, Redis}
use queue_fair.Scripts
use queue_fair.Scripts.{release, spend, tick}

module _ (R : Redis) where
  open R use {Db, view, exists, view-zpopmin, view-incrby, view-hset}

  release_strings :
      (queue admitted : Text) (n : ℕ) (db : Db)
      → (view (release R queue admitted n db).1).strings ≡ (view db).strings
  unfolding release
  release_strings queue admitted n db = elim (Bool-cases (leb n 0)) [
    | inl e ↦ rw e refl
    | inr e ↦ rw (e, view-incrby, view-zpopmin) refl
  ]

  spend_strings :
      (queue admitted bucket : Text) (batch_max now tokens : ℕ) (db : Db)
      → (view (spend R queue admitted bucket batch_max now tokens db).1).strings ≡ (view db).strings
  unfolding spend
  spend_strings queue admitted bucket batch_max now tokens db =
      release_strings queue admitted _ _ ∙ ap (λ (v : View). v.strings) (view-hset db bucket _)

  tick_strings :
      (queue admitted bucket : Text) (rate burst batch_max now : ℕ) (db : Db)
      → (view (tick R queue admitted bucket rate burst batch_max now db).1).strings
        ≡ (view db).strings
  unfolding tick
  tick_strings queue admitted bucket rate burst batch_max now db = elim (Bool-cases (leb rate 0)) [
    | inl e ↦ rw e refl
    | inr e ↦ rw e (spend_strings queue admitted bucket batch_max now _ db)
  ]

  pub admit_batch_strings :
      (queue admitted bucket config : Text) (now : ℕ) (db : Db)
      → (view (Scripts.admit_batch R queue admitted bucket config now db).1).strings
        ≡ (view db).strings
  unfolding Scripts.admit_batch
  admit_batch_strings queue admitted bucket config now db = elim (Bool-cases (exists db config)) [
    | inl e ↦ rw e (tick_strings queue admitted bucket _ _ _ now db)
    | inr e ↦ rw e refl
  ]
