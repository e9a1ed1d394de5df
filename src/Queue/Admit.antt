-- ===== src/Queue/Admit.antt =====
-- admit_batch.lua and `leave`.
use queue_fair.Prelude.{
  ℕ, suc, ◌-◌, ◌*◌, ◌≤◌, ◌<◌, Text, codes, true, false, Option, List, [], ◌∷◌, ◌≡◌, refl, ap, sym,
  ◌∙◌, arith, or_zero, length, lookup, leb, update,
}
use mathlib.Core.Path.{subst}
use queue_fair.Redis.{Redis, present, insert_all}
use queue_fair.Keys
use queue_fair.Keys.{EventKeys}
use queue_fair.Scripts
use queue_fair.Scripts.{
  Reply, int, array, flat, batch_size, token_unit, release, spend, tick, refill, elapsed,
  bucket_state,
}
use queue_fair.Queue.{Line, Holds}
use queue_fair.Queue.Numbered.{length-numbered}
use queue_fair.Queue.Release.{batch_size_bounds, Holds-set_hash, Released, release_lem}

running : (rate : ℕ) → 0 < rate → leb rate 0 ≡ false
running rate h = ground arith

module _ (R : Redis) (keys : EventKeys) where
  open R use {
    Db, view, whole, whole_le, exists, exists_lem, zcard, zcard_lem, get_number, get_number_lem,
    hget, hget_lem, zpopmin, zpopmin_reply, incrby, incrby_reply, hset, view-zpopmin, view-incrby,
    view-hset,
  }

  -- admit_batch.lua with the keys that the repository passes
  abbrev pub admit_batch : ℕ → Db → Reply × Db
  admit_batch =
      Scripts.admit_batch R (Keys.queue keys) (Keys.admitted keys) (Keys.bucket keys)
        (Keys.config keys)

  abbrev pub config_of : Db → Text → ℕ
  config_of db field = or_zero (lookup field ((view db).hashes (Keys.config keys)))

  abbrev pub bucket_field : Db → Text → Option ℕ
  bucket_field db field = lookup field ((view db).hashes (Keys.bucket keys))

  -- The tokens of the bucket at the time `now`, refilled.
  abbrev pub live_tokens : Db → ℕ → ℕ
  live_tokens db now =
      let b =
        bucket_state (config_of db (codes "burst")) now (bucket_field db (codes "tokens"))
          (bucket_field db (codes "last_refill_ms")) in
      refill (config_of db (codes "burst")) (config_of db (codes "rate_per_min")) b.0
        (elapsed now b.1)

  -- The size of the batch at the time `now`, if the drop is not paused.
  abbrev pub due : Db → Line → ℕ → ℕ
  due db q now =
      batch_size (whole (Keys.bucket keys) now (live_tokens db now))
        (config_of db (codes "batch_max")) (length q.waiting)

  -- The bucket once `n` of its tokens are spent at the time `now`.
  abbrev pub bucket_after : ℕ → ℕ → ℕ → List (Text × ℕ)
  bucket_after tokens n now =
      (codes "tokens", tokens - n * token_unit) ∷ (codes "last_refill_ms", now) ∷ []

  abbrev pub hashes_after : Db → ℕ → ℕ → ℕ → Text → List (Text × ℕ)
  hashes_after db tokens n now =
      update (view db).hashes (Keys.bucket keys)
        (insert_all (bucket_after tokens n now) ((view db).hashes (Keys.bucket keys)))

  module _ (db : Db) (q : Line) (h : Holds (view db) keys q) (now : ℕ) where
    spend_lem :
        (batch_max tokens : ℕ)
        → (let n = batch_size (whole (Keys.bucket keys) now tokens) batch_max (length q.waiting) in
            Released R keys q n (hashes_after db tokens n now) (
              spend R
                (Keys.queue keys)
                (Keys.admitted keys)
                (Keys.bucket keys)
                batch_max
                now
                tokens
                db))
    unfolding spend
    spend_lem batch_max tokens =
        let n = batch_size (whole (Keys.bucket keys) now tokens) batch_max (length q.waiting) in
        let fits : n ≤ length q.waiting = (batch_size_bounds _ batch_max (length q.waiting)).0 in
        let size : zcard db (Keys.queue keys) ≡ length q.waiting =
          zcard_lem db (Keys.queue keys)
          ∙ ap length h.members
          ∙ length-numbered (suc q.admitted) q.waiting in
        let db' = hset db (Keys.bucket keys) (bucket_after tokens n now) in
        let stored = view-hset db (Keys.bucket keys) (bucket_after tokens n now) in
        let holds : Holds (view db') keys q =
          subst (λ v. Holds v keys q) (sym stored)
            (Holds-set_hash (view db) keys q (Keys.bucket keys)
              (insert_all (bucket_after tokens n now) ((view db).hashes (Keys.bucket keys))) h) in
        let done = release_lem R keys q n db' holds fits in
        rw size (record {
          in_step = done.in_step;
          reply = done.reply;
          kept = done.kept ∙ ap (λ v. v.hashes) stored;
        })

    tick_lem :
        (rate burst batch_max : ℕ)
        → leb rate 0 ≡ false
        → (let b =
              bucket_state burst now
                (bucket_field db (codes "tokens"))
                (bucket_field db (codes "last_refill_ms")) in
            let tokens = refill burst rate b.0 (elapsed now b.1) in
            let n = batch_size (whole (Keys.bucket keys) now tokens) batch_max (length q.waiting) in
            Released R keys q n (hashes_after db tokens n now) (
              tick R
                (Keys.queue keys)
                (Keys.admitted keys)
                (Keys.bucket keys)
                rate
                burst
                batch_max
                now
                db))
    unfolding tick
    tick_lem rate burst batch_max runs =
        rw
          (
            hget_lem db (Keys.bucket keys) (codes "tokens"),
            hget_lem db (Keys.bucket keys) (codes "last_refill_ms"),
            runs,
          )
          (spend_lem batch_max _)

    -- On a configured event that is not paused and whose keys are in step with the queue `q`,
    -- admit_batch.lua at the time `now` lets the first `due` of the queue leave: it replies with their
    -- number, the new total and exactly these tokens with their sequences, in order; and the bucket
    -- is stored without the tokens spent.
    pub admit_batch-leave :
        present (view db) (Keys.config keys) ≡ true
        → 0 < config_of db (codes "rate_per_min")
        → Released R keys q
            (due db q now)
            (hashes_after db (live_tokens db now) (due db q now) now)
            (admit_batch now db)
    unfolding Scripts.admit_batch
    admit_batch-leave live runs =
        rw
          (
            exists_lem db (Keys.config keys),
            live,
            hget_lem db (Keys.config keys) (codes "rate_per_min"),
            hget_lem db (Keys.config keys) (codes "burst"),
            hget_lem db (Keys.config keys) (codes "batch_max"),
          )
          (tick_lem _ _ _ (running _ runs))

    paused : (rate : ℕ) → rate ≡ 0 → leb rate 0 ≡ true
    paused rate e = ground arith

    tick_paused :
        (rate burst batch_max : ℕ)
        → leb rate 0 ≡ true
        → tick R
            (Keys.queue keys)
            (Keys.admitted keys)
            (Keys.bucket keys)
            rate
            burst
            batch_max
            now
            db
          ≡ (int 1 ∷ int 0 ∷ int (or_zero (get_number db (Keys.admitted keys))) ∷ array [] ∷ [], db)
    unfolding tick
    tick_paused rate burst batch_max e = rw e refl

    -- At rate 0 the script of a configured event replies with no one, and changes nothing: the
    -- tokens in the bucket stay.
    pub admit_batch_paused :
        present (view db) (Keys.config keys) ≡ true
        → config_of db (codes "rate_per_min") ≡ 0
        → admit_batch now db ≡ (int 1 ∷ int 0 ∷ int q.admitted ∷ array [] ∷ [], db)
    unfolding Scripts.admit_batch
    admit_batch_paused live e =
        rw
          (
            exists_lem db (Keys.config keys),
            live,
            hget_lem db (Keys.config keys) (codes "rate_per_min"),
          )
          (tick_paused _ _ _ (paused _ e)
            ∙ ap (λ a. (int 1 ∷ int 0 ∷ int a ∷ array [] ∷ [], db))
                (ap or_zero (get_number_lem db (Keys.admitted keys)) ∙ h.counted))

  -- An event that is not configured: the reply says so, and nothing changes.
  pub admit_batch_unconfigured :
      (db : Db) (now : ℕ)
      → present (view db) (Keys.config keys) ≡ false
      → admit_batch now db ≡ (int 0 ∷ [], db)
  unfolding Scripts.admit_batch
  admit_batch_unconfigured db now gone = rw (exists_lem, gone) refl
