-- ===== src/Scripts.antt =====
-- lua/join.lua, lua/position.lua and lua/admit_batch.lua. A script is one atomic step of the server:
-- a function from its keys, its arguments and the database to the reply and the new database.
-- `rate_per_min`, `burst` and `batch_max` are natural numbers here. The double `tokens` is counted to
-- the nearest sixty-thousandth of a token, of which the refill `elapsed_ms * rate / 60000` adds a whole
-- number; what its rounding does to `math.floor(tokens)` is left to the server, by `whole` of Redis:
-- where the count is a whole number of tokens, the floor may be one less.
use queue_fair.Prelude.{
  ℕ, ◌+◌, ◌-◌, ◌*◌, Text, codes, not, Option, none, some, List, [], ◌∷◌, or_zero, leb, ltb,
  if◌then◌else◌,
}
use Prim.Native.Nat.{min}
use queue_fair.Redis.{Redis}

-- An entry of the flat ZPOPMIN reply.
pub data Atom : Type 0 where
  member : Text → Atom
  score : ℕ → Atom

pub data Item : Type 0 where
  int : ℕ → Item
  bulk : Text → Item
  array : List Atom → Item

abbrev pub Reply : Type 0
Reply = List Item

-- member, score, member, score, ...
unfoldable pub flat : List (Text × ℕ) → List Atom
flat [] = []
flat ((m, s) ∷ l) = member m ∷ score s ∷ flat l

-- Sixty-thousandths of a token in one token.
abbrev pub token_unit : ℕ
token_unit = 60000

-- `elapsed_ms`, clamped at 0 when the clock stepped backwards.
unfoldable pub elapsed : ℕ → ℕ → ℕ
elapsed now last_refill = if ltb now last_refill then 0 else now - last_refill

-- In sixty-thousandths, counted without rounding.
unfoldable pub refill : ℕ → ℕ → ℕ → ℕ → ℕ
refill burst rate tokens elapsed_ms = min (burst * token_unit) (tokens + elapsed_ms * rate)

-- The three ceilings, from `math.floor(tokens)` on.
unfoldable pub batch_size : ℕ → ℕ → ℕ → ℕ
batch_size n batch_max waiting =
    let m = if ltb batch_max n then batch_max else n in if ltb waiting m then waiting else m

-- The bucket as it is stored, or full on the first call for the event.
unfoldable pub bucket_state : ℕ → ℕ → Option ℕ → Option ℕ → ℕ × ℕ
bucket_state burst now (some tokens) (some last_refill) = (tokens, last_refill)
bucket_state burst now none last_refill = (burst * token_unit, now)
bucket_state burst now (some tokens) none = (burst * token_unit, now)

module _ (R : Redis) where
  open R use {
    Db, whole, exists, zscore, zrank, zcard, get_number, get_string, hget, zadd, zpopmin, incrby,
    hset,
  }

  -- INCR and ZADD only for a new member: the sequence, the flag `joined` and the database.
  unfoldable pub place : Text → Text → Text → Option ℕ → Db → ℕ × ℕ × Db
  place queue seq token (some s) db = (s, 0, db)
  place queue seq token none db = let (s, db') = incrby db seq 1 in (s, 1, zadd db' queue s token)

  -- The reply of join.lua.
  unfoldable pub placed : (queue admitted config : Text) → ℕ × ℕ × Db → Reply × Db
  placed queue admitted config (s, joined, db) = (
    int 1
        ∷ int s
        ∷ int joined
        ∷ int (zcard db queue)
        ∷ int (or_zero (get_number db admitted))
        ∷ int (or_zero (hget db config (codes "rate_per_min")))
        ∷ [],
    db,
  )

  -- join.lua
  unfoldable pub join : (queue seq admitted config token : Text) → Db → Reply × Db
  unfolding place placed
  join queue seq admitted config token db =
      if not (exists db config)
      then (int 0 ∷ [], db)
      else placed queue admitted config (place queue seq token (zscore db queue token) db)

  -- Without a rank: the pass, if one is stored.
  unfoldable pub not_waiting : Text → Text → Option Text → Db → Reply
  not_waiting queue admitted (some admission) db =
      int 3 ∷ bulk admission ∷ int (zcard db queue) ∷ int (or_zero (get_number db admitted)) ∷ []
  not_waiting queue admitted none db = int 1 ∷ []

  unfoldable pub ranked : (queue admitted config pass_key : Text) → Option ℕ → Db → Reply
  unfolding not_waiting
  ranked queue admitted config pass_key none db =
      not_waiting queue admitted (get_string db pass_key) db
  ranked queue admitted config pass_key (some rank) db =
      int 2
      ∷ int (rank + 1)
      ∷ int (zcard db queue)
      ∷ int (or_zero (get_number db admitted))
      ∷ int (or_zero (hget db config (codes "rate_per_min")))
      ∷ []

  -- position.lua, which writes nothing
  unfoldable pub position : (queue admitted config pass_key token : Text) → Db → Reply × Db
  unfolding ranked
  position queue admitted config pass_key token db =
      if not (exists db config)
      then (int 0 ∷ [], db)
      else (ranked queue admitted config pass_key (zrank db queue token) db, db)

  -- The end of admit_batch.lua: pop and count.
  unfoldable pub release : Text → Text → ℕ → Db → Reply × Db
  unfolding flat
  release queue admitted n db =
      if leb n 0
      then (int 1 ∷ int 0 ∷ int (or_zero (get_number db admitted)) ∷ array [] ∷ [], db)
      else (let (popped, db') = zpopmin db queue n in
          let (admitted_total, db'') = incrby db' admitted n in
          (int 1 ∷ int n ∷ int admitted_total ∷ array (flat popped) ∷ [], db''))

  -- From the refilled tokens on.
  unfoldable pub spend : Text → Text → Text → ℕ → ℕ → ℕ → Db → Reply × Db
  unfolding release batch_size
  spend queue admitted bucket batch_max now tokens db =
      let n = batch_size (whole bucket now tokens) batch_max (zcard db queue) in
      release queue admitted n (
        hset db bucket
          ((codes "tokens", tokens - n * token_unit) ∷ (codes "last_refill_ms", now) ∷ []))

  -- The part of admit_batch.lua below the reading of the configuration.
  unfoldable pub tick :
      (queue admitted bucket : Text) → (rate burst batch_max : ℕ) → ℕ → Db → Reply × Db
  unfolding spend refill elapsed bucket_state
  tick queue admitted bucket rate burst batch_max now db =
      let (tokens, last_refill) =
        bucket_state burst now (hget db bucket (codes "tokens"))
          (hget db bucket (codes "last_refill_ms")) in
      if leb rate 0
      then (int 1 ∷ int 0 ∷ int (or_zero (get_number db admitted)) ∷ array [] ∷ [], db)
      else spend queue admitted bucket batch_max now
          (refill burst rate tokens (elapsed now last_refill)) db

  -- admit_batch.lua
  unfoldable pub admit_batch : (queue admitted bucket config : Text) → ℕ → Db → Reply × Db
  unfolding tick
  admit_batch queue admitted bucket config now db =
      if not (exists db config)
      then (int 0 ∷ [], db)
      else tick queue admitted bucket (or_zero (hget db config (codes "rate_per_min")))
          (or_zero (hget db config (codes "burst"))) (or_zero (hget db config (codes "batch_max")))
          now db
