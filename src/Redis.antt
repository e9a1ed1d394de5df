-- ===== src/Redis.antt =====
-- Redis, which the repository only calls: a parameter of the model. `View` is what the documentation
-- speaks of (a keyspace of sorted sets, integers, hashes and strings); `Redis` is a server with an
-- abstract state, its commands, and for each command the documented reply and effect on the view.
-- Every key of this program holds values of one type, so WRONGTYPE replies do not arise. Numbers are
-- read back as they were written: the decimal text between is not modelled. The server also runs the
-- scripts, so what its Lua makes of a double stands here: `whole` is `math.floor` of the tokens of a
-- bucket at a time, whose value without rounding is a number of sixty-thousandths of a token. The
-- double is close to that value (the roundings of all refills add up to less than half of a
-- sixty-thousandth), so its floor is the whole number of tokens, or one less where the value is whole;
-- which of the two, the key, the time and the value are taken to decide.
pub mod Memory
use queue_fair.Prelude.{
  ℕ, zero, suc, refl, arith, ◌+◌, ◌*◌, ◌<◌, ◌≤◌, Text, Bool, ◌||◌, not, Option, none, some, List,
  [], ◌∷◌, ◌++◌, ◌≡◌, length, take, drop, is_empty, is_some, or_zero, lookup, insert, update,
  text_eq, if◌then◌else◌,
}

pub record View : Type 0 where
  -- the members with their scores, in the order of the scores; a set with no member is no key
  pub zsets : Text → List (Text × ℕ)
  pub numbers : Text → Option ℕ
  pub hashes : Text → List (Text × ℕ)
  -- a string value with the seconds that it was set to live
  pub strings : Text → Option (Text × ℕ)

-- EXISTS: some value is stored under the key.
abbrev pub present : View → Text → Bool
present v k =
    not (is_empty (v.zsets k))
    || is_some (v.numbers k)
    || not (is_empty (v.hashes k))
    || is_some (v.strings k)

-- The place of a member in a sorted set, from 0.
abbrev pub rank_of : Text → List (Text × ℕ) → Option ℕ
rank_of m [] = none
rank_of m ((j, s) ∷ l) =
    if text_eq j m then some 0 else elim (rank_of m l) [ none ↦ none | some r ↦ some (suc r) ]

abbrev pub All {ℓ κ} : {A : Type ℓ} → (A → Type κ) → List A → Type κ
All P [] = Unit
All P (x ∷ xs) = P x × All P xs

abbrev pub value_of : Option (Text × ℕ) → Option Text
value_of none = none
value_of (some (t, ttl)) = some t

-- SET with EX: a time to live of 0 is an error, and the old value stays.
abbrev pub set_value : Text → ℕ → Option (Text × ℕ) → Option (Text × ℕ)
set_value t zero old = old
set_value t (suc ttl) old = some (t, suc ttl)

pub set_value_lem :
    (t : Text) (ttl : ℕ) (old : Option (Text × ℕ)) → 0 < ttl → set_value t ttl old ≡ some (t, ttl)
set_value_lem t zero old h = absurd (omega (arith, h))
set_value_lem t (suc ttl) old h = refl

abbrev pub insert_all : List (Text × ℕ) → List (Text × ℕ) → List (Text × ℕ)
insert_all [] h = h
insert_all ((f, n) ∷ fs) h = insert_all fs (insert f n h)

abbrev pub set_zset : View → Text → List (Text × ℕ) → View
set_zset v k l = record v { zsets = update v.zsets k l }

abbrev pub set_number : View → Text → ℕ → View
set_number v k n = record v { numbers = update v.numbers k (some n) }

abbrev pub set_hash : View → Text → List (Text × ℕ) → View
set_hash v k h = record v { hashes = update v.hashes k h }

abbrev pub set_string : View → Text → Option (Text × ℕ) → View
set_string v k s = record v { strings = update v.strings k s }

abbrev pub erase : View → Text → View
erase v k = record {
  zsets = update v.zsets k [];
  numbers = update v.numbers k none;
  hashes = update v.hashes k [];
  strings = update v.strings k none;
}

abbrev pub erase_all : View → List Text → View
erase_all v [] = v
erase_all v (k ∷ ks) = erase_all (erase v k) ks

pub record Redis : Type 1 where
  pub Db : Type 0
  pub view : Db → View
  -- the text of a score in a reply
  pub score_text : ℕ → Text
  pub whole : Text → ℕ → ℕ → ℕ
  pub whole_le : (k : Text) (now n : ℕ) → whole k now n * 60000 ≤ n
  pub whole_near : (k : Text) (now n : ℕ) → n ≤ (whole k now n + 1) * 60000
  -- the commands
  pub exists : Db → Text → Bool
  pub zscore : Db → Text → Text → Option ℕ
  pub zrank : Db → Text → Text → Option ℕ
  pub zcard : Db → Text → ℕ
  pub get_number : Db → Text → Option ℕ
  pub get_string : Db → Text → Option Text
  pub hget : Db → Text → Text → Option ℕ
  pub hgetall : Db → Text → List (Text × ℕ)
  pub zadd : Db → Text → ℕ → Text → Db
  pub zpopmin : Db → Text → ℕ → List (Text × ℕ) × Db
  pub incrby : Db → Text → ℕ → ℕ × Db
  pub hset : Db → Text → List (Text × ℕ) → Db
  pub set_ex : Db → Text → Text → ℕ → Db
  pub del : Db → List Text → Db
  -- the time to live of a string runs out
  pub expire : Db → Text → Db
  -- their replies
  pub exists_lem : (db : Db) (k : Text) → exists db k ≡ present (view db) k
  pub zscore_lem : (db : Db) (k m : Text) → zscore db k m ≡ lookup m ((view db).zsets k)
  pub zrank_lem : (db : Db) (k m : Text) → zrank db k m ≡ rank_of m ((view db).zsets k)
  pub zcard_lem : (db : Db) (k : Text) → zcard db k ≡ length ((view db).zsets k)
  pub get_number_lem : (db : Db) (k : Text) → get_number db k ≡ (view db).numbers k
  pub get_string_lem : (db : Db) (k : Text) → get_string db k ≡ value_of ((view db).strings k)
  pub hget_lem : (db : Db) (k f : Text) → hget db k f ≡ lookup f ((view db).hashes k)
  pub hgetall_lem : (db : Db) (k : Text) → hgetall db k ≡ (view db).hashes k
  pub zpopmin_reply : (db : Db) (k : Text) (n : ℕ) → (zpopmin db k n).0 ≡ take n ((view db).zsets k)
  pub incrby_reply :
      (db : Db) (k : Text) (n : ℕ) → (incrby db k n).0 ≡ or_zero ((view db).numbers k) + n
  -- their effects; ZADD of a new member whose score is above all scores puts it last
  pub view-zadd :
      (db : Db) (k : Text) (n : ℕ) (m : Text)
      → lookup m ((view db).zsets k) ≡ none
      → All (λ (e : Text × ℕ). e.1 < n) ((view db).zsets k)
      → view (zadd db k n m) ≡ set_zset (view db) k ((view db).zsets k ++ (m, n) ∷ [])
  pub view-zpopmin :
      (db : Db) (k : Text) (n : ℕ)
      → view (zpopmin db k n).1 ≡ set_zset (view db) k (drop n ((view db).zsets k))
  pub view-incrby :
      (db : Db) (k : Text) (n : ℕ)
      → view (incrby db k n).1 ≡ set_number (view db) k (or_zero ((view db).numbers k) + n)
  pub view-hset :
      (db : Db) (k : Text) (fs : List (Text × ℕ))
      → view (hset db k fs) ≡ set_hash (view db) k (insert_all fs ((view db).hashes k))
  pub view-set_ex :
      (db : Db) (k t : Text) (ttl : ℕ)
      → view (set_ex db k t ttl) ≡ set_string (view db) k (set_value t ttl ((view db).strings k))
  pub view-del : (db : Db) (ks : List Text) → view (del db ks) ≡ erase_all (view db) ks
  pub view-expire : (db : Db) (k : Text) → view (expire db k) ≡ set_string (view db) k none
