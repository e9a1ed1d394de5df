-- ===== src/Redis/Memory.antt =====
-- A server whose state is its view: the interface can be met, and the tests run on it.
use queue_fair.Prelude.{
  ℕ, ◌+◌, ◌*◌, ◌/◌, ◌<◌, ◌≤◌, Text, none, List, [], ◌∷◌, ◌++◌, ◌≡◌, refl, length, take, drop,
  or_zero, lookup, ltb, if◌then◌else◌, arith, text_eq,
}
use queue_fair.Redis.{
  View, Redis, present, rank_of, value_of, insert_all, All, set_zset, set_number, set_hash,
  set_string, set_value, erase_all,
}

without : Text → List (Text × ℕ) → List (Text × ℕ)
without m [] = []
without m ((j, s) ∷ l) = let rest = without m l in if text_eq j m then rest else (j, s) ∷ rest

-- Before the first entry with a higher score.
place : Text → ℕ → List (Text × ℕ) → List (Text × ℕ)
place m n [] = (m, n) ∷ []
place m n ((j, s) ∷ l) =
    let rest = place m n l in if ltb n s then (m, n) ∷ (j, s) ∷ l else (j, s) ∷ rest

without_absent : (m : Text) (l : List (Text × ℕ)) → lookup m l ≡ none → without m l ≡ l
unfolding without
without_absent m [] h = refl
without_absent m ((j, s) ∷ l) h = ground (arith, without_absent m l)

place_last :
    (m : Text) (n : ℕ) (l : List (Text × ℕ))
    → All (λ (e : Text × ℕ). e.1 < n) l
    → place m n l ≡ l ++ (m, n) ∷ []
unfolding place
place_last m n [] h = refl
place_last m n ((j, s) ∷ l) h = ground (arith, place_last m n l)

unfoldable pub zadd_view : View → Text → ℕ → Text → View
unfolding without place
zadd_view v k n m = set_zset v k (place m n (without m (v.zsets k)))

pub zadd_view_lem :
    (v : View) (k : Text) (n : ℕ) (m : Text)
    → lookup m (v.zsets k) ≡ none
    → All (λ (e : Text × ℕ). e.1 < n) (v.zsets k)
    → zadd_view v k n m ≡ set_zset v k (v.zsets k ++ (m, n) ∷ [])
unfolding zadd_view
zadd_view_lem v k n m new last =
    rw (without_absent m (v.zsets k) new, place_last m n (v.zsets k) last)

pub whole_le_lem : (n : ℕ) → (n / 60000) * 60000 ≤ n
whole_le_lem n = omega arith

pub whole_near_lem : (n : ℕ) → n ≤ (n / 60000 + 1) * 60000
whole_near_lem n = omega arith

abbrev pub memory : Redis
memory = record {
  Db = View;
  view = λ v. v;
  score_text = λ n. n ∷ [];
  whole = λ k now n. n / 60000;
  whole_le = λ k now n. whole_le_lem n;
  whole_near = λ k now n. whole_near_lem n;
  exists = present;
  zscore = λ v k m. lookup m (v.zsets k);
  zrank = λ v k m. rank_of m (v.zsets k);
  zcard = λ v k. length (v.zsets k);
  get_number = λ v k. v.numbers k;
  get_string = λ v k. value_of (v.strings k);
  hget = λ v k f. lookup f (v.hashes k);
  hgetall = λ v k. v.hashes k;
  zadd = zadd_view;
  zpopmin = λ v k n. (take n (v.zsets k), set_zset v k (drop n (v.zsets k)));
  incrby = λ v k n. (or_zero (v.numbers k) + n, set_number v k (or_zero (v.numbers k) + n));
  hset = λ v k fs. set_hash v k (insert_all fs (v.hashes k));
  set_ex = λ v k t ttl. set_string v k (set_value t ttl (v.strings k));
  del = erase_all;
  expire = λ v k. set_string v k none;
  exists_lem = λ v k. refl;
  zscore_lem = λ v k m. refl;
  zrank_lem = λ v k m. refl;
  zcard_lem = λ v k. refl;
  get_number_lem = λ v k. refl;
  get_string_lem = λ v k. refl;
  hget_lem = λ v k f. refl;
  hgetall_lem = λ v k. refl;
  zpopmin_reply = λ v k n. refl;
  incrby_reply = λ v k n. refl;
  view-zadd = zadd_view_lem;
  view-zpopmin = λ v k n. refl;
  view-incrby = λ v k n. refl;
  view-hset = λ v k fs. refl;
  view-set_ex = λ v k t ttl. refl;
  view-del = λ v ks. refl;
  view-expire = λ v k. refl;
}

-- A server with no key.
abbrev pub no_keys : View
no_keys = record { zsets = λ k. []; numbers = λ k. none; hashes = λ k. []; strings = λ k. none }
