-- ===== src/Keys/Distinct.antt =====
-- The keys of events compared.
use queue_fair.Prelude.{
  ℕ, Text, codes, true, [], ◌∷◌, ◌++◌, ◌≡◌, ◌≢◌, refl, sym, ap, arith, text_eq, text_eq-append, ◌∙◌,
  drop, if◌then◌else◌, false, text_eq_iff, Bool-cases, inl, inr,
}
use mathlib.Core.Path.{ap₂}
use queue_fair.Redis.{All}
use queue_fair.Validation.{is_valid_event_id}
use queue_fair.Validation.EventId.{colon_free}
use queue_fair.Keys
use queue_fair.Keys.{key, EventKeys, namespace}

-- A common event id does not matter.
pub key_eq : (e a b : Text) → text_eq (key e a) (key e b) ≡ text_eq a b
key_eq e a b = text_eq-append e (codes ":" ++ a) (codes ":" ++ b)

cons_heads : {c d : ℕ} {s t : Text} → ◌≡◌ {A = Text} (c ∷ s) (d ∷ t) → c ≡ d
cons_heads e = ground arith

cons_tails : {c d : ℕ} {s t : Text} → ◌≡◌ {A = Text} (c ∷ s) (d ∷ t) → s ≡ t
cons_tails e = ground arith

-- Texts without a colon end where the first colon stands.
before_colon :
    (d e a b : Text)
    → All (λ c. c ≢ b':') d
    → All (λ c. c ≢ b':') e
    → d ++ (codes ":" ++ a) ≡ e ++ (codes ":" ++ b)
    → (d ≡ e) × (a ≡ b)
before_colon [] [] a b hd he p = (refl, cons_tails p)
before_colon [] (y ∷ e) a b hd he p = absurd (he.0 (sym (cons_heads p)))
before_colon (x ∷ d) [] a b hd he p = absurd (hd.0 (cons_heads p))
before_colon (x ∷ d) (y ∷ e) a b hd he p =
    let (same, rest) = before_colon d e a b hd.1 he.1 (cons_tails p) in
    (ap₂ ◌∷◌ (cons_heads p) same, rest)

-- Two keys of accepted event ids are one key only if event and name are the same.
pub key-injective :
    (d e a b : Text)
    → is_valid_event_id d ≡ true
    → is_valid_event_id e ≡ true
    → key d a ≡ key e b
    → (d ≡ e) × (a ≡ b)
key-injective d e a b hd he p =
    before_colon d e a b (colon_free d hd) (colon_free e he)
      (cons_tails (cons_tails (cons_tails p)))

-- The seven sorts of key.
pub data Kind : Type 0 where
  queue seq admitted bucket config channel : Kind
  pass_for : Text → Kind

abbrev name_of : Kind → Text
name_of queue = codes "queue"
name_of seq = codes "seq"
name_of admitted = codes "admitted"
name_of bucket = codes "bucket"
name_of config = codes "config"
name_of channel = codes "events"
name_of (pass_for queue_token) = codes "pass:" ++ queue_token

abbrev pub key_of : Kind → EventKeys → Text
key_of queue keys = Keys.queue keys
key_of seq keys = Keys.seq keys
key_of admitted keys = Keys.admitted keys
key_of bucket keys = Keys.bucket keys
key_of config keys = Keys.config keys
key_of channel keys = Keys.channel keys
key_of (pass_for queue_token) keys = Keys.pass_for keys queue_token

key_of-name_of : (k : Kind) (keys : EventKeys) → key_of k keys ≡ key keys.event_id (name_of k)
key_of-name_of (pass_for t) keys = refl
key_of-name_of _ keys = refl

-- The kind that a name begins like.
kind_of : Text → Kind
kind_of t =
    if text_eq t (name_of queue)
    then queue
    else if text_eq t (name_of seq)
    then seq
    else if text_eq t (name_of admitted)
    then admitted
    else if text_eq t (name_of bucket)
    then bucket
    else if text_eq t (name_of config)
    then config
    else if text_eq t (name_of channel)
    then channel
    else pass_for (drop 5 t)

kind_of-name_of : (k : Kind) → kind_of (name_of k) ≡ k
unfolding kind_of
kind_of-name_of (pass_for t) = refl
kind_of-name_of _ = refl

-- For accepted event ids, two key names are equal only if they are of the same sort, of the same
-- event and, for a pass, of the same queue token.
pub key_of-injective :
    (j k : Kind) (d e : EventKeys)
    → is_valid_event_id d.event_id ≡ true
    → is_valid_event_id e.event_id ≡ true
    → key_of j d ≡ key_of k e
    → (j ≡ k) × (d ≡ e)
key_of-injective j k d e hd he p =
    let (events, names) =
      key-injective d.event_id e.event_id (name_of j) (name_of k) hd he
        (sym (key_of-name_of j d) ∙ p ∙ key_of-name_of k e) in
    (sym (kind_of-name_of j) ∙ ap kind_of names ∙ kind_of-name_of k, ground arith)

-- No key of one event is a key of another.
pub key_of_other :
    (d e : EventKeys)
    → is_valid_event_id d.event_id ≡ true
    → is_valid_event_id e.event_id ≡ true
    → d.event_id ≢ e.event_id
    → (j k : Kind) → text_eq (key_of j d) (key_of k e) ≡ false
key_of_other d e hd he other j k = elim (Bool-cases (text_eq (key_of j d) (key_of k e))) [
  | inl same ↦
      let (kinds, events) =
        key_of-injective j k d e hd he ((text_eq_iff (key_of j d) (key_of k e)).0 same) in
      absurd (other (ap (λ (x : EventKeys). x.event_id) events))
  | inr differs ↦ differs
]
