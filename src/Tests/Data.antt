-- ===== src/Tests/Data.antt =====
-- An event with three waiting tokens, and a bucket.
use queue_fair.Prelude.{Text, codes, some, [], ◌∷◌, refl, update}
use queue_fair.Redis.{View}
use queue_fair.Redis.Memory.{no_keys}
use queue_fair.Keys
use queue_fair.Keys.{EventKeys}
use queue_fair.Queue.{Line, Holds, numbered}
use queue_fair.Queue.Runs.{settings}

abbrev pub keys : EventKeys
keys = record { event_id = codes "coldplay-mumbai-2026" }

abbrev pub ada : Text
ada = codes "0123456789abcdef0123456789abcdef"

abbrev pub bob : Text
bob = codes "00000000000000000000000000000001"

abbrev pub eve : Text
eve = codes "ffffffffffffffffffffffffffffffff"

abbrev pub new : Text
new = codes "a0a0a0a0a0a0a0a0a0a0a0a0a0a0a0a0"

-- 100 a minute, a burst of 2, batches of 50 at most; one token left of 60 s ago.
abbrev pub three_waiting : View
three_waiting = record no_keys {
  zsets = update no_keys.zsets (Keys.queue keys) (numbered 8 (ada ∷ bob ∷ eve ∷ []));
  numbers = update (update no_keys.numbers (Keys.seq keys) (some 10)) (Keys.admitted keys) (some 7);
  hashes =
      update (update no_keys.hashes (Keys.config keys) (settings 100 2 50)) (Keys.bucket keys)
        ((codes "tokens", 60000) ∷ (codes "last_refill_ms", 1000000) ∷ []);
}

abbrev pub three : Line
three = record { admitted = 7; waiting = ada ∷ bob ∷ eve ∷ [] }

pub three-Holds : Holds three_waiting keys three
three-Holds = record {
  members = refl;
  issued = refl;
  counted = refl;
  distinct = (refl, (refl, (refl, tt)));
}
