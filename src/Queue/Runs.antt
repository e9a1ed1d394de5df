-- ===== src/Queue/Runs.antt =====
-- Any number of queue-service processes over one Redis. Redis runs one script at a time, so what the
-- processes do to the keys of one event is a list of atomic events in some order.
pub mod Step
pub mod Append
pub mod Order
pub mod Rate
pub mod Skew
pub mod Progress
use queue_fair.Prelude.{ℕ, ◌≤◌, Text, codes, List, [], ◌∷◌, ◌++◌, ◌≡◌, is_empty, false}
use queue_fair.Redis.{View, Redis}
use queue_fair.Keys
use queue_fair.Keys.{EventKeys}
use queue_fair.Scripts.{Reply, Atom, int, array}
use queue_fair.Queue.{Line, enter, leave}
use queue_fair.Queue.Join
use queue_fair.Queue.Position
use queue_fair.Queue.Admit

pub data Event : Type 0 where
  -- join.lua for a token, from any process
  join : Text → Event
  -- position.lua
  ask : Text → Event
  -- admit_batch.lua with the time of the caller
  admit : ℕ → Event
  -- one SET of `record_admissions`: a token, its payload and the time to live
  park : Text → Text → ℕ → Event
  -- the time to live of a pass runs out
  expire : Text → Event
  -- the HSET of `create_event`, with no reset: rate_per_min, burst, batch_max
  configure : ℕ → ℕ → ℕ → Event

-- The fields that `create_event` writes.
abbrev pub settings : ℕ → ℕ → ℕ → List (Text × ℕ)
settings rate_per_min burst batch_max =
    (codes "rate_per_min", rate_per_min)
    ∷ (codes "burst", burst)
    ∷ (codes "batch_max", batch_max)
    ∷ []

module _ (R : Redis) (keys : EventKeys) where
  open R use {Db, set_ex, hset}

  unfoldable pub step : Event → Db → Reply × Db
  step (join t) db = Join.join R keys t db
  step (ask t) db = Position.position R keys t db
  step (admit now) db = Admit.admit_batch R keys now db
  step (park t payload ttl) db = ([], set_ex db (Keys.pass_for keys t) payload ttl)
  step (expire t) db = ([], R.expire db (Keys.pass_for keys t))
  step (configure rate burst batch_max) db =
      ([], hset db (Keys.config keys) (settings rate burst batch_max))

  unfoldable pub final : List Event → Db → Db
  unfolding step
  final [] db = db
  final (e ∷ es) db = final es (step e db).1

  -- The popped members and scores in a reply of admit_batch.lua.
  abbrev pub popped : Reply → List Atom
  popped (int status ∷ int count ∷ int total ∷ array l ∷ []) = l
  popped _ = []

  abbrev pub popped_by : Event → Reply → List Atom
  popped_by (admit now) reply = popped reply
  popped_by _ reply = []

  -- All that was popped, in the order of the pops.
  unfoldable pub log : List Event → Db → List Atom
  unfolding step
  log [] db = []
  log (e ∷ es) db = popped_by e (step e db).0 ++ log es (step e db).1

-- The tokens that ask to join, in order.
abbrev pub joining : List Event → List Text
joining [] = []
joining (join t ∷ es) = t ∷ joining es
joining (ask t ∷ es) = joining es
joining (admit now ∷ es) = joining es
joining (park t payload ttl ∷ es) = joining es
joining (expire t ∷ es) = joining es
joining (configure rate burst batch_max ∷ es) = joining es

-- The clocks that the processes pass do not step back from `t` on, and no one reconfigures.
abbrev pub Timely : ℕ → List Event → Type 0
Timely t [] = Unit
Timely t (join u ∷ es) = Timely t es
Timely t (ask u ∷ es) = Timely t es
Timely t (admit now ∷ es) = (t ≤ now) × Timely now es
Timely t (park u payload ttl ∷ es) = Timely t es
Timely t (expire u ∷ es) = Timely t es
Timely t (configure rate burst batch_max ∷ es) = ⊥

-- The last clock passed.
abbrev pub end_time : ℕ → List Event → ℕ
end_time t [] = t
end_time t (join u ∷ es) = end_time t es
end_time t (ask u ∷ es) = end_time t es
end_time t (admit now ∷ es) = end_time now es
end_time t (park u payload ttl ∷ es) = end_time t es
end_time t (expire u ∷ es) = end_time t es
end_time t (configure rate burst batch_max ∷ es) = end_time t es

-- The configuration hash has a field.
abbrev pub IsLive : View → EventKeys → Type 0
IsLive v keys = is_empty (v.hashes (Keys.config keys)) ≡ false
