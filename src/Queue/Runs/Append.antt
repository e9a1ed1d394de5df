-- ===== src/Queue/Runs/Append.antt =====
-- Runs one after the other.
use queue_fair.Prelude.{List, [], ◌∷◌, ◌++◌, ◌≡◌, refl}
use queue_fair.Redis.{Redis}
use queue_fair.Keys.{EventKeys}
use queue_fair.Queue.Runs.{Event, step, final}

module _ (R : Redis) (keys : EventKeys) where
  open R use {Db}

  pub final-append :
      (a b : List Event) (db : Db) → final R keys (a ++ b) db ≡ final R keys b (final R keys a db)
  unfolding final
  final-append [] b db = refl
  final-append (e ∷ a) b db = final-append a b (step R keys e db).1
