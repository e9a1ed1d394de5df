-- ===== src/System/Kept/Waits.antt =====
-- A waiting token over events that neither tick nor configure.
use queue_fair.Prelude.{ℕ, ◌+◌, Text, some, List, [], ◌∷◌, ◌≡◌, refl, arith, inl, inr, Option-cases}
use mathlib.Core.Path.{subst}
use queue_fair.Redis.{Redis}
use queue_fair.Keys.{EventKeys}
use queue_fair.Queue.{Line, Holds, index_of, enter, leave}
use queue_fair.Queue.Places.{index_of-more}
use queue_fair.Queue.Runs.{Event, join, ask, park, expire, admit, configure, step, final, IsLive}
use queue_fair.Queue.Runs.Rate.Bucket.{IsQuiet}
use queue_fair.Queue.Runs.Step.{line_after, step-Stepped}
use queue_fair.System.Quiet.{AllQuiet}

-- The place of a waiting token among those who enter.
Waits-enter :
    (t u : Text) (q : Line) (i : ℕ)
    → index_of t q.waiting ≡ some i
    → (index_of t (enter u q).0.waiting ≡ some i) × ((enter u q).0.admitted ≡ q.admitted)
unfolding enter
Waits-enter t u q i here = elim (Option-cases (index_of u q.waiting)) [
  | inl new ↦ rw (new, enter) (index_of-more t q.waiting (u ∷ []) i here, refl)
  | inr (j, old) ↦ rw (old, enter) (here, refl)
]

module _ (R : Redis) (event_id : Text) (t : Text) (place : ℕ) where
  open R use {Db, view}

  abbrev keys : EventKeys
  keys = record { event_id = event_id }

  -- The token waits, and will be the `place`-th to be admitted.
  pub record Waits (db : Db) : Type 0 where
    pub line : Line
    pub in_step : Holds (view db) keys line
    pub live : IsLive (view db) keys
    pub index : ℕ
    pub here : index_of t line.waiting ≡ some index
    pub due : line.admitted + index ≡ place

  -- An event after which the line is as it was.
  Waits-still :
      (e : Event) (db : Db) (w : Waits db)
      → line_after R keys e db w.line ≡ leave 0 w.line
      → Waits (step R keys e db).1
  unfolding leave
  Waits-still e db w same =
      let st = step-Stepped R keys db w.line w.in_step w.live e in
      record {
        line = leave 0 w.line;
        in_step = subst (Holds (view (step R keys e db).1) keys) same st.in_step;
        live = st.live;
        index = w.index;
        here = w.here;
        due = omega (arith, w.due);
      }

  Waits-step : (e : Event) (db : Db) → IsQuiet e → Waits db → Waits (step R keys e db).1
  Waits-step (admit now) db quiet w = absurd quiet
  Waits-step (configure rate burst batch_max) db quiet w = absurd quiet
  Waits-step (join u) db quiet w =
      let st = step-Stepped R keys db w.line w.in_step w.live (join u) in
      let (here, same) = Waits-enter t u w.line w.index w.here in
      record {
        line = line_after R keys (join u) db w.line;
        in_step = st.in_step;
        live = st.live;
        index = w.index;
        here = here;
        due = omega (arith, same, w.due);
      }
  Waits-step (ask u) db quiet w = Waits-still (ask u) db w refl
  Waits-step (park u payload life) db quiet w = Waits-still (park u payload life) db w refl
  Waits-step (expire u) db quiet w = Waits-still (expire u) db w refl

  pub Waits-events :
      (es : List Event) (db : Db) → AllQuiet es → Waits db → Waits (final R keys es db)
  unfolding final
  Waits-events [] db quiet w = w
  Waits-events (e ∷ es) db quiet w =
      Waits-events es (step R keys e db).1 quiet.1 (Waits-step e db quiet.0 w)
