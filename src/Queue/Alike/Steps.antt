-- ===== src/Queue/Alike/Steps.antt =====
-- The events of a sale on two servers with the same keys of it.
use queue_fair.Prelude.{
  ℕ, suc, ◌+◌, Text, List, [], ◌∷◌, ◌++◌, refl, ap, length, Option-cases, inl, inr,
}
use queue_fair.Redis.{View, Redis}
use queue_fair.Keys
use queue_fair.Keys.{EventKeys}
use queue_fair.Keys.Distinct.{Kind, key_of}
use queue_fair.Queue.{Line, Holds, index_of}
use queue_fair.Queue.Apart.{Holds-Same}
use queue_fair.Queue.Alike.{
  Alike, Both, Same-both_zset, Same-both_number, Same-both_string, Alike-hset, Alike-admit,
}
use queue_fair.Queue.Join.{join_new, join-resume}
use queue_fair.Queue.Position.{position-told}
use queue_fair.Queue.Runs
use queue_fair.Queue.Runs.{Event, ask, admit, park, expire, configure, step, final, IsLive}
use queue_fair.Queue.Runs.Step.{present_of_live, step-Stepped, line_after}

pub IsLive-Alike : (keys : EventKeys) (v w : View) → Alike keys v w → IsLive v keys → IsLive w keys
IsLive-Alike keys v w s live = rw ((s Kind.config).hash) live

module _ (R : Redis) (keys : EventKeys) where
  open R use {Db, view, view-set_ex, view-expire}

  module _ (a b : Db) (q : Line) (h : Holds (view a) keys q) (live : IsLive (view a) keys)
      (s : Both R keys a b) where
    h' : Holds (view b) keys q
    h' = Holds-Same keys (view a) (view b) q s h

    live' : IsLive (view b) keys
    live' = IsLive-Alike keys (view a) (view b) s live

    Alike-join :
        (t : Text) → Both R keys (step R keys (Runs.join t) a).1 (step R keys (Runs.join t) b).1
    unfolding step
    Alike-join t k = elim (Option-cases (index_of t q.waiting)) [
      | inl new ↦
          rw
            (
              join_new R keys a t q h (present_of_live (view a) keys live) new,
              join_new R keys b t q h' (present_of_live (view b) keys live') new,
            )
            (Same-both_zset (key_of k keys) _ _
              (Same-both_number (key_of k keys) (view a) (view b) (s k) (Keys.seq keys) _ _ refl)
              (Keys.queue keys) _ _
              (ap (λ l. l ++ (t, suc (q.admitted + length q.waiting)) ∷ []) ((s Kind.queue).zset)))
      | inr (i, old) ↦
          rw (join-resume R keys a t q h i old, join-resume R keys b t q h' i old) (s k)
    ]

    Alike-ask : (t : Text) → Both R keys (step R keys (ask t) a).1 (step R keys (ask t) b).1
    unfolding step
    Alike-ask t =
        rw
          (
            position-told R keys a t q h (present_of_live (view a) keys live),
            position-told R keys b t q h' (present_of_live (view b) keys live'),
          )
          s

    Alike-set :
        (t payload : Text) (ttl : ℕ)
        → Both R keys (step R keys (park t payload ttl) a).1 (step R keys (park t payload ttl) b).1
    unfolding step
    Alike-set t payload ttl k =
        rw
          (
            view-set_ex a (Keys.pass_for keys t) payload ttl,
            view-set_ex b (Keys.pass_for keys t) payload ttl,
            (s (Kind.pass_for t)).string,
          )
          (Same-both_string (key_of k keys) (view a) (view b) (s k) (Keys.pass_for keys t) _)

    Alike-expire :
        (t : Text) → Both R keys (step R keys (expire t) a).1 (step R keys (expire t) b).1
    unfolding step
    Alike-expire t k =
        rw (view-expire a (Keys.pass_for keys t), view-expire b (Keys.pass_for keys t))
          (Same-both_string (key_of k keys) (view a) (view b) (s k) (Keys.pass_for keys t) _)

    Alike-step : (e : Event) → Both R keys (step R keys e a).1 (step R keys e b).1
    unfolding step
    Alike-step (Runs.join t) = Alike-join t
    Alike-step (ask t) = Alike-ask t
    Alike-step (admit now) = Alike-admit R keys now a b s
    Alike-step (park t payload ttl) = Alike-set t payload ttl
    Alike-step (expire t) = Alike-expire t
    Alike-step (configure rate burst batch_max) = Alike-hset R keys Kind.config _ _ a b refl s

  -- Any events keep two servers alike.
  pub Alike-final :
      (es : List Event) (a b : Db) (q : Line)
      → Holds (view a) keys q
      → IsLive (view a) keys
      → Both R keys a b
      → Both R keys (final R keys es a) (final R keys es b)
  unfolding final
  Alike-final [] a b q h live s = s
  Alike-final (e ∷ es) a b q h live s =
      let st = step-Stepped R keys a q h live e in
      Alike-final es (step R keys e a).1 (step R keys e b).1 (line_after R keys e a q) st.in_step
        st.live (Alike-step a b q h live s e)
