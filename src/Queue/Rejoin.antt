-- ===== src/Queue/Rejoin.antt =====
-- A token that was admitted and joins again.
use queue_fair.Prelude.{
  ℕ, suc, ◌+◌, ◌-◌, ◌≤◌, ◌<◌, Text, codes, some, none, [], ◌∷◌, ◌≡◌, refl, ◌∙◌, arith, length,
  length-drop, length-append, take,
}
use mathlib.Core.Path.{ap₂}
use queue_fair.Redis.{Redis}
use queue_fair.Keys.{EventKeys}
use queue_fair.Scripts.{Reply, int}
use queue_fair.Queue.{Line, Holds, enter, leave, index_of}
use queue_fair.Queue.Places.{index_of-drop}
use queue_fair.Queue.Join.{flag, join, join-enter, rate_of}
use queue_fair.Queue.Admit.{admit_batch, admit_batch-leave, due, config_of}
use queue_fair.Queue.Release.{batch_size_bounds}
use queue_fair.Queue.Runs.{IsLive, step, admit}
use queue_fair.Queue.Runs.Step.{present_of_live, step-Stepped}

-- The reply to a token that enters anew.
entered_last :
    (t : Text) (q : Line) (rate : ℕ)
    → index_of t q.waiting ≡ none
    → ◌≡◌ {A = Reply}
        (int 1
          ∷ int (enter t q).1
          ∷ int (flag (enter t q).2)
          ∷ int (length (enter t q).0.waiting)
          ∷ int (enter t q).0.admitted
          ∷ int rate
          ∷ [])
        (int 1
          ∷ int (suc (q.admitted + length q.waiting))
          ∷ int 1
          ∷ int (length q.waiting + 1)
          ∷ int q.admitted
          ∷ int rate
          ∷ [])
unfolding enter
entered_last t q rate gone = rw (gone, enter, length-append q.waiting (t ∷ [])) refl

module _ (R : Redis) (keys : EventKeys) where
  open R use {Db, view}

  module _ (db : Db) (q : Line) (h : Holds (view db) keys q) (live : IsLive (view db) keys)
      (now : ℕ) (runs : 0 < config_of R keys db (codes "rate_per_min")) where
    abbrev left : Line
    left = leave (due R keys db q now) q

    fits : due R keys db q now ≤ length q.waiting
    fits = (batch_size_bounds _ _ _).0

    popped_IsLive : IsLive (view (admit_batch R keys now db).1) keys
    unfolding step
    popped_IsLive = (step-Stepped R keys db q h live (admit now)).live

    -- On a configured, running event in step with `q`, let a batch pop a token, which had the
    -- sequence `admitted + j + 1`, and let that token join again. The reply says that it joined anew,
    -- with the sequence after those of all that were waiting, and tells the number of those left and it,
    -- the new number admitted and the rate.
    pub rejoin_last :
        (t : Text) (j : ℕ)
        → index_of t (take (due R keys db q now) q.waiting) ≡ some j
        → ((join R keys t (admit_batch R keys now db).1).0
            ≡ int 1
              ∷ int (suc (q.admitted + length q.waiting))
              ∷ int 1
              ∷ int (suc (length q.waiting - due R keys db q now))
              ∷ int (q.admitted + due R keys db q now)
              ∷ int (rate_of R keys (admit_batch R keys now db).1)
              ∷ [])
    unfolding enter leave
    rejoin_last t j here =
        let out = admit_batch-leave R keys db q h now (present_of_live (view db) keys live) runs in
        let gone = index_of-drop t (due R keys db q now) j q.waiting h.distinct here in
        let d = (admit_batch R keys now db).1 in
        let rate = rate_of R keys d in
        (join-enter R keys d t left out.in_step (present_of_live (view d) keys popped_IsLive)).1
        ∙ entered_last t left rate gone
        ∙ ap₂ (λ s n. int 1 ∷ int s ∷ int 1 ∷ int n ∷ int left.admitted ∷ int rate ∷ [])
            (omega (arith, fits, length-drop (due R keys db q now) q.waiting))
            (omega (arith, fits, length-drop (due R keys db q now) q.waiting))
