-- ===== src/Queue/Position.antt =====
-- position.lua reads the place of a token, or its pass.
use queue_fair.Prelude.{
  ℕ, suc, ◌+◌, Text, codes, true, false, Option, none, some, [], ◌∷◌, ◌≡◌, refl, ap, ◌∙◌, or_zero,
  length, lookup,
}
use queue_fair.Redis.{Redis, present, value_of, rank_of}
use queue_fair.Keys
use queue_fair.Keys.{EventKeys}
use queue_fair.Scripts
use queue_fair.Scripts.{Reply, int, bulk, ranked, not_waiting}
use queue_fair.Queue.{index_of, Line, Holds}
use queue_fair.Queue.Numbered.{length-numbered, rank_of-numbered}

module _ (R : Redis) (keys : EventKeys) where
  open R use {
    Db, view, exists_lem, zrank, zrank_lem, zcard_lem, get_number_lem, get_string, get_string_lem,
    hget_lem,
  }

  -- position.lua with the keys that the repository passes
  abbrev pub position : Text → Db → Reply × Db
  position t =
      Scripts.position R (Keys.queue keys) (Keys.admitted keys) (Keys.config keys)
        (Keys.pass_for keys t) t

  abbrev pub pass_of : Db → Text → Option Text
  pass_of db t = value_of ((view db).strings (Keys.pass_for keys t))

  -- What a token is told: by its place, or else by its pass.
  unfoldable pub told : Line → Option ℕ → Option Text → ℕ → Reply
  told q none none rate = int 1 ∷ []
  told q none (some pass) rate = int 3 ∷ bulk pass ∷ int (length q.waiting) ∷ int q.admitted ∷ []
  told q (some i) pass rate =
      int 2 ∷ int (i + 1) ∷ int (length q.waiting) ∷ int q.admitted ∷ int rate ∷ []

  module _ (db : Db) (t : Text) (q : Line) (h : Holds (view db) keys q) where
    zrank-index : zrank db (Keys.queue keys) t ≡ index_of t q.waiting
    zrank-index =
        zrank_lem db (Keys.queue keys) t
        ∙ ap (rank_of t) h.members
        ∙ rank_of-numbered t (suc q.admitted) q.waiting

    not_waiting_lem :
        (pass : Option Text) (rate : ℕ)
        → not_waiting R (Keys.queue keys) (Keys.admitted keys) pass db ≡ told q none pass rate
    unfolding not_waiting told
    not_waiting_lem none rate = refl
    not_waiting_lem (some pass) rate =
        simp (zcard_lem, get_number_lem, h.members, h.counted, length-numbered)

    ranked_lem :
        (rank : Option ℕ)
        → ranked R
            (Keys.queue keys)
            (Keys.admitted keys)
            (Keys.config keys)
            (Keys.pass_for keys t)
            rank
            db
          ≡ told q rank
              (pass_of db t)
              (or_zero (lookup (codes "rate_per_min") ((view db).hashes (Keys.config keys))))
    unfolding ranked told not_waiting
    ranked_lem none =
        ap (λ p. not_waiting R (Keys.queue keys) (Keys.admitted keys) p db)
          (get_string_lem db (Keys.pass_for keys t))
        ∙ not_waiting_lem (pass_of db t) _
    ranked_lem (some rank) =
        simp (zcard_lem, get_number_lem, hget_lem, h.members, h.counted, length-numbered)

    -- On a configured event in step with the queue `q`, position.lua writes nothing; a waiting token
    -- is told its place in `q` counted from 1, with the size of the queue, the number admitted and
    -- the rate; a token that does not wait is told its stored pass, or that it is unknown.
    pub position-told :
        present (view db) (Keys.config keys) ≡ true
        → position t db ≡ (
          told q
              (index_of t q.waiting)
              (pass_of db t)
              (or_zero (lookup (codes "rate_per_min") ((view db).hashes (Keys.config keys)))),
          db,
        )
    unfolding Scripts.position
    position-told live =
        rw (exists_lem, live)
          (ap (λ r. (r, db)) (rw zrank-index (ranked_lem (index_of t q.waiting))))

  -- An event that is not configured: the reply says so.
  pub position_unconfigured :
      (db : Db) (t : Text)
      → present (view db) (Keys.config keys) ≡ false
      → position t db ≡ (int 0 ∷ [], db)
  unfolding Scripts.position
  position_unconfigured db t gone = rw (exists_lem, gone) refl
