-- ===== src/Queue/Join.antt =====
-- join.lua and `enter`.
use queue_fair.Prelude.{
  ℕ, suc, ◌+◌, Text, codes, Bool, true, false, none, some, List, [], ◌∷◌, ◌++◌, ◌≡◌, refl, ap, sym,
  ◌∙◌, arith, or_zero, length, length-append, lookup, text_eq-append, Option-cases, Bool-cases, inl,
  inr,
}
use mathlib.Core.Path.{subst}
use queue_fair.Redis.{View, Redis, present, set_zset, set_number}
use queue_fair.Keys
use queue_fair.Keys.{EventKeys}
use queue_fair.Scripts
use queue_fair.Scripts.{Reply, int, place, placed}
use queue_fair.Queue.{index_of, numbered, Line, Holds, enter}
use queue_fair.Queue.Numbered.{
  lookup-numbered, length-numbered, numbered-append, numbered-below, Distinct-append, shift,
}

abbrev pub flag : Bool → ℕ
flag false = 0
flag true = 1

-- The view after a new member.
abbrev pub joined_view : View → EventKeys → Text → ℕ → View
joined_view v keys t n =
    set_zset (set_number v (Keys.seq keys) n) (Keys.queue keys)
      (v.zsets (Keys.queue keys) ++ (t, n) ∷ [])

Holds-joined :
    (v : View) (keys : EventKeys) (q : Line) (t : Text)
    → Holds v keys q
    → index_of t q.waiting ≡ none
    → Holds
        (joined_view v keys t (suc (q.admitted + length q.waiting)))
        keys
        (record q { waiting = q.waiting ++ t ∷ [] })
Holds-joined v keys q t h new = record {
  members = simp text_eq-append (
      ap (λ l. l ++ (t, suc (q.admitted + length q.waiting)) ∷ []) h.members
      ∙ numbered-append t (suc q.admitted) (suc (q.admitted + length q.waiting)) q.waiting
          (omega arith));
  issued = simp text_eq-append (omega (arith, length-append q.waiting (t ∷ [])));
  counted = simp text_eq-append h.counted;
  distinct = Distinct-append t q.waiting new h.distinct;
}

module _ (R : Redis) (keys : EventKeys) where
  open R use {
    Db, view, exists, exists_lem, zscore, zscore_lem, zcard_lem, get_number_lem, hget_lem, incrby,
    incrby_reply, zadd, view-zadd, view-incrby,
  }

  -- join.lua with the keys that the repository passes
  abbrev pub join : Text → Db → Reply × Db
  join = Scripts.join R (Keys.queue keys) (Keys.seq keys) (Keys.admitted keys) (Keys.config keys)

  abbrev pub rate_of : Db → ℕ
  rate_of db = or_zero (lookup (codes "rate_per_min") ((view db).hashes (Keys.config keys)))

  placed_lem :
      (db : Db) (q : Line) (s joined : ℕ)
      → Holds (view db) keys q
      → (placed R (Keys.queue keys) (Keys.admitted keys) (Keys.config keys) (s, joined, db)).0
        ≡ int 1
          ∷ int s
          ∷ int joined
          ∷ int (length q.waiting)
          ∷ int q.admitted
          ∷ int (rate_of db)
          ∷ []
  unfolding placed
  placed_lem db q s joined h =
      simp (zcard_lem, get_number_lem, hget_lem, h.members, h.counted, length-numbered)

  join_configured :
      (db : Db) (t : Text)
      → present (view db) (Keys.config keys) ≡ true
      → join t db
        ≡ placed R
            (Keys.queue keys)
            (Keys.admitted keys)
            (Keys.config keys)
            (place R (Keys.queue keys) (Keys.seq keys) t (zscore db (Keys.queue keys) t) db)
  unfolding Scripts.join
  join_configured db t live = rw (exists_lem, live) refl

  module _ (db : Db) (t : Text) (q : Line) (h : Holds (view db) keys q) where
    zscore-index : zscore db (Keys.queue keys) t ≡ shift (suc q.admitted) (index_of t q.waiting)
    zscore-index =
        zscore_lem db (Keys.queue keys) t
        ∙ ap (lookup t) h.members
        ∙ lookup-numbered t (suc q.admitted) q.waiting

    abbrev next : ℕ
    next = suc (q.admitted + length q.waiting)

    incr-next : (incrby db (Keys.seq keys) 1).0 ≡ next
    incr-next = omega (arith, incrby_reply db (Keys.seq keys) 1, h.issued)

    abbrev db' : Db
    db' = (incrby db (Keys.seq keys) 1).1

    view-incr : view db' ≡ set_number (view db) (Keys.seq keys) next
    view-incr =
        view-incrby db (Keys.seq keys) 1
        ∙ ap (set_number (view db) (Keys.seq keys)) (omega (arith, h.issued))

    members-incr : (view db').zsets (Keys.queue keys) ≡ numbered (suc q.admitted) q.waiting
    members-incr = ap (λ v. v.zsets (Keys.queue keys)) view-incr ∙ h.members

    view-new :
        index_of t q.waiting ≡ none
        → view (zadd db' (Keys.queue keys) next t) ≡ joined_view (view db) keys t next
    view-new new =
        view-zadd db' (Keys.queue keys) next t (rw (members-incr, lookup-numbered, new) refl)
          (rw members-incr (numbered-below (suc q.admitted) next q.waiting (omega arith)))
        ∙ ap (λ v. set_zset v (Keys.queue keys) (v.zsets (Keys.queue keys) ++ (t, next) ∷ []))
            view-incr

    place_new :
        index_of t q.waiting ≡ none
        → place R (Keys.queue keys) (Keys.seq keys) t (zscore db (Keys.queue keys) t) db
          ≡ (next, 1, zadd db' (Keys.queue keys) next t)
    unfolding place
    place_new new = rw (zscore-index, new, incr-next) refl

    place_old :
        (i : ℕ)
        → index_of t q.waiting ≡ some i
        → place R (Keys.queue keys) (Keys.seq keys) t (zscore db (Keys.queue keys) t) db
          ≡ (suc (q.admitted + i), 0, db)
    unfolding place
    place_old i old = rw (zscore-index, old) (ap (λ n. (n, 0, db)) (omega arith))

    join_via :
        (db'' : Db) (s joined : ℕ) (r : Line)
        → present (view db) (Keys.config keys) ≡ true
        → place R (Keys.queue keys) (Keys.seq keys) t (zscore db (Keys.queue keys) t) db
          ≡ (s, joined, db'')
        → Holds (view db'') keys r
        → (view db'').hashes ≡ (view db).hashes
        → Holds (view (join t db).1) keys r
          × ((join t db).0
              ≡ int 1
                ∷ int s
                ∷ int joined
                ∷ int (length r.waiting)
                ∷ int r.admitted
                ∷ int (rate_of db)
                ∷ [])
          × ((view (join t db).1).hashes ≡ (view db).hashes)
    unfolding placed
    join_via db'' s joined r live e holds same =
        rw (join_configured db t live, e)
          (
            holds,
            placed_lem db'' r s joined holds
                ∙ ap
                    (λ (f : Text → List (Text × ℕ)).
                      int 1
                      ∷ int s
                      ∷ int joined
                      ∷ int (length r.waiting)
                      ∷ int r.admitted
                      ∷ int (or_zero (lookup (codes "rate_per_min") (f (Keys.config keys))))
                      ∷ [])
                    same,
            same,
          )

    -- On a configured event whose keys are in step with the queue `q`, join.lua leaves them in step
    -- with the queue after `enter`: a new token takes the last place, a waiting one keeps its own. It
    -- replies with the sequence, whether the token is new, the size of the queue, the number admitted
    -- and the rate, and touches no hash.
    pub join-enter :
        present (view db) (Keys.config keys) ≡ true
        → Holds (view (join t db).1) keys (enter t q).0
          × ((join t db).0
              ≡ int 1
                ∷ int (enter t q).1
                ∷ int (flag (enter t q).2)
                ∷ int (length (enter t q).0.waiting)
                ∷ int (enter t q).0.admitted
                ∷ int (rate_of db)
                ∷ [])
          × ((view (join t db).1).hashes ≡ (view db).hashes)
    unfolding enter
    join-enter live = elim (Option-cases (index_of t q.waiting)) [
      | inl new ↦
          rw (new, enter)
            (join_via (zadd db' (Keys.queue keys) next t) next 1
              (record q { waiting = q.waiting ++ t ∷ [] }) live (place_new new)
              (subst (λ v. Holds v keys (record q { waiting = q.waiting ++ t ∷ [] }))
                (sym (view-new new)) (Holds-joined (view db) keys q t h new))
              (ap (λ v. v.hashes) (view-new new)))
      | inr (i, old) ↦
          rw (old, enter) (join_via db (suc (q.admitted + i)) 0 q live (place_old i old) h refl)
    ]

    -- A token that waits already changes nothing at all.
    pub join-resume : (i : ℕ) → index_of t q.waiting ≡ some i → (join t db).1 ≡ db
    unfolding Scripts.join placed
    join-resume i old = elim (Bool-cases (exists db (Keys.config keys))) [
      | inl live ↦ rw (live, place_old i old) refl
      | inr gone ↦ rw gone refl
    ]

    -- A new token is put last.
    pub join_new :
        present (view db) (Keys.config keys) ≡ true
        → index_of t q.waiting ≡ none
        → view (join t db).1 ≡ joined_view (view db) keys t (suc (q.admitted + length q.waiting))
    unfolding placed
    join_new live new = rw (join_configured db t live, place_new new) (view-new new)

    -- No string is written.
    pub join-strings :
        present (view db) (Keys.config keys) ≡ true
        → (view (join t db).1).strings ≡ (view db).strings
    join-strings live = elim (Option-cases (index_of t q.waiting)) [
      | inl new ↦ ap (λ v. v.strings) (join_new live new)
      | inr (i, old) ↦ rw (join-resume i old) refl
    ]

  -- An event that is not configured: the reply says so, and nothing changes.
  pub join_unconfigured :
      (db : Db) (t : Text)
      → present (view db) (Keys.config keys) ≡ false
      → join t db ≡ (int 0 ∷ [], db)
  unfolding Scripts.join
  join_unconfigured db t gone = rw (exists_lem, gone) refl
