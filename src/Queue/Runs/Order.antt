-- ===== src/Queue/Runs/Order.antt =====
-- The order of service over any interleaving.
use queue_fair.Prelude.{
  ℕ, suc, ◌+◌, ◌≤◌, Text, List, [], ◌∷◌, ◌++◌, ◌≡◌, refl, ap, sym, ◌∙◌, arith, length,
  length-append, length-take, take, take-append-drop, Option-cases, Bool-cases, leb, inl, inr,
}
use mathlib.Core.List.{append_assoc, append-nil, Sublist, nil-sublist}
use mathlib.Core.List.Sublist
use mathlib.Core.Path.{ap₂}
use queue_fair.Redis.{Redis}
use queue_fair.Keys.{EventKeys}
use queue_fair.Scripts.{flat}
use queue_fair.Queue.{Line, Holds, enter, leave, numbered, index_of}
use queue_fair.Queue.Release.{batch_size_bounds}
use queue_fair.Queue.Runs.{
  Event, join, ask, admit, park, expire, configure, step, final, log, joining, IsLive,
}
use queue_fair.Queue.Runs.Step.{admitted_by, added_by, line_after, rate_of, step-Stepped}

flat-numbered-append :
    (k m : ℕ) (a b : List Text)
    → m ≡ k + length a
    → flat (numbered k a) ++ flat (numbered m b) ≡ flat (numbered k (a ++ b))
unfolding flat
flat-numbered-append k m [] b e = ap (λ j. flat (numbered j b)) (omega arith)
flat-numbered-append k m (t ∷ a) b e = simp (flat-numbered-append (suc k) m a b (omega arith))

module _ (R : Redis) (keys : EventKeys) where
  open R use {Db, view}

  admitted_by-le : (e : Event) (db : Db) (q : Line) → admitted_by R keys e db q ≤ length q.waiting
  admitted_by-le (admit now) db q = elim (Bool-cases (leb (rate_of R keys db) 0)) [
    | inl stop ↦ rw stop (omega arith)
    | inr runs ↦ rw runs (batch_size_bounds _ _ _).0
  ]
  admitted_by-le (join t) db q = omega arith
  admitted_by-le _ db q = omega arith

  -- Who is popped, then who waits, are who waited, then who came.
  pub order_after :
      (e : Event) (db : Db) (q : Line)
      → take (admitted_by R keys e db q) q.waiting ++ (line_after R keys e db q).waiting
        ≡ q.waiting ++ added_by R keys e q
  unfolding enter leave
  order_after (join t) db q = elim (Option-cases (index_of t q.waiting)) [
    | inl new ↦ rw (new, line_after, enter, added_by, ◌++◌) refl
    | inr (i, old) ↦ rw (old, line_after, enter, added_by, ◌++◌) (sym (append-nil q.waiting))
  ]
  order_after (ask t) db q = sym (append-nil q.waiting)
  order_after (admit now) db q = take-append-drop _ q.waiting ∙ sym (append-nil q.waiting)
  order_after (park t payload ttl) db q = sym (append-nil q.waiting)
  order_after (expire t) db q = sym (append-nil q.waiting)
  order_after (configure rate burst batch_max) db q = sym (append-nil q.waiting)

  pub count_after :
      (e : Event) (db : Db) (q : Line)
      → (line_after R keys e db q).admitted
        ≡ q.admitted + length (take (admitted_by R keys e db q) q.waiting)
  unfolding enter leave
  count_after (join t) db q = elim (Option-cases (index_of t q.waiting)) [
    | inl new ↦ rw (new, line_after, enter) (omega arith)
    | inr (i, old) ↦ rw (old, line_after, enter) (omega arith)
  ]
  count_after (admit now) db q = omega (
    arith,
    admitted_by-le (admit now) db q,
    length-take (admitted_by R keys (admit now) db q) q.waiting,
  )
  count_after (ask t) db q = refl
  count_after _ db q = refl

  added-sublist :
      (e : Event) (q : Line) (l : List Text) (es : List Event)
      → Sublist l (joining es)
      → Sublist (added_by R keys e q ++ l) (joining (e ∷ es))
  added-sublist (join t) q l es s = elim (Option-cases (index_of t q.waiting)) [
    | inl new ↦ rw (new, added_by, ◌++◌) (Sublist.cons-cons t s)
    | inr (i, old) ↦ rw (old, added_by, ◌++◌) (Sublist.cons t s)
  ]
  added-sublist (ask t) q l es s = s
  added-sublist _ q l es s = s

  -- After any list of events on a configured event in step with `q`, the keys are in step with a
  -- queue `after`. What was popped, in order, is the tokens `gone` with the consecutive sequences
  -- from the first not yet admitted, and the counter has grown by their number. Those and the waiting
  -- are, in order, the former waiting and the newcomers `fresh`, who asked to join in that order.
  pub final-order :
      (es : List Event) (db : Db) (q : Line)
      → Holds (view db) keys q
      → IsLive (view db) keys
      → (after : Line) × (gone : List Text) × (fresh : List Text) × Holds
          (view (final R keys es db))
          keys
          after
        × (log R keys es db ≡ flat (numbered (suc q.admitted) gone))
        × (after.admitted ≡ q.admitted + length gone)
        × (gone ++ after.waiting ≡ q.waiting ++ fresh)
        × Sublist fresh (joining es)
  unfolding final log flat
  final-order [] db q h live =
      (q, [], [], h, refl, omega arith, sym (append-nil q.waiting), nil-sublist [])
  final-order (e ∷ es) db q h live =
      let s = step-Stepped R keys db q h live e in
      let q' = line_after R keys e db q in
      let now = take (admitted_by R keys e db q) q.waiting in
      let (after, gone, fresh, holds, logged, counted, order, came) =
        final-order es (step R keys e db).1 q' s.in_step s.live in
      (
        after,
        now ++ gone,
        added_by R keys e q ++ fresh,
        holds,
        ap₂ ◌++◌ s.log logged
            ∙ flat-numbered-append (suc q.admitted) (suc q'.admitted) now gone
                (omega (arith, count_after e db q)),
        omega (arith, counted, count_after e db q, length-append now gone),
        append_assoc now gone after.waiting
            ∙ ap (◌++◌ now) order
            ∙ sym (append_assoc now q'.waiting fresh)
            ∙ ap (λ l. l ++ fresh) (order_after e db q)
            ∙ append_assoc q.waiting (added_by R keys e q) fresh,
        added-sublist e q fresh es came,
      )
