-- ===== src/System/Kept.antt =====
-- A token over a run of the service: it keeps its place, and when it is admitted a pass is stored for it.
pub mod Tick
pub mod Over
pub mod Waits
pub mod Until
use queue_fair.Prelude.{
  ℕ, suc, ◌+◌, ◌-◌, ◌≤◌, ◌<◌, ◌/◌, Text, codes, Bool, true, false, Option, none, some, List, [],
  ◌∷◌, ◌++◌, ◌≡◌, refl, ap, sym, ◌∙◌, ◌⊎◌, arith, map, not, length, take, drop, text_eq,
  text_eq_iff, text_eq-append, is_empty, if◌then◌else◌, Option-cases, Bool-cases, inl, inr,
}
use mathlib.Core.Path.{subst}
use queue_fair.Redis.{View, Redis, All, set_string}
use queue_fair.Keys
use queue_fair.Keys.{EventKeys}
use queue_fair.Result.{Result, ok, raise}
use queue_fair.Ports.{AdmissionBatch, IssuedPass, PassIssuer}
use queue_fair.State.{Admission, Float}
use queue_fair.Queue.{Line, Holds, enter, leave, index_of, Distinct}
use queue_fair.Queue.Join.{join-strings}
use queue_fair.Queue.Position.{position-told}
use queue_fair.Queue.Numbered.{index_of-append, Distinct-drop}
use queue_fair.Queue.Places.{
  index_of-take-none, index_of-drop, index_of-take_within, index_of-take_beyond, index_of-more,
  index_of-drop_beyond,
}
use queue_fair.Queue.Untouched.{admit_batch_strings}
use queue_fair.Queue.Runs.{Event, join, ask, admit, park, expire, configure, step, final, IsLive}
use queue_fair.Queue.Runs.Step.{present_of_live, step-Stepped, line_after, admitted_by}
use queue_fair.Repository
use queue_fair.Repository.{book_url}
use queue_fair.Repository.Codec.{JsonCodec}
use queue_fair.Admission.{issue_all}
use queue_fair.Admission.Rounds.{Round}
use queue_fair.Admission.Collect.{view-run_sets, take-length, Distinct-take}
use queue_fair.Admission.Parked.{parked, parked-hashes, Holds-parked, parked_own, parked_other}

module _ (R : Redis) (J : JsonCodec) (issuer : PassIssuer) (ttl : ℕ) (event_id : Text)
    (t : Text) where
  open R use {Db, view, view-expire}

  abbrev keys : EventKeys
  keys = record { event_id = event_id }

  -- What a pass of a tick holds for the token.
  abbrev pub parcel_of : Round → ℕ → Admission
  parcel_of r j =
      let issued = issuer.issue event_id t (r.now_ms / 1000) (r.uuid j) in
      record { pass = issued.jwt; expires_at = issued.expires_at; book_url = book_url event_id }

  -- A pass of one of the ticks is stored for the token.
  pub record Collectable (Source : Round → Type 0) (v : View) : Type 0 where
    pub round : Round
    pub source : Source round
    pub draw : ℕ
    pub stored : v.strings (Keys.pass_for keys t) ≡ some (J.dumps (parcel_of round draw), ttl)

  -- The token waits, and will be the `place`-th to be admitted, or its pass is stored.
  abbrev pub Kept : (Source : Round → Type 0) → ℕ → Line → View → Type 0
  Kept Source place q v =
      ((i : ℕ) × (index_of t q.waiting ≡ some i) × (q.admitted + i ≡ place))
      ⊎ ((index_of t q.waiting ≡ none) × Collectable Source v)

  -- An event that leaves the token alone.
  abbrev pub Spares : Event → Type 0
  Spares (join u) = text_eq u t ≡ false
  Spares (ask u) = Unit
  Spares (expire u) = text_eq u t ≡ false
  Spares (admit now) = ⊥
  Spares (park u payload life) = ⊥
  Spares (configure rate burst batch_max) = ⊥

  module _ (Source : Round → Type 0) (place : ℕ) where
    pub Kept-same :
        (q : Line) (v w : View)
        → w.strings (Keys.pass_for keys t) ≡ v.strings (Keys.pass_for keys t)
        → Kept Source place q v
        → Kept Source place q w
    Kept-same q v w same (inl k) = inl k
    Kept-same q v w same (inr (gone, c)) = inr (
      gone,
      record { round = c.round; source = c.source; draw = c.draw; stored = same ∙ c.stored },
    )

    Kept-enter :
        (u : Text) (q : Line) (v : View)
        → text_eq u t ≡ false
        → Kept Source place q v
        → Kept Source place (enter u q).0 v
    unfolding enter
    Kept-enter u q v other k = elim (Option-cases (index_of u q.waiting)) [
      | inr (i, old) ↦ rw (old, enter) k
      | inl new ↦
          rw (new, enter)
            (elim k [
              | inl (i, here, e) ↦ inl (i, index_of-more t q.waiting (u ∷ []) i here, e)
              | inr (gone, c) ↦ inr (index_of-append t u q.waiting gone other, c)
            ])
    ]

    Kept-leave_zero :
        (q : Line) (v : View) → Kept Source place q v → Kept Source place (leave 0 q) v
    unfolding leave
    Kept-leave_zero q v (inl (i, here, e)) = inl (i, here, omega (arith, e))
    Kept-leave_zero q v (inr k) = inr k

    pub Kept-step :
        (e : Event) (db : Db) (q : Line)
        → Spares e
        → Holds (view db) keys q
        → IsLive (view db) keys
        → Kept Source place q (view db)
        → Kept Source place (line_after R keys e db q) (view (step R keys e db).1)
    unfolding step
    Kept-step (join u) db q other h live k =
        Kept-same (enter u q).0 (view db) _
          (ap (λ (s : Text → Option (Text × ℕ)). s (Keys.pass_for keys t))
            (join-strings R keys db u q h (present_of_live (view db) keys live)))
          (Kept-enter u q (view db) other k)
    Kept-step (ask u) db q other h live k =
        rw (position-told R keys db u q h (present_of_live (view db) keys live))
          (Kept-leave_zero q (view db) k)
    Kept-step (expire u) db q other h live k =
        Kept-same (leave 0 q) (view db) _
          (rw (view-expire db (Keys.pass_for keys u)) (simp (text_eq-append, other) refl))
          (Kept-leave_zero q (view db) k)
    Kept-step (admit now) db q none_such h live k = absurd none_such
    Kept-step (park u payload life) db q none_such h live k = absurd none_such
    Kept-step (configure rate burst batch_max) db q none_such h live k = absurd none_such
