-- ===== src/System/Kept/Tick.antt =====
-- A tick, and a token that waits or has its pass.
use queue_fair.Prelude.{
  ◌<◌, ℕ, ◌-◌, ◌≤◌, ◌/◌, Text, Option, none, some, List, ◌≡◌, refl, ap, sym, ◌∙◌, arith, length,
  take, ltb, ltb→lt, Bool-cases, inl, inr,
}
use mathlib.Core.Path.{subst}
use queue_fair.Redis.{View, Redis}
use queue_fair.Keys
use queue_fair.Keys.{EventKeys}
use queue_fair.Ports.{IssuedPass, PassIssuer}
use queue_fair.State.{Float}
use queue_fair.Queue.{Line, Holds, leave, index_of}
use queue_fair.Queue.Places.{
  index_of-take-none, index_of-drop, index_of-drop-none, index_of-take_within, index_of-drop_beyond,
}
use queue_fair.Queue.Untouched.{admit_batch_strings}
use queue_fair.Queue.Runs.{admit, step, final, IsLive}
use queue_fair.Queue.Runs.Step.{line_after, admitted_by, step-Stepped}
use queue_fair.Repository
use queue_fair.Repository.{Network, delivered, refused, run_sets}
use queue_fair.Repository.Codec.{JsonCodec}
use queue_fair.Admission.{issue_all}
use queue_fair.Admission.Rounds.{Round}
use queue_fair.Admission.Collect.{view-run_sets, take-length, Distinct-take}
use queue_fair.Admission.Parked.{parked, parked-hashes, Holds-parked, parked_own, parked_other}
use queue_fair.Api.{Settings}
use queue_fair.System.{ticks, perform, events_of}
use queue_fair.System.Batch.{batch_tokens}
use queue_fair.System.Trace.{perform-events}
use queue_fair.System.Trace.Ticks.{final-parks}
use queue_fair.System.Kept.{Kept, Collectable, parcel_of}

module _ (F : Float) (settings : Settings) (R : Redis) (J : JsonCodec) (issuer : PassIssuer)
    (ttl : ℕ) (event_id : Text) where
  open R use {Db, view}

  abbrev keys : EventKeys
  keys = record { event_id = event_id }

  abbrev pub passes_of : Round → List Text → List IssuedPass
  passes_of r = issue_all issuer event_id (r.now_ms / 1000) r.uuid 0

  -- A tick that does not reach Redis does nothing.
  pub tick_refused :
      (r : Round) (db : Db)
      → r.popping ≡ refused
      → perform F settings R J issuer ttl event_id (ticks r) db ≡ db
  unfolding events_of final Repository.admit_batch
  tick_refused r db e = perform-events F settings R J issuer ttl event_id (ticks r) db ∙ rw e refl

  module _ (db : Db) (q : Line) (h : Holds (view db) keys q) (live : IsLive (view db) keys)
      (r : Round) where
    abbrev n : ℕ
    n = admitted_by R keys (admit r.now_ms) db q

    abbrev ps : List IssuedPass
    ps = passes_of r (take n q.waiting)

    tick_delivered :
        r.popping ≡ delivered
        → r.parking ≡ delivered
        → perform F settings R J issuer ttl event_id (ticks r) db
          ≡ run_sets R J (length ps) event_id ps ttl (step R keys (admit r.now_ms) db).1
    unfolding events_of final
    tick_delivered popping parking =
        let (total, e) = batch_tokens R event_id db q h live r.now_ms in
        perform-events F settings R J issuer ttl event_id (ticks r) db
        ∙ rw (popping, e, parking) (final-parks F settings R J issuer ttl event_id (length ps) ps _)

    view-tick :
        r.popping ≡ delivered
        → r.parking ≡ delivered
        → view (perform F settings R J issuer ttl event_id (ticks r) db)
          ≡ parked J event_id ttl ps (view (step R keys (admit r.now_ms) db).1)
    view-tick popping parking =
        ap view (tick_delivered popping parking)
        ∙ view-run_sets R J event_id ttl (length ps) ps _
        ∙ ap (λ l. parked J event_id ttl l (view (step R keys (admit r.now_ms) db).1))
            (take-length ps)

    pub Holds-tick :
        r.popping ≡ delivered
        → r.parking ≡ delivered
        → Holds
            (view (perform F settings R J issuer ttl event_id (ticks r) db))
            keys
            (line_after R keys (admit r.now_ms) db q)
    Holds-tick popping parking =
        let st = step-Stepped R keys db q h live (admit r.now_ms) in
        subst (λ v. Holds v keys (line_after R keys (admit r.now_ms) db q))
          (sym (view-tick popping parking))
          (Holds-parked J event_id ttl ps _ (line_after R keys (admit r.now_ms) db q) st.in_step)

    pub IsLive-tick :
        r.popping ≡ delivered
        → r.parking ≡ delivered
        → IsLive (view (perform F settings R J issuer ttl event_id (ticks r) db)) keys
    IsLive-tick popping parking =
        let st = step-Stepped R keys db q h live (admit r.now_ms) in
        subst (λ v. IsLive v keys) (sym (view-tick popping parking))
          (rw (parked-hashes J event_id ttl ps (view (step R keys (admit r.now_ms) db).1)) st.live)

    popped-strings : (view (step R keys (admit r.now_ms) db).1).strings ≡ (view db).strings
    unfolding step
    popped-strings = admit_batch_strings R _ _ _ _ r.now_ms db

    module _ (t : Text) (Source : Round → Type 0) (place : ℕ) (source : Source r)
        (names : (u jti : Text) → (issuer.issue event_id u (r.now_ms / 1000) jti).queue_token ≡ u)
        (popping : r.popping ≡ delivered) (parking : r.parking ≡ delivered) (lives : 0 < ttl) where
      abbrev after : Db
      after = perform F settings R J issuer ttl event_id (ticks r) db

      -- Who is popped has its pass.
      Collectable-popped :
          (i : ℕ)
          → index_of t (take n q.waiting) ≡ some i
          → Collectable R J issuer ttl event_id t Source (view after)
      Collectable-popped i here = record {
        round = r;
        source = source;
        draw = i;
        stored =
            ap (λ (v : View). v.strings (Keys.pass_for keys t)) (view-tick popping parking)
            ∙ parked_own J event_id ttl issuer (r.now_ms / 1000) r.uuid names 0 (take n q.waiting) t
                i _ lives (Distinct-take n q.waiting h.distinct) here
            ∙ ap (λ k. some (J.dumps (parcel_of R J issuer ttl event_id t r k), ttl)) (omega arith);
      }

      -- Another's pass does not replace it.
      pass_stays :
          index_of t (take n q.waiting) ≡ none
          → (view after).strings (Keys.pass_for keys t) ≡ (view db).strings (Keys.pass_for keys t)
      pass_stays absent =
          ap (λ (v : View). v.strings (Keys.pass_for keys t)) (view-tick popping parking)
          ∙ parked_other J event_id ttl issuer (r.now_ms / 1000) r.uuid names 0 (take n q.waiting) t
              _ absent
          ∙ ap (λ (s : Text → Option (Text × ℕ)). s (Keys.pass_for keys t)) popped-strings

      pub Kept-tick :
          Kept R J issuer ttl event_id t Source place q (view db)
          → Kept R J issuer ttl event_id t Source place
              (line_after R keys (admit r.now_ms) db q)
              (view after)
      unfolding leave
      Kept-tick (inr (gone, c)) = inr (
        index_of-drop-none t n q.waiting gone,
        record {
          round = c.round;
          source = c.source;
          draw = c.draw;
          stored = pass_stays (index_of-take-none t n q.waiting gone) ∙ c.stored;
        },
      )
      Kept-tick (inl (i, here, e)) = elim (Bool-cases (ltb i n)) [
        | inl popped ↦
            let within = index_of-take_within t q.waiting i n here (ltb→lt i n popped) in
            inr (index_of-drop t n i q.waiting h.distinct within, Collectable-popped i within)
        | inr stays ↦
            let beyond : n ≤ i = ground arith in
            inl (i - n, index_of-drop_beyond t q.waiting i n here beyond, omega (arith, e, beyond))
      ]
