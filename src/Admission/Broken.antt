-- ===== src/Admission/Broken.antt =====
-- A tick whose pipeline breaks off: some passes of the batch are parked, the others are not.
use queue_fair.Prelude.{
  ℕ, zero, suc, ◌+◌, ◌/◌, ◌<◌, ◌≤◌, Text, codes, false, none, some, List, [], ◌∷◌, ◌≡◌, refl, ap,
  sym, ◌∙◌, arith, length, take, ltb, ltb→lt, Bool-cases, inl, inr, if◌then◌else◌,
}
use mathlib.Core.Path.{subst}
use queue_fair.Redis.{View, Redis}
use queue_fair.Keys
use queue_fair.Keys.{EventKeys}
use queue_fair.Result.{ok, raise, redis_error, unknown_token}
use queue_fair.Ports.{PassIssuer}
use queue_fair.Queue.{Line, Holds, leave, index_of}
use queue_fair.Queue.Position.{position-told, told}
use queue_fair.Queue.Runs.{IsLive}
use queue_fair.Queue.Runs.Step.{present_of_live}
use queue_fair.Queue.Admit.{due, config_of}
use queue_fair.Repository.{delivered, lost, run_sets, admit_batch, repository, position, admitted}
use queue_fair.Repository.Codec.{JsonCodec}
use queue_fair.Repository.Replies.{admit_batch_returns}
use queue_fair.Admission.{issue_all, admit_once, hand_out}
use queue_fair.Queue.Places.{index_of-drop, index_of-take_within, index_of-take_beyond}
use queue_fair.Admission.Parked.{parked, parked-hashes, Holds-parked, parked_own, parked_other}
use queue_fair.Admission.Collect.{
  popped-strings, view-run_sets, tick, popped_IsLive, parcel, Distinct-take,
}

not_within : (j n : ℕ) → ltb j n ≡ false → n ≤ j
not_within j n h = ground arith

take-issue_all :
    (issuer : PassIssuer) (event_id : Text) (now : ℕ) (uuid : ℕ → Text) (i n : ℕ) (ts : List Text)
    → take n (issue_all issuer event_id now uuid i ts)
      ≡ issue_all issuer event_id now uuid i (take n ts)
unfolding issue_all
take-issue_all issuer event_id now uuid i zero ts = refl
take-issue_all issuer event_id now uuid i (suc n) [] = refl
take-issue_all issuer event_id now uuid i (suc n) (t ∷ ts) =
    ap (◌∷◌ (issuer.issue event_id t now (uuid i)))
      (take-issue_all issuer event_id now uuid (suc i) n ts)

module _ (R : Redis) (J : JsonCodec) (issuer : PassIssuer) (event_id : Text) (ttl now_ms : ℕ)
    (uuid : ℕ → Text) where
  open R use {Db, view}

  abbrev event : EventKeys
  event = record { event_id = event_id }

  hand_out_lost :
      (sent : ℕ) (ts : List Text) (total : ℕ) (d : Db) (t : Text) (j : ℕ)
      → index_of t ts ≡ some j
      → hand_out
          (repository R J delivered lost sent)
          issuer
          ttl
          event_id
          now_ms
          uuid
          (ok (some (record { admitted_tokens = ts; admitted_total = total })))
          d
        ≡ (
          raise redis_error,
          run_sets R J sent event_id (issue_all issuer event_id (now_ms / 1000) uuid 0 ts) ttl d,
        )
  unfolding hand_out repository issue_all
  hand_out_lost sent [] total d t j h = absurd (cc)
  hand_out_lost sent (u ∷ ts) total d t j h = refl

  module _ (db : Db) (q : Line) (h : Holds (view db) (record { event_id = event_id }) q)
      (live : IsLive (view db) (record { event_id = event_id }))
      (runs : 0 < config_of R (record { event_id = event_id }) db (codes "rate_per_min"))
      (names : (t jti : Text) → (issuer.issue event_id t (now_ms / 1000) jti).queue_token ≡ t)
      (lives : 0 < ttl) where
    abbrev popped_db : Db
    popped_db = (admit_batch R delivered event_id now_ms db).1

    abbrev gone : List Text
    gone = take (due R event db q now_ms) q.waiting

    -- Those whose pass is parked.
    abbrev served : ℕ → View
    served sent =
        parked J event_id ttl (issue_all issuer event_id (now_ms / 1000) uuid 0 (take sent gone))
          (view popped_db)

    lost_tick :
        (sent : ℕ) (t : Text) (j : ℕ)
        → index_of t gone ≡ some j
        → tick R J issuer event_id ttl now_ms uuid lost sent db ≡ (
          raise redis_error,
          run_sets R J sent event_id
              (issue_all issuer event_id (now_ms / 1000) uuid 0 gone)
              ttl
              popped_db,
        )
    unfolding admit_once repository
    lost_tick sent t j here =
        rw ((admit_batch_returns R event_id db q h live now_ms runs).0)
          (hand_out_lost sent gone (q.admitted + due R event db q now_ms) popped_db t j here)

    view-lost_tick :
        (sent : ℕ) (t : Text) (j : ℕ)
        → index_of t gone ≡ some j
        → view (tick R J issuer event_id ttl now_ms uuid lost sent db).1 ≡ served sent
    view-lost_tick sent t j here =
        ap (λ x. view x.1) (lost_tick sent t j here)
        ∙ view-run_sets R J event_id ttl sent _ popped_db
        ∙ ap (λ ps. parked J event_id ttl ps (view popped_db))
            (take-issue_all issuer event_id (now_ms / 1000) uuid 0 sent gone)

    stored :
        (sent : ℕ) (t : Text) (j : ℕ)
        → index_of t gone ≡ some j
        → (view db).strings (Keys.pass_for event t) ≡ none
        → (served sent).strings (Keys.pass_for event t) ≡ (
            if ltb j sent
            then some
                (J.dumps (parcel R J issuer event_id ttl now_ms uuid db q h live runs t j), ttl)
            else none)
    stored sent t j here no_pass = elim (Bool-cases (ltb j sent)) [
      | inl within ↦ rw within (
          parked_own J event_id ttl issuer (now_ms / 1000) uuid names 0 (take sent gone) t j
            (view popped_db) lives
            (Distinct-take sent gone (Distinct-take (due R event db q now_ms) q.waiting h.distinct))
            (index_of-take_within t gone j sent here (ltb→lt j sent within))
          ∙ ap
              (λ k.
                some
                  (J.dumps (parcel R J issuer event_id ttl now_ms uuid db q h live runs t k), ttl))
              (omega arith))
      | inr beyond ↦ rw beyond (
          parked_other J event_id ttl issuer (now_ms / 1000) uuid names 0 (take sent gone) t
            (view popped_db) (index_of-take_beyond t gone j sent here (not_within j sent beyond))
          ∙ ap (λ f. f (Keys.pass_for event t))
              (popped-strings R J issuer event_id ttl now_ms uuid db q h live runs)
          ∙ no_pass)
    ]

    -- Let the controller tick on a configured, running event in step with `q`, with an issuer that
    -- writes the token into its pass and a time to live above 0, the pop delivered, and the
    -- pipeline broken off after `sent` of its commands. The tick raises RedisError. A token that it
    -- popped as the `j`-th, with no pass from before, is told that it is admitted, with its own
    -- pass, if `j` is below `sent`, and otherwise that it is unknown: it has lost its place.
    pub tick_broken :
        (sent : ℕ) (t : Text) (j : ℕ)
        → index_of t (take (due R (record { event_id = event_id }) db q now_ms) q.waiting) ≡ some j
        → (view db).strings (Keys.pass_for (record { event_id = event_id }) t) ≡ none
        → ((tick R J issuer event_id ttl now_ms uuid lost sent db).0 ≡ raise redis_error)
          × ((position R J delivered event_id t
                (tick R J issuer event_id ttl now_ms uuid lost sent db).1).0
              ≡ (if ltb j sent
                  then ok (
                      admitted (record {
                        admission = parcel R J issuer event_id ttl now_ms uuid db q h live runs t j;
                        total_waiting =
                            length
                              (leave
                                (due R (record { event_id = event_id }) db q now_ms)
                                q).waiting;
                        admitted_total =
                            (leave (due R (record { event_id = event_id }) db q now_ms) q).admitted;
                      }))
                  else raise unknown_token))
    unfolding position told leave
    tick_broken sent t j here no_pass =
        let d = (tick R J issuer event_id ttl now_ms uuid lost sent db).1 in
        let out = admit_batch_returns R event_id db q h live now_ms runs in
        let seen = view-lost_tick sent t j here in
        let ps = issue_all issuer event_id (now_ms / 1000) uuid 0 (take sent gone) in
        let after = leave (due R event db q now_ms) q in
        let holds : Holds (view d) event after =
          subst (λ v. Holds v event after) (sym seen)
            (Holds-parked J event_id ttl ps (view popped_db) after out.1) in
        let stays : IsLive (view d) event =
          subst (λ v. IsLive v event) (sym seen)
            (rw (parked-hashes J event_id ttl ps (view popped_db))
              (popped_IsLive R J issuer event_id ttl now_ms uuid db q h live runs)) in
        let text =
          ap (λ v. v.strings (Keys.pass_for event t)) seen ∙ stored sent t j here no_pass in
        (
          ap (λ x. x.0) (lost_tick sent t j here),
          rw
              (
                position-told R event d t after holds (present_of_live (view d) event stays),
                index_of-drop t (due R event db q now_ms) j q.waiting h.distinct here,
                text,
              )
              (elim (Bool-cases (ltb j sent)) [
                | inl within ↦
                    rw
                      (
                        within,
                        J.loads-dumps
                            (parcel R J issuer event_id ttl now_ms uuid db q h live runs t j),
                      )
                      refl
                | inr beyond ↦ rw beyond refl
              ]),
        )
