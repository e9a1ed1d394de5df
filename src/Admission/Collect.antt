-- ===== src/Admission/Collect.antt =====
-- What a tick of the controller over the Redis repository leaves for those who were popped.
use queue_fair.Prelude.{
  ℕ, zero, suc, ◌+◌, ◌/◌, ◌<◌, Text, codes, some, List, [], ◌∷◌, ◌≡◌, refl, ap, sym, ◌∙◌, arith,
  length, take,
}
use mathlib.Core.Path.{subst}
use queue_fair.Redis.{View, Redis}
use queue_fair.Keys
use queue_fair.Keys.{EventKeys}
use queue_fair.Result.{Result, ok}
use queue_fair.Ports.{IssuedPass, PassIssuer}
use queue_fair.Queue.{Line, Holds, leave, index_of, Distinct}
use queue_fair.Queue.Position.{position-told, told}
use queue_fair.State.{Admission}
use queue_fair.Queue.Runs.{IsLive, step, admit}
use queue_fair.Queue.Runs.Step.{present_of_live, step-Stepped}
use queue_fair.Queue.Admit.{due, config_of}
use queue_fair.Repository.{
  pipeline_reply_lem, Network, delivered, run_sets, payload, book_url, admit_batch, repository,
  position, admitted,
}
use queue_fair.Repository.Codec.{JsonCodec}
use queue_fair.Repository.Replies.{admit_batch_returns}
use queue_fair.Admission.{issue_all, admit_once, hand_out}
use queue_fair.Queue.Untouched.{admit_batch_strings}
use queue_fair.Queue.Places.{index_of-take-none, index_of-drop}
use queue_fair.Admission.Parked.{parked, parked-hashes, Holds-parked, parked_own}

module _ (R : Redis) (J : JsonCodec) (event_id : Text) (ttl : ℕ) where
  open R use {Db, view, view-set_ex}

  -- The first `sent` of the passes are parked.
  pub view-run_sets :
      (sent : ℕ) (ps : List IssuedPass) (db : Db)
      → view (run_sets R J sent event_id ps ttl db) ≡ parked J event_id ttl (take sent ps) (view db)
  unfolding run_sets
  view-run_sets zero ps db = refl
  view-run_sets (suc sent) [] db = refl
  view-run_sets (suc sent) (p ∷ ps) db =
      view-run_sets sent ps _
      ∙ ap (parked J event_id ttl (take sent ps)) (
          view-set_ex db (Keys.pass_for (record { event_id = event_id }) p.queue_token)
            (payload J event_id p) ttl)

pub take-length : (ps : List IssuedPass) → take (length ps) ps ≡ ps
take-length [] = refl
take-length (p ∷ ps) = ap (◌∷◌ p) (take-length ps)

-- The `take` of distinct tokens.
pub Distinct-take : (n : ℕ) (l : List Text) → Distinct l → Distinct (take n l)
Distinct-take zero l d = tt
Distinct-take (suc n) [] d = tt
Distinct-take (suc n) (u ∷ l) d = (index_of-take-none u n l d.0, Distinct-take n l d.1)

module _ (R : Redis) (J : JsonCodec) (issuer : PassIssuer) (event_id : Text) (ttl now_ms : ℕ)
    (uuid : ℕ → Text) where
  open R use {Db, view}

  abbrev event : EventKeys
  event = record { event_id = event_id }

  -- One tick of a controller whose pop is delivered.
  abbrev pub tick : Network → ℕ → Db → Result (List IssuedPass) × Db
  tick parking sent =
      admit_once (repository R J delivered parking sent) issuer ttl event_id now_ms uuid

  abbrev pub passes_of : List Text → List IssuedPass
  passes_of = issue_all issuer event_id (now_ms / 1000) uuid 0

  hand_out_delivered :
      (sent : ℕ) (ts : List Text) (total : ℕ) (d : Db)
      → 0 < ttl
      → hand_out
          (repository R J delivered delivered sent)
          issuer
          ttl
          event_id
          now_ms
          uuid
          (ok (some (record { admitted_tokens = ts; admitted_total = total })))
          d
        ≡ (ok (passes_of ts), run_sets R J (length (passes_of ts)) event_id (passes_of ts) ttl d)
  unfolding hand_out repository run_sets
  hand_out_delivered sent [] total d lives = refl
  hand_out_delivered sent (t ∷ ts) total d lives = rw (pipeline_reply_lem ttl lives) refl

  module _ (db : Db) (q : Line) (h : Holds (view db) (record { event_id = event_id }) q)
      (live : IsLive (view db) (record { event_id = event_id }))
      (runs : 0 < config_of R (record { event_id = event_id }) db (codes "rate_per_min")) where
    abbrev pub n : ℕ
    n = due R event db q now_ms

    abbrev pub popped_db : Db
    popped_db = (admit_batch R delivered event_id now_ms db).1

    pub popped_IsLive : IsLive (view popped_db) event
    unfolding admit_batch step
    popped_IsLive = (step-Stepped R event db q h live (admit now_ms)).live

    -- The pop writes no pass.
    pub popped-strings : (view popped_db).strings ≡ (view db).strings
    unfolding admit_batch
    popped-strings = admit_batch_strings R _ _ _ _ now_ms db

    tick_lem :
        (sent : ℕ)
        → 0 < ttl
        → tick delivered sent db ≡ (
          ok (passes_of (take n q.waiting)),
          run_sets R J
              (length (passes_of (take n q.waiting)))
              event_id
              (passes_of (take n q.waiting))
              ttl
              popped_db,
        )
    unfolding admit_once repository
    tick_lem sent lives =
        let out = admit_batch_returns R event_id db q h live now_ms runs in
        rw (out.0) (hand_out_delivered sent (take n q.waiting) (q.admitted + n) popped_db lives)

    abbrev parked_view : View
    parked_view = parked J event_id ttl (passes_of (take n q.waiting)) (view popped_db)

    view-tick : (sent : ℕ) → 0 < ttl → view (tick delivered sent db).1 ≡ parked_view
    view-tick sent lives =
        ap (λ (x : Result (List IssuedPass) × Db). view x.1) (tick_lem sent lives)
        ∙ view-run_sets R J event_id ttl (length (passes_of (take n q.waiting)))
            (passes_of (take n q.waiting)) popped_db
        ∙ ap (λ ps. parked J event_id ttl ps (view popped_db))
            (take-length (passes_of (take n q.waiting)))

    -- The payload that the token of the `j`-th pass collects.
    abbrev pub parcel : Text → ℕ → Admission
    parcel t j =
        let issued = issuer.issue event_id t (now_ms / 1000) (uuid j) in
        record { pass = issued.jwt; expires_at = issued.expires_at; book_url = book_url event_id }

    module _
        (names : (t jti : Text) → (issuer.issue event_id t (now_ms / 1000) jti).queue_token ≡ t)
        (lives : 0 < ttl) where
      stored :
          (sent : ℕ) (t : Text) (j : ℕ)
          → index_of t (take n q.waiting) ≡ some j
          → (view (tick delivered sent db).1).strings (Keys.pass_for event t)
            ≡ some (J.dumps (parcel t j), ttl)
      stored sent t j here =
          ap (λ v. v.strings (Keys.pass_for event t)) (view-tick sent lives)
          ∙ parked_own J event_id ttl issuer (now_ms / 1000) uuid names 0 (take n q.waiting) t j
              (view popped_db) lives (Distinct-take n q.waiting h.distinct) here
          ∙ ap (λ k. some (J.dumps (parcel t k), ttl)) (omega arith)

      -- Let the controller tick on a configured, running event in step with `q`, both round trips
      -- delivered, with an issuer that writes the token into its pass and a time to live above 0.
      -- Then each of the first `due` waiting tokens, on asking for its position, is told that it is
      -- admitted, with its own pass, the expiry of the pass and the event's booking address.
      pub tick_collected :
          (sent : ℕ) (t : Text) (j : ℕ)
          → index_of t (take (due R (record { event_id = event_id }) db q now_ms) q.waiting)
            ≡ some j
          → (position R J delivered event_id t (tick delivered sent db).1).0
            ≡ ok (
                admitted (record {
                  admission = parcel t j;
                  total_waiting =
                      length (leave (due R (record { event_id = event_id }) db q now_ms) q).waiting;
                  admitted_total =
                      (leave (due R (record { event_id = event_id }) db q now_ms) q).admitted;
                }))
      unfolding position told leave
      tick_collected sent t j here =
          let d = (tick delivered sent db).1 in
          let out = admit_batch_returns R event_id db q h live now_ms runs in
          let holds : Holds (view d) event (leave n q) =
            subst (λ v. Holds v event (leave n q)) (sym (view-tick sent lives))
              (Holds-parked J event_id ttl (passes_of (take n q.waiting)) (view popped_db)
                (leave n q) out.1) in
          let stays : IsLive (view d) event =
            subst (λ v. IsLive v event) (sym (view-tick sent lives))
              (rw (parked-hashes J event_id ttl (passes_of (take n q.waiting)) (view popped_db))
                popped_IsLive) in
          rw
            (
              position-told R event d t (leave n q) holds (present_of_live (view d) event stays),
              index_of-drop t n j q.waiting h.distinct here,
              stored sent t j here,
              J.loads-dumps (parcel t j),
            )
            refl
