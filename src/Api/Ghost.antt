-- ===== src/Api/Ghost.antt =====
-- A first join whose reply is lost, and another try without a cookie.
use queue_fair.Prelude.{
  ℕ, suc, ◌+◌, length, length-append, ◌<◌, Text, codes, true, none, some, List, [], ◌∷◌, ◌++◌, ◌≡◌,
  ◌≢◌, refl, ap, ◌∙◌, arith, text_eq, text_eq_iff, Bool-cases, Option-cases, inl, inr,
}
use mathlib.Core.Path.{subst, ap₂}
use mathlib.Core.List.{append_assoc}
use queue_fair.Redis.{Redis, All}
use queue_fair.Validation.{is_valid_event_id, new_queue_token}
use queue_fair.Validation.QueueToken.{new_queue_token-injective}
use queue_fair.State.{Float}
use queue_fair.Queue.{Line, Holds, enter, index_of}
use queue_fair.Queue.Runs.{IsLive}
use queue_fair.Repository
use queue_fair.Repository.{delivered, lost}
use queue_fair.Repository.Replies.{outcome_of, join_returns, lost-Holds, lost-IsLive, lost-hashes}
use queue_fair.Api.Sent.{unavailable_sent, join_sent, join_sent_lem}
use queue_fair.Queue.Admit.{config_of}
use queue_fair.Api
use queue_fair.Api.{
  Request, Response, Settings, refusal, queue_token_from, token_for, join_response, joined, taken,
}
use queue_fair.Api.Refresh.{join_through}

-- A token that is no one's enters at the end.
enter_new :
    (t : Text) (q : Line)
    → index_of t q.waiting ≡ none
    → (enter t q).0 ≡ record q { waiting = q.waiting ++ t ∷ [] }
unfolding enter
enter_new t q new = rw (new, enter) refl

enter_told :
    (t : Text) (q : Line)
    → index_of t q.waiting ≡ none
    → enter t q
      ≡ (record q { waiting = q.waiting ++ t ∷ [] }, suc (q.admitted + length q.waiting), true)
unfolding enter
enter_told t q new = rw (new, enter) refl

not_appended :
    (t u : Text) (l : List Text) → index_of t l ≡ none → u ≢ t → index_of t (l ++ u ∷ []) ≡ none
not_appended t u [] h other = elim (Bool-cases (text_eq u t)) [
  | inl same ↦ absurd (other ((text_eq_iff u t).0 same))
  | inr differs ↦ rw differs refl
]
not_appended t u (v ∷ l) h other = elim (Bool-cases (text_eq v t)) [
  | inl same ↦ absurd (ground arith)
  | inr differs ↦ elim (Option-cases (index_of t l)) [
    | inl gone ↦ ground (arith, not_appended t u l gone other)
    | inr (i, here) ↦ absurd (ground arith)
  ]
]

module _ (F : Float) (settings : Settings) (event_id : Text) (R : Redis) where
  open R use {Db, view}

  minted_for :
      (r : Request) (bytes : List ℕ)
      → queue_token_from r event_id ≡ none
      → token_for r event_id bytes ≡ new_queue_token bytes
  unfolding token_for
  minted_for r bytes e = rw e refl

  lost_through :
      (r : Request) (bytes : List ℕ) (db : Db)
      → text_eq r.method (codes "POST") ≡ true
      → is_valid_event_id event_id ≡ true
      → queue_token_from r event_id ≡ none
      → Api.join F settings event_id R lost r bytes db ≡ (
        some (refusal 503 (codes "redis_unavailable")),
        (Repository.join R lost event_id (new_queue_token bytes) db).1,
      )
  unfolding Api.join taken joined Repository.join
  lost_through r bytes db post valid anonymous = rw (post, valid, minted_for r bytes anonymous) refl

  module _ (db : Db) (q : Line) (h : Holds (view db) (record { event_id = event_id }) q)
      (live : IsLive (view db) (record { event_id = event_id })) where
    -- The queue once both tokens are in it.
    abbrev both : Text → Text → Line
    both t u = record q { waiting = q.waiting ++ t ∷ u ∷ [] }

    enter-both :
        (t u : Text)
        → index_of t q.waiting ≡ none
        → index_of u q.waiting ≡ none
        → t ≢ u
        → (enter u (enter t q).0).0 ≡ both t u
    enter-both t u ht hu other =
        ap (λ x. (enter u x).0) (enter_new t q ht)
        ∙ enter_new u (record q { waiting = q.waiting ++ t ∷ [] })
            (not_appended u t q.waiting hu other)
        ∙ ap (λ l. record q { waiting = l }) (append_assoc q.waiting (t ∷ []) (u ∷ []))

    appended : (t : Text) (l : List Text) → length (l ++ t ∷ []) ≡ length l + 1
    appended t l = omega (arith, length-append l (t ∷ []))

    -- What the second join tells.
    told :
        (t u : Text)
        → index_of t q.waiting ≡ none
        → index_of u q.waiting ≡ none
        → t ≢ u
        → outcome_of R event_id (Repository.join R lost event_id t db).1 u (enter t q).0 ≡ record {
          sequence = q.admitted + length q.waiting + 2;
          joined = true;
          total_waiting = length q.waiting + 2;
          admitted_total = q.admitted;
          rate_per_min = config_of R (record { event_id = event_id }) db (codes "rate_per_min");
        }
    told t u ht hu other =
        rw
          (
            enter_new t q ht,
            enter_told u (record q { waiting = q.waiting ++ t ∷ [] })
                (not_appended u t q.waiting hu other),
            lost-hashes R event_id db t q h live,
          )
          (ap₂
            (λ s n. record {
              sequence = s;
              joined = true;
              total_waiting = n;
              admitted_total = q.admitted;
              rate_per_min = config_of R (record { event_id = event_id }) db (codes "rate_per_min");
            })
            (omega (arith, appended t q.waiting))
            (omega (arith, appended t q.waiting, appended u (q.waiting ++ t ∷ []))))

    -- Let a client without a token POST a join to a configured event with an accepted id, in step
    -- with `q`, the reply of Redis lost, and POST again, still without a token, delivered; let the
    -- random bytes of the two differ, and neither token wait in `q`. The first is answered 503 with
    -- no cookie, the second 200 with the second token in the body and in the cookie, the sequence
    -- after that of the first token and the place behind it, each field of the two written out here
    -- and in Sent; and both tokens hold a place, at the end of `q`.
    pub join_lost_twice :
        (first again : Request) (bytes others : List ℕ)
        → text_eq first.method (codes "POST") ≡ true
        → text_eq again.method (codes "POST") ≡ true
        → is_valid_event_id event_id ≡ true
        → queue_token_from first event_id ≡ none
        → queue_token_from again event_id ≡ none
        → All (λ b. b < 256) bytes
        → All (λ b. b < 256) others
        → bytes ≢ others
        → index_of (new_queue_token bytes) q.waiting ≡ none
        → index_of (new_queue_token others) q.waiting ≡ none
        → ((Api.join F settings event_id R lost first bytes db).0 ≡ some unavailable_sent)
          × ((Api.join F settings event_id R delivered again others
                (Api.join F settings event_id R lost first bytes db).1).0
              ≡ some (
                  join_sent F settings event_id (new_queue_token others) (record {
                    sequence = q.admitted + length q.waiting + 2;
                    joined = true;
                    total_waiting = length q.waiting + 2;
                    admitted_total = q.admitted;
                    rate_per_min =
                        config_of R (record { event_id = event_id }) db (codes "rate_per_min");
                  })))
          × Holds
              (view
                (Api.join F settings event_id R delivered again others
                  (Api.join F settings event_id R lost first bytes db).1).1)
              (record { event_id = event_id })
              (record q {
                waiting = q.waiting ++ new_queue_token bytes ∷ new_queue_token others ∷ [];
              })
    unfolding joined
    join_lost_twice first again bytes others post post' valid no_token no_token' range range' differ
          new new' =
        let t = new_queue_token bytes in
        let u = new_queue_token others in
        let d = (Repository.join R lost event_id t db).1 in
        let out =
          join_returns R event_id d u (enter t q).0 (lost-Holds R event_id db t q h live)
            (lost-IsLive R event_id db t q h live) in
        let other : t ≢ u = λ e. differ (new_queue_token-injective bytes others range range' e) in
        rw
          (
            lost_through first bytes db post valid no_token,
            join_through F settings event_id R again others d post' valid,
            minted_for again others no_token',
          )
          (
            refl,
            rw (out.0) (
                ap some (
                  join_sent_lem F settings event_id u _
                  ∙ ap (join_sent F settings event_id u) (told t u new new' other))),
            subst
                (Holds (view (Repository.join R delivered event_id u d).1)
                  (record { event_id = event_id }))
                (enter-both t u new new' other) out.1,
          )
