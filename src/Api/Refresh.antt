-- ===== src/Api/Refresh.antt =====
-- A waiter who reloads the page.
use queue_fair.Prelude.{
  or_else, ℕ, ◌<◌, Text, codes, true, false, Option, none, some, List, ◌≡◌, refl, arith, lookup,
  insert, lookup-insert, text_eq_iff, ◌++◌, ◌∙◌, ap, text_eq, length, inl, inr, Option-cases,
}
use mathlib.Core.Path.{ap₂}
use queue_fair.Redis.{Redis, All}
use queue_fair.Validation.{is_valid_event_id, is_valid_queue_token, queue_token_bytes}
use queue_fair.Validation.QueueToken.{new_queue_token_accepted, valid_not_empty}
use queue_fair.State.{Float}
use queue_fair.Queue.{Line, Holds}
use queue_fair.Queue.Runs.{IsLive}
use queue_fair.Repository
use queue_fair.Repository.{delivered}
use queue_fair.Repository.Replies.{outcome_of, join_returns, resumed, unchanged}
use queue_fair.Api
use queue_fair.Api.Sent.{after, join_sent, join_sent_lem}
use queue_fair.Api.{
  last_value, Request, Response, Settings, accepted, queue_token_from, token_for, cookie_name,
  or_minted, join_response, joined, taken,
}

pub accepted_valid : (t : Text) → is_valid_queue_token t ≡ true → accepted (some t) ≡ some t
unfolding accepted
accepted_valid t h = rw (valid_not_empty t h, h) refl

valid_accepted : (o : Option Text) (t : Text) → accepted o ≡ some t → is_valid_queue_token t ≡ true
unfolding accepted
valid_accepted none t h = absurd (cc)
valid_accepted (some u) t h = ground arith

valid_first :
    (a b : Option Text) (t : Text)
    → or_else (accepted a) (accepted b) ≡ some t
    → is_valid_queue_token t ≡ true
valid_first a b t h = elim (Option-cases (accepted a)) [
  | inl e ↦ valid_accepted b t (ground arith)
  | inr (u, e) ↦ valid_accepted a t (ground arith)
]

-- The token of a request is well-formed, found or minted.
token_for_valid :
    (r : Request) (event_id : Text) (bytes : List ℕ)
    → length bytes ≡ queue_token_bytes
    → All (λ b. b < 256) bytes
    → is_valid_queue_token (token_for r event_id bytes) ≡ true
unfolding token_for queue_token_from
token_for_valid r event_id bytes size range = elim (Option-cases (queue_token_from r event_id)) [
  | inl e ↦ rw e ((new_queue_token_accepted bytes size range).1)
  | inr (t, e) ↦
      rw e
        (valid_first (lookup (cookie_name event_id) r.cookies) (last_value (codes "t") r.query) t e)
]

token_for_cookie :
    (r : Request) (event_id t : Text) (bytes : List ℕ)
    → lookup (cookie_name event_id) r.cookies ≡ some t
    → is_valid_queue_token t ≡ true
    → token_for r event_id bytes ≡ t
unfolding token_for queue_token_from
token_for_cookie r event_id t bytes here valid = rw (here, accepted_valid t valid) refl

returned :
    (event_id t : Text) (cookies : List (Text × Text))
    → lookup (cookie_name event_id) (insert (codes "qf_" ++ event_id) t cookies) ≡ some t
returned event_id t cookies =
    lookup-insert (cookie_name event_id) (cookie_name event_id) t cookies
    ∙ ground (arith, text_eq_iff (cookie_name event_id) (cookie_name event_id))

module _ (F : Float) (settings : Settings) (event_id : Text) (R : Redis) where
  open R use {Db, view}

  -- A join that passes the guards.
  pub join_through :
      (r : Request) (bytes : List ℕ) (db : Db)
      → text_eq r.method (codes "POST") ≡ true
      → is_valid_event_id event_id ≡ true
      → Api.join F settings event_id R delivered r bytes db ≡ (
        joined F settings event_id
            (token_for r event_id bytes)
            (Repository.join R delivered event_id (token_for r event_id bytes) db).0,
        (Repository.join R delivered event_id (token_for r event_id bytes) db).1,
      )
  unfolding Api.join taken
  join_through r bytes db post valid = rw (post, valid) refl

  module _ (db : Db) (q : Line) (h : Holds (view db) (record { event_id = event_id }) q)
      (live : IsLive (view db) (record { event_id = event_id })) where
    rejoined :
        (first again : Request) (bytes others : List ℕ)
        → text_eq first.method (codes "POST") ≡ true
        → text_eq again.method (codes "POST") ≡ true
        → is_valid_event_id event_id ≡ true
        → length bytes ≡ queue_token_bytes
        → All (λ b. b < 256) bytes
        → lookup (cookie_name event_id) again.cookies ≡ some (token_for first event_id bytes)
        → Api.join F settings event_id R delivered again others
            (Api.join F settings event_id R delivered first bytes db).1
          ≡ (
            some (
                join_sent F settings event_id
                  (token_for first event_id bytes)
                  (record (outcome_of R event_id db (token_for first event_id bytes) q) {
                    joined = false;
                  })),
            (Api.join F settings event_id R delivered first bytes db).1,
          )
    unfolding joined
    rejoined first again bytes others post post' valid size range cookie =
        let t = token_for first event_id bytes in
        let d = (Repository.join R delivered event_id t db).1 in
        let out = join_returns R event_id db t q h live in
        let same =
          token_for_cookie again event_id t others cookie
            (token_for_valid first event_id bytes size range) in
        let live' : IsLive (view d) (record { event_id = event_id }) = rw (out.2) live in
        rw (join_through first bytes db post valid, join_through again others d post' valid, same)
          (ap₂ (λ r x. (joined F settings event_id t r, x))
              (resumed R event_id db t q h live d out.1 live' out.2)
              (unchanged R event_id db t q h live d out.1)
            ∙ ap (λ r. (some r, d)) (join_sent_lem F settings event_id t _))

    answered :
        (first : Request) (bytes : List ℕ)
        → text_eq first.method (codes "POST") ≡ true
        → is_valid_event_id event_id ≡ true
        → (Api.join F settings event_id R delivered first bytes db).0
          ≡ some (
              join_sent F settings event_id
                (token_for first event_id bytes)
                (outcome_of R event_id db (token_for first event_id bytes) q))
    unfolding joined
    answered first bytes post valid =
        let t = token_for first event_id bytes in
        rw (join_through first bytes db post valid, (join_returns R event_id db t q h live).0)
          (ap some (join_sent_lem F settings event_id t _))

    -- Let a client POST a join to a configured event with an accepted id, in step with `q`, and
    -- POST again with the cookie that the first response set, both delivered. The first response is
    -- 200 with the token's place and a cookie with the token, the second is 200 with the same token,
    -- the same sequence, the same state and the same cookie, but not `joined`, each field of the two
    -- written out in Sent; and the second changes nothing.
    pub join_refresh :
        (first again : Request) (bytes others : List ℕ)
        → text_eq first.method (codes "POST") ≡ true
        → text_eq again.method (codes "POST") ≡ true
        → is_valid_event_id event_id ≡ true
        → length bytes ≡ queue_token_bytes
        → All (λ b. b < 256) bytes
        → ((Api.join F settings event_id R delivered first bytes db).0
            ≡ some (
                join_sent F settings event_id
                  (token_for first event_id bytes)
                  (outcome_of R event_id db (token_for first event_id bytes) q)))
          × (Api.join F settings event_id R delivered
                (after (Api.join F settings event_id R delivered first bytes db).0 again)
                others
                (Api.join F settings event_id R delivered first bytes db).1
              ≡ (
                some (
                    join_sent F settings event_id
                      (token_for first event_id bytes)
                      (record (outcome_of R event_id db (token_for first event_id bytes) q) {
                        joined = false;
                      })),
                (Api.join F settings event_id R delivered first bytes db).1,
              ))
    join_refresh first again bytes others post post' valid size range =
        let t = token_for first event_id bytes in
        let sent = answered first bytes post valid in
        (
          sent,
          ap
                (λ out.
                  Api.join F settings event_id R delivered (after out again) others
                    (Api.join F settings event_id R delivered first bytes db).1)
                sent
              ∙ rejoined first
                  (record again { cookies = insert (codes "qf_" ++ event_id) t again.cookies })
                  bytes others post post' valid size range (returned event_id t again.cookies),
        )
