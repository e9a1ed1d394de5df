-- ===== src/System/Sales/Alone.antt =====
-- A sale beside others, and the same sale alone.
use queue_fair.Prelude.{
  ℕ, Text, List, [], ◌∷◌, ◌≡◌, sym, text_eq, text_eq_iff, Bool-cases, inl, inr,
}
use mathlib.Core.Path.{subst}
use queue_fair.Redis.{Redis, All}
use queue_fair.Keys.{EventKeys}
use queue_fair.Keys.Distinct.{Kind, key_of}
use queue_fair.Ports.{PassIssuer}
use queue_fair.State.{Float}
use queue_fair.Queue.Apart.{Same, Same-refl, Same-trans, Holds-Same}
use queue_fair.Queue.Alike.{Both}
use queue_fair.Queue.Alike.Steps.{IsLive-Alike}
use queue_fair.Repository.{Network}
use queue_fair.Repository.Codec.{JsonCodec}
use queue_fair.Api
use queue_fair.Api.{Request, Settings, queue_token_from, token_for, asked, taken}
use queue_fair.System.{Action, run, perform}
use queue_fair.System.Sales.{run_all, own, Selling, Alike-perform, Selling-perform, Alike-other}
use queue_fair.System.Sales.Answers.{position_answer, join_answer}

module _ (F : Float) (settings : Settings) (R : Redis) (J : JsonCodec) (issuer : PassIssuer)
    (ttl : ℕ) where
  open R use {Db, view}

  abbrev Sold : Db → Text → Type 0
  Sold = Selling R

  -- Every sale stays in step, whichever acts.
  Selling-after :
      (e : Text) (x : Action) (db : Db)
      → Sold db e
      → (other : Text) → Sold db other
      → Sold (perform F settings R J issuer ttl e x db) other
  Selling-after e x db s other o = elim (Bool-cases (text_eq e other)) [
    | inl same ↦
        subst (Sold (perform F settings R J issuer ttl e x db)) ((text_eq_iff e other).0 same)
          (Selling-perform F settings R J issuer ttl e x db s)
    | inr differs ↦
        let alike = Alike-other F settings R J issuer ttl other e x db s o.valid differs in
        record {
          valid = o.valid;
          line = o.line;
          in_step = Holds-Same (record { event_id = other }) (view db) _ o.line alike o.in_step;
          live = IsLive-Alike (record { event_id = other }) (view db) _ alike o.live;
        }
  ]

  Selling-all :
      (e : Text) (x : Action) (db : Db)
      → Sold db e
      → (more : List (Text × Action)) → All (λ (a : Text × Action). Sold db a.0) more
      → All (λ (a : Text × Action). Sold (perform F settings R J issuer ttl e x db) a.0) more
  Selling-all e x db s [] all = tt
  Selling-all e x db s ((e', y) ∷ more) all =
      (Selling-after e x db s e' all.0, Selling-all e x db s more all.1)

  module _ (event_id : Text) where
    abbrev keys : EventKeys
    keys = record { event_id = event_id }

    alone :
        (actions : List (Text × Action)) (mine shared : Db)
        → Sold mine event_id
        → All (λ (a : Text × Action). Sold shared a.0) actions
        → Both R keys mine shared
        → Both R keys
            (run F settings R J issuer ttl event_id (own event_id actions) mine)
            (run_all F settings R J issuer ttl actions shared)
    unfolding run run_all own
    alone [] mine shared s all alike = alike
    alone ((e, x) ∷ more) mine shared s all alike = elim (Bool-cases (text_eq e event_id)) [
      | inl same ↦ rw same (
          alone more (perform F settings R J issuer ttl event_id x mine)
            (perform F settings R J issuer ttl e x shared)
            (Selling-perform F settings R J issuer ttl event_id x mine s)
            (Selling-all e x shared all.0 more all.1)
            (subst
              (λ d.
                Both R keys (perform F settings R J issuer ttl event_id x mine)
                  (perform F settings R J issuer ttl d x shared))
              (sym ((text_eq_iff e event_id).0 same))
              (Alike-perform F settings R J issuer ttl event_id x mine shared s.line s.in_step
                s.live alike)))
      | inr differs ↦ rw differs (
          alone more mine (perform F settings R J issuer ttl e x shared) s
            (Selling-all e x shared all.0 more all.1)
            (λ k.
              Same-trans (key_of k keys) (view mine) (view shared) _ (alike k) (
                Alike-other F settings R J issuer ttl event_id e x shared all.0 s.valid differs k)))
    ]

    Selling-run :
        (actions : List Action) (db : Db)
        → Sold db event_id
        → Sold (run F settings R J issuer ttl event_id actions db) event_id
    unfolding run
    Selling-run [] db s = s
    Selling-run (x ∷ more) db s =
        Selling-run more _ (Selling-perform F settings R J issuer ttl event_id x db s)

  -- Let any number of sales share one Redis, each configured and in step with some queue, the ids of
  -- their events being accepted, and let their requests, ticks, commands and expiries come in any order,
  -- on any networks. Every key of one such sale then holds the value that it would hold if only the
  -- actions of that sale had been carried out; and a request to it then, whether for the position or to
  -- join, is answered as it would be in that case, on any network.
  pub sale_alone :
      (actions : List (Text × Action)) (db : Db)
      → All (λ (a : Text × Action). Selling R db a.0) actions
      → (event_id : Text) → Selling R db event_id
      → (k : Kind) (net : Network) (get post : Request) (bytes : List ℕ)
      → Same
          (key_of k (record { event_id = event_id }))
          (view (run F settings R J issuer ttl event_id (own event_id actions) db))
          (view (run_all F settings R J issuer ttl actions db))
        × ((Api.position F settings event_id R J net get
              (run_all F settings R J issuer ttl actions db)).0
            ≡ (Api.position F settings event_id R J net get
                (run F settings R J issuer ttl event_id (own event_id actions) db)).0)
        × ((Api.join F settings event_id R net post bytes
              (run_all F settings R J issuer ttl actions db)).0
            ≡ (Api.join F settings event_id R net post bytes
                (run F settings R J issuer ttl event_id (own event_id actions) db)).0)
  sale_alone actions db all event_id s k net get post bytes =
      let mine = own event_id actions in
      let alike = alone event_id actions db db s all (λ j. Same-refl _ (view db)) in
      let sold = Selling-run event_id mine db s in
      (
        alike k,
        position_answer F settings R J event_id _ _ sold alike net get,
        join_answer F settings R J event_id _ _ sold alike net post bytes,
      )
