-- ===== src/System/Sales/Answers.antt =====
-- Requests to two servers with the same keys of an event are answered alike.
use queue_fair.Prelude.{
  ℕ, Text, codes, Bool, length, lookup, or_zero, Option, none, some, true, false, List, [], ◌∷◌,
  ◌≡◌, refl, ap, sym, ◌∙◌, not, text_eq, if◌then◌else◌,
}
use queue_fair.Redis.{Redis}
use queue_fair.Keys.{EventKeys}
use queue_fair.Keys.Distinct.{Kind}
use queue_fair.State.{Float}
use queue_fair.Validation.{is_valid_event_id}
use queue_fair.Scripts.{int}
use queue_fair.Queue.{Holds, enter}
use queue_fair.Queue.Join
use queue_fair.Queue.Join.{join-enter, flag}
use queue_fair.Queue.Position.{position-told}
use queue_fair.Queue.Apart.{Holds-Same}
use queue_fair.Queue.Alike.{Both}
use queue_fair.Queue.Alike.Steps.{IsLive-Alike}
use queue_fair.Queue.Runs.{IsLive}
use queue_fair.Queue.Runs.Step.{present_of_live}
use queue_fair.Repository
use queue_fair.Repository.{Network, delivered, refused, lost}
use queue_fair.Repository.Codec.{JsonCodec}
use queue_fair.Api
use queue_fair.Api.{Request, Settings, queue_token_from, token_for, asked, taken}
use queue_fair.System.Sales.{Selling}

-- The answers of two branches on the same test.
answer-branch :
    {X Y : Type 0} (b : Bool) (x y x' y' : X × Y)
    → x.0 ≡ x'.0
    → y.0 ≡ y'.0
    → (if b then x else y).0 ≡ (if b then x' else y').0
answer-branch true x y x' y' h k = h
answer-branch false x y x' y' h k = k

module _ (F : Float) (settings : Settings) (R : Redis) (J : JsonCodec) (event_id : Text) where
  open R use {Db, view}

  abbrev keys : EventKeys
  keys = record { event_id = event_id }

  module _ (a b : Db) (s : Selling R a event_id) (alike : Both R keys a b) where
    h' : Holds (view b) keys s.line
    h' = Holds-Same keys (view a) (view b) s.line alike s.in_step

    live' : IsLive (view b) keys
    live' = IsLive-Alike keys (view a) (view b) alike s.live

    position-Alike :
        (net : Network) (t : Text)
        → (Repository.position R J net event_id t b).0
          ≡ (Repository.position R J net event_id t a).0
    unfolding Repository.position
    position-Alike refused t = refl
    position-Alike lost t = refl
    position-Alike delivered t =
        rw
          (
            position-told R keys b t s.line h' (present_of_live (view b) keys live'),
            position-told R keys a t s.line s.in_step (present_of_live (view a) keys s.live),
            (alike Kind.config).hash,
            (alike (Kind.pass_for t)).string,
          )
          refl

    join_reply : (t : Text) → (Join.join R keys t b).0 ≡ (Join.join R keys t a).0
    join_reply t =
        (join-enter R keys b t s.line h' (present_of_live (view b) keys live')).1
        ∙ ap
            (λ (f : List (Text × ℕ)).
              int 1
              ∷ int (enter t s.line).1
              ∷ int (flag (enter t s.line).2)
              ∷ int (length (enter t s.line).0.waiting)
              ∷ int (enter t s.line).0.admitted
              ∷ int (or_zero (lookup (codes "rate_per_min") f))
              ∷ [])
            ((alike Kind.config).hash)
        ∙ sym ((join-enter R keys a t s.line s.in_step (present_of_live (view a) keys s.live)).1)

    join-Alike :
        (net : Network) (t : Text)
        → (Repository.join R net event_id t b).0 ≡ (Repository.join R net event_id t a).0
    unfolding Repository.join
    join-Alike refused t = refl
    join-Alike lost t = refl
    join-Alike delivered t = ap Repository.decode_join (join_reply t)

    asked-Alike :
        (net : Network) (o : Option Text)
        → (asked F settings event_id R J net o b).0 ≡ (asked F settings event_id R J net o a).0
    unfolding asked
    asked-Alike net none = refl
    asked-Alike net (some t) = ap (Api.placed F settings event_id) (position-Alike net t)

    taken-Alike :
        (net : Network) (t : Text)
        → (taken F settings event_id R net t b).0 ≡ (taken F settings event_id R net t a).0
    unfolding taken
    taken-Alike net t = ap (Api.joined F settings event_id t) (join-Alike net t)

    pub position_answer :
        (net : Network) (request : Request)
        → (Api.position F settings event_id R J net request b).0
          ≡ (Api.position F settings event_id R J net request a).0
    unfolding Api.position
    position_answer net request =
        answer-branch (not (text_eq request.method (codes "GET"))) _ _ _ _ refl (
          answer-branch (not (is_valid_event_id event_id)) _ _ _ _ refl
            (asked-Alike net (queue_token_from request event_id)))

    pub join_answer :
        (net : Network) (request : Request) (bytes : List ℕ)
        → (Api.join F settings event_id R net request bytes b).0
          ≡ (Api.join F settings event_id R net request bytes a).0
    unfolding Api.join
    join_answer net request bytes =
        answer-branch (not (text_eq request.method (codes "POST"))) _ _ _ _ refl (
          answer-branch (not (is_valid_event_id event_id)) _ _ _ _ refl
            (taken-Alike net (token_for request event_id bytes)))
