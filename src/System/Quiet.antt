-- ===== src/System/Quiet.antt =====
-- Requests and the storing of passes neither tick nor configure.
use queue_fair.Prelude.{
  ℕ, Text, codes, Bool, true, false, Option, none, some, List, [], ◌∷◌, map, not, text_eq,
  if◌then◌else◌,
}
use queue_fair.Redis.{Redis, All}
use queue_fair.Result.{Result, ok, raise}
use queue_fair.Ports.{AdmissionBatch, IssuedPass, PassIssuer}
use queue_fair.Validation.{is_valid_event_id}
use queue_fair.State.{Float}
use queue_fair.Queue.Runs.{Event, join, ask}
use queue_fair.Queue.Runs.Rate.Bucket.{IsQuiet}
use queue_fair.Repository.{Network, delivered, refused, lost}
use queue_fair.Repository.Codec.{JsonCodec}
use queue_fair.Admission.Rounds.{Round}
use queue_fair.Api.{Request, Settings, queue_token_from, token_for}
use queue_fair.System.{joins, asks, reaching, park_of, stored_of, parks_of, asked_by, events_of}

abbrev pub AllQuiet : List Event → Type 0
AllQuiet = All IsQuiet

-- Either of two branches.
pub All-branch :
    (P : Event → Type 0) (b : Bool) (xs ys : List Event)
    → All P xs
    → All P ys
    → All P (if b then xs else ys)
All-branch P true xs ys h k = h
All-branch P false xs ys h k = k

pub All-reaching : (P : Event → Type 0) (net : Network) (e : Event) → P e → All P (reaching net e)
All-reaching P delivered e h = (h, tt)
All-reaching P refused e h = tt
All-reaching P lost e h = (h, tt)

module _ (F : Float) (settings : Settings) (R : Redis) (J : JsonCodec) (issuer : PassIssuer)
    (ttl : ℕ) (event_id : Text) where
  open R use {Db}

  AllQuiet-asked_by :
      (net : Network) (o : Option Text)
      → AllQuiet (asked_by F settings R J issuer ttl event_id net o)
  AllQuiet-asked_by net none = tt
  AllQuiet-asked_by net (some t) = All-reaching IsQuiet net (ask t) tt

  pub joins-AllQuiet :
      (net : Network) (request : Request) (bytes : List ℕ) (db : Db)
      → AllQuiet (events_of F settings R J issuer ttl event_id (joins net request bytes) db)
  unfolding events_of
  joins-AllQuiet net request bytes db =
      All-branch IsQuiet (not (text_eq request.method (codes "POST"))) _ _ tt (
        All-branch IsQuiet (not (is_valid_event_id event_id)) _ _ tt
          (All-reaching IsQuiet net (join (token_for request event_id bytes)) tt))

  pub asks-AllQuiet :
      (net : Network) (request : Request) (db : Db)
      → AllQuiet (events_of F settings R J issuer ttl event_id (asks net request) db)
  unfolding events_of
  asks-AllQuiet net request db =
      All-branch IsQuiet (not (text_eq request.method (codes "GET"))) _ _ tt (
        All-branch IsQuiet (not (is_valid_event_id event_id)) _ _ tt
          (AllQuiet-asked_by net (queue_token_from request event_id)))

  parks-AllQuiet :
      (ps : List IssuedPass) → AllQuiet (map (park_of F settings R J issuer ttl event_id) ps)
  parks-AllQuiet [] = tt
  parks-AllQuiet (p ∷ ps) = (tt, parks-AllQuiet ps)

  pub parks_of-AllQuiet :
      (r : Round) (b : Result (Option AdmissionBatch))
      → AllQuiet (parks_of F settings R J issuer ttl event_id r b)
  parks_of-AllQuiet r (raise e) = tt
  parks_of-AllQuiet r (ok none) = tt
  parks_of-AllQuiet r (ok (some batch)) =
      parks-AllQuiet (stored_of F settings R J issuer ttl event_id r batch.admitted_tokens)
