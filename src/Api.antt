-- ===== src/Api.antt =====
-- api/views.py: the endpoints of the queue service. A request is its method, its cookies and its
-- query; what the random source drew and the outcome of the round trip are arguments.
pub mod Refresh
pub mod Asking
pub mod Ghost
pub mod Sent
pub mod Urls
use queue_fair.Prelude.{
  or_else, ℕ, Text, codes, Bool, true, false, ◌&&◌, not, Option, none, some, List, [], ◌∷◌, ◌++◌,
  is_empty, lookup, text_eq, if◌then◌else◌,
}
use queue_fair.Redis.{Redis}
use queue_fair.Result.{Error, Result, ok, raise, redis_error, unknown_event, unknown_token}
use queue_fair.Validation.{is_valid_event_id, is_valid_queue_token, new_queue_token}
use queue_fair.State.{
  JoinOutcome, AdmittedOutcome, Float, Json, text, number, boolean, admission, state_from,
  state_from_position, state_from_admission, as_dict,
}
use queue_fair.Repository
use queue_fair.Repository.{Network, Standing, waiting, admitted}
use queue_fair.Repository.Codec.{JsonCodec}

-- The cookies are a dictionary: a name stands once. The query has its parameters in the order of the
-- URL, and a name may stand there again.
pub record Request : Type 0 where
  pub method : Text
  pub cookies : List (Text × Text)
  pub query : List (Text × Text)

pub record Cookie : Type 0 where
  pub name : Text
  pub value : Text
  pub max_age : ℕ
  pub httponly : Bool
  pub samesite : Text
  pub secure : Bool
  pub path : Text

pub record Response : Type 0 where
  pub status : ℕ
  pub body : List (Text × Json)
  pub cookie : Option Cookie

-- QUEUE_COOKIE_MAX_AGE_SECONDS and QUEUE_COOKIE_SECURE
pub record Settings : Type 0 where
  pub max_age : ℕ
  pub secure : Bool

-- A response with a detail only.
abbrev pub refusal : ℕ → Text → Response
refusal status reason = record {
  status = status;
  body = (codes "detail", text reason) ∷ [];
  cookie = none;
}

unfoldable pub healthz : Bool → Response
healthz true = record {
  status = 200;
  body = (codes "status", text (codes "ok")) ∷ (codes "redis", text (codes "ok")) ∷ [];
  cookie = none;
}
healthz false = record {
  status = 503;
  body =
      (codes "status", text (codes "degraded")) ∷ (codes "redis", text (codes "unavailable")) ∷ [];
  cookie = none;
}

-- f"qf_{event_id}"
abbrev pub cookie_name : Text → Text
cookie_name event_id = codes "qf_" ++ event_id

-- A candidate that is present, not empty and well-formed.
unfoldable pub accepted : Option Text → Option Text
accepted none = none
accepted (some candidate) =
    if not (is_empty candidate) && is_valid_queue_token candidate then some candidate else none

-- `request.GET.get(name)`: the last value of the parameter.
unfoldable pub last_value : Text → List (Text × Text) → Option Text
last_value name [] = none
last_value name ((k, v) ∷ rest) =
    or_else (last_value name rest) (if text_eq k name then some v else none)

unfoldable pub queue_token_from : Request → Text → Option Text
unfolding accepted last_value
queue_token_from request event_id =
    or_else (accepted (lookup (cookie_name event_id) request.cookies))
      (accepted (last_value (codes "t") request.query))

abbrev pub queue_token_cookie : Settings → Text → Text → Cookie
queue_token_cookie settings event_id queue_token = record {
  name = cookie_name event_id;
  value = queue_token;
  max_age = settings.max_age;
  httponly = true;
  samesite = codes "Lax";
  secure = settings.secure;
  path = codes "/";
}

-- `_queue_token_from(...) or new_queue_token()`
abbrev pub or_minted : Option Text → List ℕ → Text
or_minted none bytes = new_queue_token bytes
or_minted (some t) bytes = t

unfoldable pub token_for : Request → Text → List ℕ → Text
token_for request event_id bytes = or_minted (queue_token_from request event_id) bytes

module _ (F : Float) (settings : Settings) (event_id : Text) where
  abbrev pub join_response : Text → JoinOutcome → Response
  join_response queue_token outcome = record {
    status = 200;
    body =
        (codes "queue_token", text queue_token)
        ∷ (codes "sequence", number outcome.sequence)
        ∷ (as_dict (state_from F outcome) ++ (codes "joined", boolean outcome.joined) ∷ []);
    cookie = some (queue_token_cookie settings event_id queue_token);
  }

  -- `none` is an exception that the view does not catch.
  unfoldable pub joined : Text → Result (Option JoinOutcome) → Option Response
  joined queue_token (raise redis_error) = some (refusal 503 (codes "redis_unavailable"))
  joined queue_token (raise _) = none
  joined queue_token (ok none) = some (refusal 404 (codes "unknown_event"))
  joined queue_token (ok (some outcome)) = some (join_response queue_token outcome)

  unfoldable pub placed : Result Standing → Option Response
  placed (raise unknown_event) = some (refusal 404 (codes "unknown_event"))
  placed (raise unknown_token) = some (refusal 404 (codes "unknown_token"))
  placed (raise redis_error) = some (refusal 503 (codes "redis_unavailable"))
  placed (raise _) = none
  placed (ok (admitted outcome)) = some (record {
    status = 200;
    body =
        as_dict (state_from_admission outcome)
        ++ (codes "admission", admission outcome.admission) ∷ [];
    cookie = none;
  })
  placed (ok (waiting outcome)) =
      some (record { status = 200; body = as_dict (state_from_position F outcome); cookie = none })

  module _ (R : Redis) where
    open R use {Db}

    -- The round trip of a join that is let through.
    unfoldable pub taken : Network → Text → Db → Option Response × Db
    unfolding joined
    taken net queue_token db =
        let (outcome, db') = Repository.join R net event_id queue_token db in
        (joined queue_token outcome, db')

    -- POST /api/queue/{event_id}/join
    unfoldable pub join : Network → Request → List ℕ → Db → Option Response × Db
    unfolding taken token_for
    join net request bytes db =
        if not (text_eq request.method (codes "POST"))
        then (some (refusal 405 (codes "method_not_allowed")), db)
        else if not (is_valid_event_id event_id)
        then (some (refusal 404 (codes "unknown_event")), db)
        else taken net (token_for request event_id bytes) db

    unfoldable pub asked : JsonCodec → Network → Option Text → Db → Option Response × Db
    unfolding placed
    asked J net none db = (some (refusal 404 (codes "unknown_token")), db)
    asked J net (some queue_token) db =
        let (outcome, db') = Repository.position R J net event_id queue_token db in
        (placed outcome, db')

    -- GET /api/queue/{event_id}/position
    unfoldable pub position : JsonCodec → Network → Request → Db → Option Response × Db
    unfolding asked queue_token_from
    position J net request db =
        if not (text_eq request.method (codes "GET"))
        then (some (refusal 405 (codes "method_not_allowed")), db)
        else if not (is_valid_event_id event_id)
        then (some (refusal 404 (codes "unknown_event")), db)
        else asked J net (queue_token_from request event_id) db
