-- ===== src/Api/Asking.antt =====
-- A waiter who asks for its position with its cookie.
use queue_fair.Prelude.{Text, codes, true, none, some, [], ◌∷◌, ◌++◌, ◌≡◌, refl, lookup, text_eq}
use queue_fair.Redis.{Redis}
use queue_fair.Result.{ok}
use queue_fair.Validation.{is_valid_event_id, is_valid_queue_token}
use queue_fair.State.{AdmittedOutcome, Float, state_from_admission, as_dict}
use queue_fair.State
use queue_fair.Repository
use queue_fair.Repository.{delivered, admitted}
use queue_fair.Repository.Codec.{JsonCodec}
use queue_fair.Api
use queue_fair.Api.{Request, Response, Settings, cookie_name, queue_token_from, asked, placed}
use queue_fair.Api.Refresh.{accepted_valid}

-- The response that carries a pass.
abbrev pub admitted_response : AdmittedOutcome → Response
admitted_response o = record {
  status = 200;
  body = as_dict (state_from_admission o) ++ (codes "admission", State.admission o.admission) ∷ [];
  cookie = none;
}

module _ (F : Float) (settings : Settings) (event_id : Text) (R : Redis) (J : JsonCodec) where
  open R use {Db}

  token_from_cookie :
      (r : Request) (t : Text)
      → lookup (cookie_name event_id) r.cookies ≡ some t
      → is_valid_queue_token t ≡ true
      → queue_token_from r event_id ≡ some t
  unfolding queue_token_from
  token_from_cookie r t here valid = rw (here, accepted_valid t valid) refl

  pub position_admitted :
      (r : Request) (t : Text) (o : AdmittedOutcome) (db : Db)
      → text_eq r.method (codes "GET") ≡ true
      → is_valid_event_id event_id ≡ true
      → lookup (cookie_name event_id) r.cookies ≡ some t
      → is_valid_queue_token t ≡ true
      → (Repository.position R J delivered event_id t db).0 ≡ ok (admitted o)
      → (Api.position F settings event_id R J delivered r db).0 ≡ some (admitted_response o)
  unfolding Api.position asked placed
  position_admitted r t o db get valid here well told =
      rw (get, valid, token_from_cookie r t here well) (rw told refl)
