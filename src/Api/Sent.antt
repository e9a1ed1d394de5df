-- ===== src/Api/Sent.antt =====
-- What a client is sent for a join, field by field, and a client that sends the cookie back.
use Prim.Native.Nat.{max}
use queue_fair.Prelude.{
  ℕ, zero, suc, ◌-◌, Text, codes, true, false, Option, none, some, [], ◌∷◌, ◌++◌, ◌≡◌, refl, arith,
  insert, leb,
}
use queue_fair.State.{
  JoinOutcome, Float, Json, null, number, text, boolean, optional, eta_seconds_for, position_from,
  state_from, as_dict,
}
use queue_fair.Api.{Request, Cookie, Response, Settings, join_response}

-- The client sends the cookie of the response in place of the one that it had.
abbrev with_cookie : Option Cookie → Request → Request
with_cookie none request = request
with_cookie (some c) request = record request { cookies = insert c.name c.value request.cookies }

abbrev pub after : Option Response → Request → Request
after none request = request
after (some response) request = with_cookie response.cookie request

-- 503, with no cookie
abbrev pub unavailable_sent : Response
unavailable_sent = record {
  status = 503;
  body = (codes "detail", text (codes "redis_unavailable")) ∷ [];
  cookie = none;
}

module _ (F : Float) (settings : Settings) (event_id : Text) where
  open F use {divide, times, ceil}

  -- The wait in seconds, which is not told at rate 0.
  abbrev eta_sent : ℕ → ℕ → Json
  eta_sent place zero = null
  eta_sent place (suc rate) = number (ceil (times (divide place (suc rate)) 60))

  abbrev place_sent : JoinOutcome → ℕ
  place_sent o = max 1 (o.sequence - o.admitted_total)

  -- 200 for the token `t`, with its cookie
  abbrev pub join_sent : Text → JoinOutcome → Response
  join_sent t o = record {
    status = 200;
    body =
        (codes "queue_token", text t)
        ∷ (codes "sequence", number o.sequence)
        ∷ (codes "position", number (place_sent o))
        ∷ (codes "total_waiting", number o.total_waiting)
        ∷ (codes "admitted_total", number o.admitted_total)
        ∷ (codes "eta_seconds", eta_sent (place_sent o) o.rate_per_min)
        ∷ (codes "state", text (codes "waiting"))
        ∷ (codes "joined", boolean o.joined)
        ∷ [];
    cookie = some (record {
      name = codes "qf_" ++ event_id;
      value = t;
      max_age = settings.max_age;
      httponly = true;
      samesite = codes "Lax";
      secure = settings.secure;
      path = codes "/";
    });
  }

  eta_sent_lem : (place rate : ℕ) → optional (eta_seconds_for F place rate) ≡ eta_sent place rate
  unfolding eta_seconds_for
  eta_sent_lem place zero = refl
  eta_sent_lem place (suc rate) =
      let running : leb (suc rate) 0 ≡ false = ground arith in rw running refl

  pub join_sent_lem :
      (t : Text) (o : JoinOutcome) → join_response F settings event_id t o ≡ join_sent t o
  unfolding state_from as_dict position_from
  join_sent_lem t o = rw (← eta_sent_lem (place_sent o) o.rate_per_min) refl
