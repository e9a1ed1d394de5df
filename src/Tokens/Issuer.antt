-- ===== src/Tokens/Issuer.antt =====
-- adapters/pass_issuer.py.
use queue_fair.Prelude.{pos, ℕ, ◌+◌, Text, codes, [], ◌∷◌, is_empty, if◌then◌else◌}
use queue_fair.Result.{Result, ok, raise, value_error}
use queue_fair.Ports.{IssuedPass, PassIssuer}
use queue_fair.Tokens.{str, int, Payload, Jwt}

pub record Hs256PassIssuer : Type 0 where
  pub secret : Text
  pub ttl_seconds : ℕ

unfoldable pub init : Text → ℕ → Result Hs256PassIssuer
init secret ttl_seconds =
    if is_empty secret
    then raise value_error
    else ok (record { secret = secret; ttl_seconds = ttl_seconds })

abbrev pub claims_of : Text → Text → ℕ → Text → ℕ → Payload
claims_of event_id queue_token now_seconds jti expires_at =
    (codes "sub", str queue_token)
    ∷ (codes "event_id", str event_id)
    ∷ (codes "jti", str jti)
    ∷ (codes "iat", int (pos now_seconds))
    ∷ (codes "exp", int (pos expires_at))
    ∷ []

module _ (J : Jwt) (self : Hs256PassIssuer) where
  -- `jti` is the hexadecimal text of the random uuid drawn.
  unfoldable pub issue : Text → Text → ℕ → Text → IssuedPass
  issue event_id queue_token now_seconds jti =
      let expires_at = now_seconds + self.ttl_seconds in
      record {
        queue_token = queue_token;
        jwt = J.encode (claims_of event_id queue_token now_seconds jti expires_at) self.secret;
        jti = jti;
        expires_at = expires_at;
      }

  abbrev pub issuer : PassIssuer
  issuer = record { issue = issue }
