-- ===== src/Tokens/Verify.antt =====
-- bookings/tokens.py.
use queue_fair.Prelude.{ℤ, ℕ, Text, codes, Option, none, some, is_empty, lookup, if◌then◌else◌}
use queue_fair.Tokens.{Value, str, int, Payload, Decoded, valid, expired, invalid, Jwt}

pub record AdmissionClaims : Type 0 where
  pub user_id : Text
  pub event_id : Text
  pub jti : Text
  pub issued_at : ℤ
  pub expires_at : ℤ

pub data AdmissionTokenError : Type 0 where
  invalid_admission_token expired_admission_token : AdmissionTokenError

pub data Verified {ℓ} (A : Type ℓ) : Type ℓ where
  ok : A → Verified A
  raise : AdmissionTokenError → Verified A

infixl 5 ◌>>=◌
abbrev pub ◌>>=◌ {ℓ κ} : {A : Type ℓ} {B : Type κ} → Verified A → (A → Verified B) → Verified B
ok a >>= f = f a
raise e >>= f = raise e

-- KeyError and TypeError of the two helpers; the caller turns both into InvalidAdmissionToken.
unfoldable pub str_of : Option Value → Option Text
str_of (some (str t)) = if is_empty t then none else some t
str_of _ = none

unfoldable pub require_str : Payload → Text → Option Text
unfolding str_of
require_str payload key = str_of (lookup key payload)

unfoldable pub int_of : Option Value → Option ℤ
int_of (some (int n)) = some n
int_of _ = none

unfoldable pub require_int : Payload → Text → Option ℤ
unfolding int_of
require_int payload key = int_of (lookup key payload)

-- A claim that is missing or of the wrong type.
unfoldable pub required {ℓ} : {A : Type ℓ} → Option A → Verified A
required none = raise invalid_admission_token
required (some a) = ok a

-- The five claims, the first that is missing or of the wrong type raising.
unfoldable pub build : (sub event jti : Option Text) (iat exp : Option ℤ) → Verified AdmissionClaims
unfolding required
build sub event jti_claim iat exp = do
  user_id ← required sub
  event_id ← required event
  jti ← required jti_claim
  issued_at ← required iat
  expires_at ← required exp
  ok (record {
    user_id = user_id;
    event_id = event_id;
    jti = jti;
    issued_at = issued_at;
    expires_at = expires_at;
  })

unfoldable pub claims_from : Payload → Verified AdmissionClaims
unfolding build require_str require_int
claims_from payload =
    build (require_str payload (codes "sub")) (require_str payload (codes "event_id"))
      (require_str payload (codes "jti")) (require_int payload (codes "iat"))
      (require_int payload (codes "exp"))

unfoldable pub checked : Decoded → Verified AdmissionClaims
unfolding claims_from
checked (valid payload) = claims_from payload
checked expired = raise expired_admission_token
checked invalid = raise invalid_admission_token

-- `now` is the clock that PyJWT reads.
unfoldable pub verify_admission_token : Jwt → Text → Text → ℕ → Verified AdmissionClaims
unfolding checked
verify_admission_token J token secret now = checked (J.decode token secret now)
