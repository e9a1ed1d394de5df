-- ===== src/Tokens.antt =====
-- The trust boundary: adapters/pass_issuer.py signs passes, bookings/tokens.py verifies them. PyJWT
-- is a parameter.
pub mod Issuer
pub mod Verify
pub mod Agree
use queue_fair.Prelude.{
  ℤ, pos, ℕ, ◌≤◌, ◌<◌, Text, codes, Bool, true, false, ◌&&◌, ◌||◌, Option, none, some, List, ◌∷◌,
  ◌≡◌, lookup, leb, ◌==◌, is_empty,
}
use queue_fair.Redis.{All}

-- A value of a decoded payload.
pub data Value : Type 0 where
  str : Text → Value
  int : ℤ → Value
  boolean : Bool → Value
  other : Value

abbrev pub Payload : Type 0
Payload = List (Text × Value)

-- What `jwt.decode` does: it returns the payload, or raises ExpiredSignatureError or another
-- InvalidTokenError.
pub data Decoded : Type 0 where
  valid : Payload → Decoded
  expired invalid : Decoded

-- The alphabet of base64url, and the dot between the parts of a token.
abbrev pub is_token_char : ℕ → Bool
is_token_char c =
    (leb b'A' c && leb c b'Z')
    || (leb b'a' c && leb c b'z')
    || (leb b'0' c && leb c b'9')
    || c == b'-'
    || c == b'_'
    || c == b'.'

-- PyJWT with HS256: `encode claims secret`, and `decode token secret now` with the algorithm pinned
-- and `exp`, `iat` and `sub` required, at the time `now`.
pub record Jwt : Type 0 where
  pub encode : Payload → Text → Text
  pub decode : Text → Text → ℕ → Decoded
  -- a token is not empty, and written in that alphabet
  pub encode-nonempty : (claims : Payload) (secret : Text) → is_empty (encode claims secret) ≡ false
  pub encode-chars :
      (claims : Payload) (secret : Text) → All (λ c. is_token_char c ≡ true) (encode claims secret)
  -- a token that was signed with the same secret, not before its `iat` and before its `exp`
  pub decode-encode :
      (claims : Payload) (secret sub : Text) (iat exp now : ℕ)
      → lookup (codes "sub") claims ≡ some (str sub)
      → lookup (codes "iat") claims ≡ some (int (pos iat))
      → lookup (codes "exp") claims ≡ some (int (pos exp))
      → iat ≤ now
      → now < exp
      → decode (encode claims secret) secret now ≡ valid claims
  -- and from its `exp` on
  pub decode-encode_expired :
      (claims : Payload) (secret sub : Text) (iat exp now : ℕ)
      → lookup (codes "sub") claims ≡ some (str sub)
      → lookup (codes "iat") claims ≡ some (int (pos iat))
      → lookup (codes "exp") claims ≡ some (int (pos exp))
      → iat ≤ now
      → exp ≤ now
      → decode (encode claims secret) secret now ≡ expired
