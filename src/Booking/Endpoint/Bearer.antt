-- ===== src/Booking/Endpoint/Bearer.antt =====
-- A token in the Authorization header.
use queue_fair.Prelude.{ℕ, Text, codes, true, false, [], ◌∷◌, ◌++◌, ◌≡◌, refl, arith, is_empty}
use queue_fair.Redis.{All}
use queue_fair.Tokens.{is_token_char, Jwt}
use queue_fair.Tokens.Issuer.{Hs256PassIssuer, issue}
use queue_fair.Tokens.Verify.{verify_admission_token}
use queue_fair.Booking.Endpoint.{
  ok, is_space, parts, is_ascii, token_of, bearer_token, as_failure, verified, authenticate,
}

token_no_space : (c : ℕ) → is_token_char c ≡ true → is_space c ≡ false
token_no_space c h = ground arith

token_is_ascii : (t : Text) → All (λ c. is_token_char c ≡ true) t → is_ascii t ≡ true
token_is_ascii [] h = refl
token_is_ascii (c ∷ t) h =
    let rest = token_is_ascii t h.1 in let here = h.0 in ground (arith, rest, here)

parts-token : (t : Text) → All (λ c. is_token_char c ≡ true) t → parts t ≡ (t, [])
parts-token [] h = refl
parts-token (c ∷ t) h = rw (parts-token t h.1, token_no_space c h.0) refl

-- The header that a client sends with a token.
abbrev pub header_of : Text → Text
header_of token = codes "Bearer " ++ token

pub bearer_token-header_of :
    (t : Text)
    → is_empty t ≡ false
    → All (λ c. is_token_char c ≡ true) t
    → bearer_token (header_of t) ≡ ok t
unfolding bearer_token token_of
bearer_token-header_of [] e h = absurd (cc)
bearer_token-header_of (c ∷ t) e h = rw (parts-token (c ∷ t) h) (rw (token_is_ascii (c ∷ t) h) refl)

pub authenticate-header_of :
    (J : Jwt) (self : Hs256PassIssuer) (event_id t jti secret : Text) (issued now : ℕ)
    → authenticate J secret now (header_of (issue J self event_id t issued jti).jwt)
      ≡ as_failure (verify_admission_token J (issue J self event_id t issued jti).jwt secret now)
unfolding authenticate verified issue
authenticate-header_of J self event_id t jti secret issued now =
    rw (bearer_token-header_of _ (J.encode-nonempty _ _) (J.encode-chars _ _)) refl
