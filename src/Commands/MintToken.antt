-- ===== src/Commands/MintToken.antt =====
-- bookings/management/commands/mint_token.py: the development command that signs any pass. The time
-- to live is a natural number here; `fresh` is the hexadecimal text of the random uuid.
use queue_fair.Prelude.{
  pos, ℕ, ◌+◌, ◌≤◌, Text, codes, false, Option, none, some, [], ◌∷◌, ◌≡◌, refl, is_empty, ltb,
  if◌then◌else◌,
}
use queue_fair.Tokens.{str, int, Payload, Jwt}
use queue_fair.Tokens.Issuer.{issue}
use queue_fair.Tokens.Verify.{ok, raise, expired_admission_token, verify_admission_token}
use queue_fair.Tokens.Agree.{verify-issue}

pub record Options : Type 0 where
  pub event : Text
  pub user : Text
  pub ttl : ℕ
  pub jti : Option Text

-- options["jti"] or uuid.uuid4().hex
unfoldable pub jti_of : Option Text → Text → Text
jti_of none fresh = fresh
jti_of (some jti) fresh = if is_empty jti then fresh else jti

unfoldable pub payload_of : Options → ℕ → Text → Payload
payload_of options now fresh =
    (codes "sub", str options.user)
    ∷ (codes "event_id", str options.event)
    ∷ (codes "jti", str (jti_of options.jti fresh))
    ∷ (codes "iat", int (pos now))
    ∷ (codes "exp", int (pos (now + options.ttl)))
    ∷ []

-- What is printed.
unfoldable pub handle : Jwt → Text → Options → ℕ → Text → Text
unfolding payload_of
handle J secret options now fresh = J.encode (payload_of options now fresh) secret

not_empty_jti :
    (jti : Option Text) (fresh : Text)
    → is_empty fresh ≡ false
    → is_empty (jti_of jti fresh) ≡ false
unfolding jti_of
not_empty_jti none fresh h = h
not_empty_jti (some []) fresh h = h
not_empty_jti (some (c ∷ t)) fresh h = refl

-- A token minted for an event and a user that are not empty is accepted by the booking service with
-- the same secret exactly while its time to live lasts, from the time of minting on, with this event,
-- this user and the jti that was asked for or else drawn; and afterwards it is refused as expired.
mint_token-verify :
    (J : Jwt) (secret : Text) (options : Options) (now : ℕ) (fresh : Text)
    → is_empty options.event ≡ false
    → is_empty options.user ≡ false
    → is_empty fresh ≡ false
    → (later : ℕ) → now ≤ later
    → verify_admission_token J (handle J secret options now fresh) secret later ≡ (
        if ltb later (now + options.ttl)
        then ok (record {
          user_id = options.user;
          event_id = options.event;
          jti = jti_of options.jti fresh;
          issued_at = pos now;
          expires_at = pos (now + options.ttl);
        })
        else raise expired_admission_token)
unfolding handle issue
mint_token-verify J secret options now fresh e u f later from =
    verify-issue J (record { secret = secret; ttl_seconds = options.ttl }) options.event
      options.user (jti_of options.jti fresh) now e u (not_empty_jti options.jti fresh f) later from
