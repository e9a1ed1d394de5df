-- ===== src/Booking/Endpoint/Issued.antt =====
-- A pass of the issuer, sent to the booking service while it lasts.
use queue_fair.Prelude.{pos, ℕ, ◌+◌, ◌≤◌, ◌<◌, Text, false, ◌≡◌, refl, ap, ◌∙◌, is_empty, lt→ltb}
use queue_fair.Tokens.{Jwt}
use queue_fair.Tokens.Issuer.{Hs256PassIssuer, issue}
use queue_fair.Tokens.Verify
use queue_fair.Tokens.Verify.{AdmissionClaims, verify_admission_token}
use queue_fair.Tokens.Agree.{verify-issue}
use queue_fair.Booking.Endpoint
use queue_fair.Booking.Endpoint.{authenticate, as_failure}
use queue_fair.Booking.Endpoint.Bearer.{header_of, authenticate-header_of}

module _ (W : Jwt) (self : Hs256PassIssuer) (event_id t jti : Text) (issued : ℕ) where
  -- What such a pass claims.
  abbrev pub claims_issued : AdmissionClaims
  claims_issued = record {
    user_id = t;
    event_id = event_id;
    jti = jti;
    issued_at = pos issued;
    expires_at = pos (issued + self.ttl_seconds);
  }

  verifies :
      (now : ℕ)
      → is_empty event_id ≡ false
      → is_empty t ≡ false
      → is_empty jti ≡ false
      → issued ≤ now
      → now < issued + self.ttl_seconds
      → verify_admission_token W (issue W self event_id t issued jti).jwt self.secret now
        ≡ Verify.ok claims_issued
  verifies now he ht hj from until =
      verify-issue W self event_id t jti issued he ht hj now from
      ∙ (rw (lt→ltb now (issued + self.ttl_seconds) until) refl)

  pub authenticate-issue :
      (now : ℕ)
      → is_empty event_id ≡ false
      → is_empty t ≡ false
      → is_empty jti ≡ false
      → issued ≤ now
      → now < issued + self.ttl_seconds
      → authenticate W self.secret now (header_of (issue W self event_id t issued jti).jwt)
        ≡ Endpoint.ok claims_issued
  unfolding as_failure
  authenticate-issue now he ht hj from until =
      authenticate-header_of W self event_id t jti self.secret issued now
      ∙ ap as_failure (verifies now he ht hj from until)
