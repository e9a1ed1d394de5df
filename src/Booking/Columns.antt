-- ===== src/Booking/Columns.antt =====
-- The lengths of the text columns of bookings/models.py, which bookings/migrations/0001_initial.py
-- repeats, against what a pass of the queue service can carry.
use queue_fair.Prelude.{
  ℕ, ◌+◌, ◌≤◌, Text, Bool, if◌then◌else◌, true, false, [], ◌∷◌, ◌≡◌, refl, ap, sym, ◌∙◌, arith,
  length, length-append, is_empty, ltb, inl, inr,
}
use mathlib.Core.Path.{subst}
use queue_fair.Validation.{is_valid_event_id, is_valid_queue_token}
use queue_fair.Validation.EventId.{is_valid_event_id_iff, newline, valid_event_nonempty}
use queue_fair.Validation.QueueToken.{is_valid_queue_token_iff, IsHex, valid_not_empty}
use queue_fair.Tokens.{Jwt}
use queue_fair.Tokens.Issuer.{Hs256PassIssuer, issue}
use queue_fair.Tokens.Verify.{
  AdmissionClaims, AdmissionTokenError, expired_admission_token, ok, raise, verify_admission_token,
}
use queue_fair.Tokens.Agree.{verify-issue}

-- max_length of Event.event_id, Booking.user_id and Booking.token_jti
abbrev pub event_id_column : ℕ
event_id_column = 64

abbrev pub user_id_column : ℕ
user_id_column = 64

abbrev pub token_jti_column : ℕ
token_jti_column = 64

-- A row with these claims can be stored without an overlong text.
pub record Fits (claims : AdmissionClaims) : Type 0 where
  pub event_id : length claims.event_id ≤ event_id_column
  pub user_id : length claims.user_id ≤ user_id_column
  pub token_jti : length claims.jti ≤ token_jti_column

token_length : (t : Text) → is_valid_queue_token t ≡ true → length t ≤ 33
token_length t valid =
    let (u, hex, shape) = (is_valid_queue_token_iff t).0 valid in
    elim shape [
      | inl e ↦ omega (arith, ap (length {A = ℕ}) e, hex.size)
      | inr e ↦ omega (arith, ap (length {A = ℕ}) e, hex.size, length-append u newline)
    ]

hex_nonempty : (t : Text) → IsHex 32 t → is_empty t ≡ false
hex_nonempty [] h = absurd (omega (arith, h.size))
hex_nonempty (c ∷ t) h = refl

chosen :
    (b : Bool) (a c : AdmissionClaims) (e : AdmissionTokenError)
    → (if b then ok a else raise e) ≡ ok c
    → a ≡ c
chosen true a c e h = ground arith
chosen false a c e h = absurd (cc)

-- When the booking service accepts a pass that the queue service issued, for an accepted event id, an
-- accepted queue token and a jti of 32 hexadecimal characters, with the secret of the issuer and not
-- before the issue, the claims fit the columns of the booking.
pub issued-Fits :
    (J : Jwt) (self : Hs256PassIssuer) (event_id t jti : Text) (issued now : ℕ)
    (claims : AdmissionClaims)
    → is_valid_event_id event_id ≡ true
    → is_valid_queue_token t ≡ true
    → IsHex 32 jti
    → issued ≤ now
    → verify_admission_token J (issue J self event_id t issued jti).jwt self.secret now ≡ ok claims
    → Fits claims
issued-Fits J self event_id t jti issued now claims he ht hj from accepted =
    let result =
      verify-issue J self event_id t jti issued (valid_event_nonempty event_id he)
        (valid_not_empty t ht) (hex_nonempty jti hj) now from in
    let same =
      chosen (ltb now (issued + self.ttl_seconds)) _ claims expired_admission_token
        (sym result ∙ accepted) in
    subst Fits same (record {
      event_id = ((is_valid_event_id_iff event_id).0 he).0;
      user_id = omega (arith, token_length t ht);
      token_jti = omega (arith, hj.size);
    })
