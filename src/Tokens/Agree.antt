-- ===== src/Tokens/Agree.antt =====
-- Issuer and verifier together.
use queue_fair.Prelude.{
  ℤ, pos, ℕ, ◌+◌, ◌≤◌, Text, codes, false, Option, none, some, ◌≡◌, refl, arith, Bool-cases, ltb,
  ltb→lt, if◌then◌else◌, inl, inr, is_empty, lookup,
}
use queue_fair.Tokens.{
  Value, Payload, Jwt, str, int, boolean, other, Decoded, valid, expired, invalid,
}
use queue_fair.Tokens.Issuer.{Hs256PassIssuer, issue, claims_of}
use queue_fair.Tokens.Verify.{
  AdmissionClaims, ok, raise, expired_admission_token, verify_admission_token, str_of, int_of,
  build, claims_from, checked,
}

not_before : (a b : ℕ) → ltb a b ≡ false → b ≤ a
not_before a b h = ground arith

-- What a claims payload of the issuer is read as.
claims_read :
    (event_id queue_token jti : Text) (now exp : ℕ)
    → is_empty event_id ≡ false
    → is_empty queue_token ≡ false
    → is_empty jti ≡ false
    → claims_from (claims_of event_id queue_token now jti exp)
      ≡ ok (record {
        user_id = queue_token;
        event_id = event_id;
        jti = jti;
        issued_at = pos now;
        expires_at = pos exp;
      })
unfolding claims_from
claims_read event_id queue_token jti now exp e t j = rw (e, t, j) refl

module _ (J : Jwt) (self : Hs256PassIssuer) (event_id queue_token jti : Text) (issued : ℕ) where
  abbrev claims : Payload
  claims = claims_of event_id queue_token issued jti (issued + self.ttl_seconds)

  -- A pass with a token, an event and a jti that are not empty, verified with the issuer's secret at a
  -- time not before it was issued: it is accepted exactly while its time to live lasts, with the
  -- token, the event, the jti and the two times of the pass as the claims, and afterwards it is
  -- refused as expired.
  pub verify-issue :
      is_empty event_id ≡ false
      → is_empty queue_token ≡ false
      → is_empty jti ≡ false
      → (now : ℕ) → issued ≤ now
      → verify_admission_token J (issue J self event_id queue_token issued jti).jwt self.secret now
        ≡ (if ltb now (issued + self.ttl_seconds)
            then ok (record {
              user_id = queue_token;
              event_id = event_id;
              jti = jti;
              issued_at = pos issued;
              expires_at = pos (issued + self.ttl_seconds);
            })
            else raise expired_admission_token)
  unfolding verify_admission_token issue
  verify-issue e t j now from = elim (Bool-cases (ltb now (issued + self.ttl_seconds))) [
    | inl before ↦
        rw
          (
            before,
            J.decode-encode claims self.secret queue_token issued (issued + self.ttl_seconds) now
                refl refl refl from (ltb→lt now (issued + self.ttl_seconds) before),
          )
          (claims_read event_id queue_token jti issued (issued + self.ttl_seconds) e t j)
    | inr after ↦
        rw
          (
            after,
            J.decode-encode_expired claims self.secret queue_token issued
                (issued + self.ttl_seconds) now refl refl refl from
                (not_before now (issued + self.ttl_seconds) after),
          )
          refl
  ]

-- A claim that was read stood in the payload, with its type and not empty.
str_read :
    (o : Option Value) (t : Text) → str_of o ≡ some t → (o ≡ some (str t)) × (is_empty t ≡ false)
unfolding str_of
str_read none t h = absurd (cc)
str_read (some (str u)) t h = ground arith
str_read (some (int n)) t h = absurd (cc)
str_read (some (boolean b)) t h = absurd (cc)
str_read (some other) t h = absurd (cc)

int_read : (o : Option Value) (n : ℤ) → int_of o ≡ some n → o ≡ some (int n)
unfolding int_of
int_read none n h = absurd (cc)
int_read (some (int m)) n h = ground arith
int_read (some (str t)) n h = absurd (cc)
int_read (some (boolean b)) n h = absurd (cc)
int_read (some other) n h = absurd (cc)

-- What the claims say of the payload.
pub record Stands (p : Payload) (c : AdmissionClaims) : Type 0 where
  pub sub : (lookup (codes "sub") p ≡ some (str c.user_id)) × (is_empty c.user_id ≡ false)
  pub event : (lookup (codes "event_id") p ≡ some (str c.event_id)) × (is_empty c.event_id ≡ false)
  pub jti : (lookup (codes "jti") p ≡ some (str c.jti)) × (is_empty c.jti ≡ false)
  pub iat : lookup (codes "iat") p ≡ some (int c.issued_at)
  pub exp : lookup (codes "exp") p ≡ some (int c.expires_at)

build_ok :
    (sub event jti : Option Text) (iat exp : Option ℤ) (c : AdmissionClaims)
    → build sub event jti iat exp ≡ ok c
    → (sub ≡ some c.user_id)
      × (event ≡ some c.event_id)
      × (jti ≡ some c.jti)
      × (iat ≡ some c.issued_at)
      × (exp ≡ some c.expires_at)
unfolding build
build_ok sub event jti iat exp c h = ground arith

claims_from-Stands : (p : Payload) (c : AdmissionClaims) → claims_from p ≡ ok c → Stands p c
unfolding claims_from
claims_from-Stands p c h =
    let (u, e, j, i, x) =
      build_ok (str_of (lookup (codes "sub") p)) (str_of (lookup (codes "event_id") p))
        (str_of (lookup (codes "jti") p)) (int_of (lookup (codes "iat") p))
        (int_of (lookup (codes "exp") p)) c h in
    record {
      sub = str_read (lookup (codes "sub") p) c.user_id u;
      event = str_read (lookup (codes "event_id") p) c.event_id e;
      jti = str_read (lookup (codes "jti") p) c.jti j;
      iat = int_read (lookup (codes "iat") p) c.issued_at i;
      exp = int_read (lookup (codes "exp") p) c.expires_at x;
    }

-- Claims are returned only for a token that PyJWT accepts, and then each claim stands in its payload
-- with its type, the three texts not empty.
pub verified-Stands :
    (J : Jwt) (token secret : Text) (now : ℕ) (c : AdmissionClaims)
    → verify_admission_token J token secret now ≡ ok c
    → (p : Payload) × (J.decode token secret now ≡ valid p) × Stands p c
unfolding verify_admission_token
verified-Stands J token secret now c h = go (J.decode token secret now) refl h
  where
    go :
        (d : Decoded)
        → J.decode token secret now ≡ d
        → checked d ≡ ok c
        → (p : Payload) × (J.decode token secret now ≡ valid p) × Stands p c
    go (valid p) e k = (p, e, claims_from-Stands p c k)
    go expired e k = absurd (cc)
    go invalid e k = absurd (cc)
