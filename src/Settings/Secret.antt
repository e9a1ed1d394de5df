-- ===== src/Settings/Secret.antt =====
-- The secret that the two services share.
use queue_fair.Prelude.{
  pos, Bool, true, List, ℕ, ◌+◌, ◌≤◌, Text, codes, false, Option, none, some, [], ◌∷◌, ◌≡◌, refl,
  sym, ◌∙◌, arith, is_empty, ltb, lookup, ℤ, pos, if◌then◌else◌,
}
use queue_fair.Result
use queue_fair.Result.{value_error}
use queue_fair.Settings.{Environ, Loaded, ok, raise, ◌>>=◌, get, required, load_dotenv}
use queue_fair.Settings.Dotenv.{effective, lookup-load_dotenv}
use queue_fair.Settings.Numbers.{int}
use queue_fair.Validation.{is_valid_event_id}
use queue_fair.Admission.{Tick}
use queue_fair.Commands.RunAdmitter.{
  build_admission_controller, handle, raised, run_admitter_no_secret,
}
use queue_fair.Settings.Queue
use queue_fair.Settings.Queue.{loaded}
use queue_fair.Settings.Booking
use queue_fair.Tokens.{Jwt}
use queue_fair.Tokens.Issuer
use queue_fair.Tokens.Issuer.{Hs256PassIssuer, issue}
use queue_fair.Tokens.Verify
use queue_fair.Tokens.Verify.{Verified, verify_admission_token, expired_admission_token}
use queue_fair.Tokens.Agree.{verify-issue}

abbrev pub secret_name : Text
secret_name = codes "ADMISSION_TOKEN_SECRET"

-- What a chain that succeeds went through.
bind_ok {ℓ} :
    {A : Type ℓ} {B : Type ℓ} (first : Loaded A) (f : A → Loaded B) (b : B)
    → (first >>= f) ≡ ok b
    → (a : A) × (first ≡ ok a) × (f a ≡ ok b)
bind_ok (ok a) f b h = (a, refl, h)
bind_ok (raise e) f b h = absurd (cc)

required_ok : (o : Option Text) (t : Text) → required o ≡ ok t → o ≡ some t
unfolding required
required_ok none t h = absurd (cc)
required_ok (some u) t h = ground arith

booking_secret :
    (e : Environ) (b : Booking.Settings)
    → Booking.settings e ≡ ok b
    → lookup secret_name e ≡ some b.admission_token_secret
unfolding Booking.settings
booking_secret e b h =
    let (secret, found, rest) = bind_ok (required (lookup secret_name e)) _ b h in
    required_ok (lookup secret_name e) b.admission_token_secret (ground (arith, found, rest))

queue_loaded :
    {N : Type 0} (e : Environ) (socket connect : Option N) (max_age : Option ℤ)
    (secret : Option Text) (ttl : Option ℤ) (tick : Option N) (s : Queue.Settings N)
    → loaded e socket connect max_age secret ttl tick ≡ ok s
    → (secret ≡ some s.admission_token_secret) × (ttl ≡ some s.admission_pass_ttl_seconds)
unfolding loaded
queue_loaded e none connect max_age secret ttl tick s h = absurd (cc)
queue_loaded e (some a) none max_age secret ttl tick s h = absurd (cc)
queue_loaded e (some a) (some b) none secret ttl tick s h = absurd (cc)
queue_loaded e (some a) (some b) (some c) none ttl tick s h = absurd (cc)
queue_loaded e (some a) (some b) (some c) (some d) none tick s h = absurd (cc)
queue_loaded e (some a) (some b) (some c) (some d) (some f) none s h = absurd (cc)
queue_loaded e (some a) (some b) (some c) (some d) (some f) (some g) s h =
    (ground arith, ground arith)

built_with :
    (secret : Text) (ttl : ℕ) (self : Hs256PassIssuer)
    → build_admission_controller (record { secret = secret; pass_ttl_seconds = ttl })
      ≡ Result.ok self
    → (self.secret ≡ secret) × (self.ttl_seconds ≡ ttl)
unfolding build_admission_controller Issuer.init
built_with [] ttl self h = absurd (cc)
built_with (c ∷ t) ttl self h = (ground arith, ground arith)

module _ {N : Type 0} (float : Text → Option N) where
  pub queue_secret :
      (e : Environ) (s : Queue.Settings N)
      → Queue.settings float e ≡ ok s
      → lookup secret_name e ≡ some s.admission_token_secret
  unfolding Queue.settings
  queue_secret e s h =
      (queue_loaded e (float (get (codes "REDIS_SOCKET_TIMEOUT_SECONDS") (codes "2.0") e))
        (float (get (codes "REDIS_CONNECT_TIMEOUT_SECONDS") (codes "2.0") e))
        (int (get (codes "QUEUE_COOKIE_MAX_AGE_SECONDS") (codes "21600") e)) (lookup secret_name e)
        (int (get (codes "ADMISSION_PASS_TTL_SECONDS") (codes "60") e))
        (float (get (codes "ADMISSION_TICK_SECONDS") (codes "1.0") e)) s h).0

  same_secret : (a b : Text) → some a ≡ some b → a ≡ b
  same_secret a b h = ground arith

  -- The secrets that the two services end up with.
  queue_imported :
      (file : Option Text) (e : Environ) (s : Queue.Settings N)
      → Queue.imported float file e ≡ ok s
      → effective file e secret_name ≡ some s.admission_token_secret
  unfolding Queue.imported
  queue_imported file e s h =
      let (after, loads, rest) = bind_ok (load_dotenv file e) _ s h in
      sym (lookup-load_dotenv file e after loads secret_name) ∙ queue_secret after s rest

  booking_imported :
      (file : Option Text) (d : Environ) (b : Booking.Settings)
      → Booking.imported file d ≡ ok b
      → effective file d secret_name ≡ some b.admission_token_secret
  unfolding Booking.imported Booking.load_dotenv
  booking_imported file d b h =
      let (after, loads, rest) = bind_ok (load_dotenv file d) _ b h in
      sym (lookup-load_dotenv file d after loads secret_name) ∙ booking_secret after b rest

  -- Let the settings of the queue service load with one environment and .env file, and those of the
  -- booking service with another, such that both give ADMISSION_TOKEN_SECRET the same value: that of
  -- the environment or, without one, that of the first assignment in the file. Then a pass that the
  -- queue service issues, for an event, a token and a jti that are not empty, is accepted by the
  -- booking service, with these claims, exactly while its time to live lasts, from the issue on, and
  -- refused as expired afterwards.
  pub booted_trust :
      (J : Jwt) (file file' : Option Text) (e d : Environ) (s : Queue.Settings N)
      (b : Booking.Settings) (ttl : ℕ) (self : Hs256PassIssuer) (event_id queue_token jti : Text)
      (issued now : ℕ)
      → Queue.imported float file e ≡ ok s
      → Booking.imported file' d ≡ ok b
      → effective file e secret_name ≡ effective file' d secret_name
      → s.admission_pass_ttl_seconds ≡ pos ttl
      → build_admission_controller
          (record { secret = s.admission_token_secret; pass_ttl_seconds = ttl })
        ≡ Result.ok self
      → is_empty event_id ≡ false
      → is_empty queue_token ≡ false
      → is_empty jti ≡ false
      → issued ≤ now
      → verify_admission_token J
          (issue J self event_id queue_token issued jti).jwt
          b.admission_token_secret
          now
        ≡ (if ltb now (issued + ttl)
            then Verify.ok (record {
              user_id = queue_token;
              event_id = event_id;
              jti = jti;
              issued_at = pos issued;
              expires_at = pos (issued + ttl);
            })
            else Verify.raise expired_admission_token)
  booted_trust J file file' e d s b ttl self event_id queue_token jti issued now hs hb same seconds
        built he ht hj from =
      let shared : s.admission_token_secret ≡ b.admission_token_secret =
        same_secret s.admission_token_secret b.admission_token_secret
          (sym (queue_imported file e s hs) ∙ same ∙ booking_imported file' d b hb) in
      let (own, life) = built_with s.admission_token_secret ttl self built in
      rw (sym (own ∙ shared), sym life)
        (verify-issue J self event_id queue_token jti issued he ht hj now from)

-- With an empty ADMISSION_TOKEN_SECRET, which is not a missing one, the booking service boots and
-- verifies with the empty secret; while for the queue service, if the rest of its settings loads, an
-- admitter of an accepted event, with --once or not, ends with a ValueError before it changes anything.
pub empty_secret :
    {N S : Type 0} (float : Text → Option N) (J : Jwt) (e : Environ) (s : Queue.Settings N)
    (ttl : ℕ) (event_id : Text) (once : Bool) (first : Tick S) (rest : List (Tick S)) (state : S)
    → lookup secret_name e ≡ some []
    → Queue.settings float e ≡ ok s
    → is_valid_event_id event_id ≡ true
    → ((b : Booking.Settings) × (Booking.settings e ≡ ok b) × (b.admission_token_secret ≡ []))
      × (handle J
            (record { secret = s.admission_token_secret; pass_ttl_seconds = ttl })
            event_id
            once
            first
            rest
            state
          ≡ (raised value_error, state))
unfolding Booking.settings Booking.settings_with
empty_secret float J e s ttl event_id once first rest state empty h valid =
    let own : s.admission_token_secret ≡ [] =
      same_secret float s.admission_token_secret [] (sym (queue_secret float e s h) ∙ empty) in
    (
      (Booking.settings_with e [], rw empty refl, refl),
      run_admitter_no_secret J
          (record { secret = s.admission_token_secret; pass_ttl_seconds = ttl }) event_id once first
          rest state valid (rw own refl),
    )
