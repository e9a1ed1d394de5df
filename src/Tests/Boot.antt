-- ===== src/Tests/Boot.antt =====
-- The settings of both services in a concrete environment.
use queue_fair.Prelude.{
  pos, true, ℕ, Text, codes, false, Option, none, some, [], ◌∷◌, ◌≡◌, refl, arith, lookup, or_else,
  pos,
}
use queue_fair.Result.{value_error}
use queue_fair.Settings.{
  Environ, ok, required, load_dotenv, load_lines, load_line, setdefault, assignment,
}
use queue_fair.Settings.Strings.{strip, split_lines, left_strip, right_strip, lines_from}
use queue_fair.Settings.Numbers.{int, signed, digits}
use queue_fair.Settings.Dotenv.{lookup-load_dotenv, assigned, lines_of}
use queue_fair.Settings.Queue
use queue_fair.Settings.Queue.{loaded, parsed, allowed_hosts_of, secret_key_of, debug_of}
use queue_fair.Settings.Booking
use queue_fair.Settings.Secret.{booted_trust, empty_secret, secret_name}
use queue_fair.Redis.{View}
use queue_fair.Redis.Memory.{memory}
use queue_fair.Repository.{repository, delivered}
use queue_fair.Validation.{is_valid_event_id}
use queue_fair.Admission.{Tick}
use queue_fair.Commands.RunAdmitter
use queue_fair.Commands.RunAdmitter.{raised, build_admission_controller}
use queue_fair.Tokens.Issuer
use queue_fair.Tokens.Issuer.{issue}
use queue_fair.Tokens.Verify
use queue_fair.Tokens.Verify.{verify_admission_token}
use queue_fair.Tests.Data.{keys, ada, three_waiting}
use queue_fair.Tests.Codecs.{codec, signer}
use queue_fair.Tests.Passes.{signing}

-- Any text is a number of seconds.
abbrev float : Text → Option ℕ
float t = some 2

abbrev contents : Text
contents =
    codes
      "# shared\r\n ADMISSION_TOKEN_SECRET = s3cret \nADMISSION_TOKEN_SECRET=other\nDB_NAME=a=b\n"

abbrev before : Environ
before = (codes "DB_NAME", codes "given") ∷ []

abbrev environ : Environ
environ = (codes "DB_NAME", codes "given") ∷ (secret_name, codes "s3cret") ∷ []

loads : load_dotenv (some contents) before ≡ ok environ
unfolding load_dotenv load_lines load_line setdefault assignment strip split_lines left_strip
    right_strip lines_from
loads = refl

lookup-load_dotenv_example :
    lookup secret_name environ
    ≡ or_else (lookup secret_name before) (lookup secret_name (assigned (lines_of (some contents))))
lookup-load_dotenv_example = lookup-load_dotenv (some contents) before environ loads secret_name

abbrev queue_settings : Queue.Settings ℕ
queue_settings = record {
  secret_key = codes "dev-only-insecure-queue-service-key";
  debug = false;
  allowed_hosts = codes "localhost" ∷ codes "127.0.0.1" ∷ codes "testserver" ∷ [];
  redis_url = codes "redis://127.0.0.1:6379/0";
  redis_socket_timeout_seconds = 2;
  redis_connect_timeout_seconds = 2;
  queue_cookie_max_age_seconds = pos 21600;
  queue_cookie_secure = false;
  admission_token_secret = codes "s3cret";
  admission_pass_ttl_seconds = pos 120;
  admission_tick_seconds = 2;
}

abbrev queue_environ : Environ
queue_environ =
    (codes "ADMISSION_PASS_TTL_SECONDS", codes "120") ∷ (secret_name, codes "s3cret") ∷ []

queue_boots : Queue.imported float none queue_environ ≡ ok queue_settings
unfolding Queue.imported load_dotenv Queue.settings loaded secret_key_of debug_of parsed required
    allowed_hosts_of int signed digits strip left_strip right_strip
queue_boots = refl

abbrev booking_settings : Booking.Settings
booking_settings = record {
  secret_key = codes "django-insecure-ju=9+ua^ks1l(ep79&+i%-kye5vfc$sg1ntszcn2ni%h2i7v_i";
  database = record {
    name = codes "given";
    user = codes "queuefair";
    password = [];
    host = codes "127.0.0.1";
    port = codes "5433";
  };
  admission_token_secret = codes "s3cret";
}

-- With the secret from the file.
booking_boots : Booking.imported (some contents) before ≡ ok booking_settings
unfolding load_dotenv load_lines load_line setdefault assignment strip split_lines left_strip
    right_strip lines_from Booking.imported Booking.load_dotenv Booking.settings
    Booking.settings_with Booking.database_of required
booking_boots = refl

-- A minute after the issue.
booted_trust_example :
    verify_admission_token signer
      (issue signer signing keys.event_id ada 1000 (codes "7")).jwt
      (codes "s3cret")
      1060
    ≡ Verify.ok (record {
      user_id = ada;
      event_id = keys.event_id;
      jti = codes "7";
      issued_at = pos 1000;
      expires_at = pos 1120;
    })
unfolding build_admission_controller Issuer.init assignment strip split_lines left_strip right_strip
    lines_from
booted_trust_example =
    booted_trust float signer none (some contents) queue_environ before queue_settings
      booking_settings 120 signing keys.event_id ada (codes "7") 1000 1060 queue_boots booking_boots
      refl refl refl refl refl refl (omega arith)

abbrev empty_environ : Environ
empty_environ = (secret_name, []) ∷ []

abbrev without_secret : Queue.Settings ℕ
without_secret = record queue_settings {
  admission_token_secret = [];
  admission_pass_ttl_seconds = pos 60;
}

queue_boots_without : Queue.settings float empty_environ ≡ ok without_secret
unfolding Queue.settings loaded secret_key_of debug_of parsed required allowed_hosts_of int signed
    digits strip left_strip right_strip
queue_boots_without = refl

abbrev a_tick : Tick View
a_tick = record {
  repository = repository memory codec delivered delivered 0;
  now_ms = 1000600;
  uuid = λ n. n ∷ [];
}

empty_secret_example :
    ((b : Booking.Settings) × (Booking.settings empty_environ ≡ ok b)
      × (b.admission_token_secret ≡ []))
    × (RunAdmitter.handle signer
          (record { secret = []; pass_ttl_seconds = 60 })
          keys.event_id
          true
          a_tick
          []
          three_waiting
        ≡ (raised value_error, three_waiting))
unfolding is_valid_event_id
empty_secret_example =
    empty_secret float signer empty_environ without_secret 60 keys.event_id true a_tick []
      three_waiting refl queue_boots_without refl
