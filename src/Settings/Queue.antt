-- ===== src/Settings/Queue.antt =====
-- queue_service/queue_service/settings.py: what the service reads of it. `float` is a parameter.
use queue_fair.Prelude.{
  Text, codes, Bool, Option, none, some, List, [], ◌∷◌, map, is_empty, text_eq, lookup, ℤ,
  if◌then◌else◌,
}
use queue_fair.Settings.{Environ, Loaded, ok, raise, ◌>>=◌, value_error, get, required, load_dotenv}
use queue_fair.Settings.Strings.{strip, split}
use queue_fair.Settings.Numbers.{int}

pub record Settings {ℓ} (N : Type ℓ) : Type ℓ where
  pub secret_key : Text
  pub debug : Bool
  pub allowed_hosts : List Text
  pub redis_url : Text
  pub redis_socket_timeout_seconds : N
  pub redis_connect_timeout_seconds : N
  pub queue_cookie_max_age_seconds : ℤ
  pub queue_cookie_secure : Bool
  pub admission_token_secret : Text
  pub admission_pass_ttl_seconds : ℤ
  pub admission_tick_seconds : N

abbrev pub not_empty : List Text → List Text
not_empty [] = []
not_empty (t ∷ ts) = let rest = not_empty ts in if is_empty t then rest else t ∷ rest

unfoldable pub allowed_hosts_of : Environ → List Text
allowed_hosts_of environ = not_empty (
    map strip (
      split b','
        (get (codes "DJANGO_ALLOWED_HOSTS") (codes "localhost,127.0.0.1,testserver") environ)))

unfoldable pub secret_key_of : Environ → Text
secret_key_of environ =
    get (codes "DJANGO_SECRET_KEY") (codes "dev-only-insecure-queue-service-key") environ

unfoldable pub debug_of : Environ → Bool
debug_of environ = text_eq (get (codes "DJANGO_DEBUG") (codes "0") environ) (codes "1")

-- A ValueError of int or float.
unfoldable pub parsed {ℓ} : {A : Type ℓ} → Option A → Loaded A
parsed none = raise value_error
parsed (some a) = ok a

-- The settings, from the values that are parsed or required, in the order in which they are read.
unfoldable pub loaded {ℓ} :
    {N : Type ℓ}
    → Environ
    → (socket connect : Option N) → (max_age : Option ℤ) → (secret : Option Text) → (ttl : Option ℤ)
    → (tick : Option N) → Loaded (Settings N)
unfolding secret_key_of debug_of allowed_hosts_of parsed required
loaded environ socket connect max_age secret ttl tick = do
  redis_socket_timeout_seconds ← parsed socket
  redis_connect_timeout_seconds ← parsed connect
  queue_cookie_max_age_seconds ← parsed max_age
  admission_token_secret ← required secret
  admission_pass_ttl_seconds ← parsed ttl
  admission_tick_seconds ← parsed tick
  ok (record {
    secret_key = secret_key_of environ;
    debug = debug_of environ;
    allowed_hosts = allowed_hosts_of environ;
    redis_url = get (codes "REDIS_URL") (codes "redis://127.0.0.1:6379/0") environ;
    redis_socket_timeout_seconds = redis_socket_timeout_seconds;
    redis_connect_timeout_seconds = redis_connect_timeout_seconds;
    queue_cookie_max_age_seconds = queue_cookie_max_age_seconds;
    queue_cookie_secure =
        text_eq (get (codes "QUEUE_COOKIE_SECURE") (codes "0") environ) (codes "1");
    admission_token_secret = admission_token_secret;
    admission_pass_ttl_seconds = admission_pass_ttl_seconds;
    admission_tick_seconds = admission_tick_seconds;
  })

-- Below the loading of .env.
unfoldable pub settings {ℓ} : {N : Type ℓ} → (Text → Option N) → Environ → Loaded (Settings N)
unfolding loaded int
settings float environ =
    loaded environ (float (get (codes "REDIS_SOCKET_TIMEOUT_SECONDS") (codes "2.0") environ))
      (float (get (codes "REDIS_CONNECT_TIMEOUT_SECONDS") (codes "2.0") environ))
      (int (get (codes "QUEUE_COOKIE_MAX_AGE_SECONDS") (codes "21600") environ))
      (lookup (codes "ADMISSION_TOKEN_SECRET") environ)
      (int (get (codes "ADMISSION_PASS_TTL_SECONDS") (codes "60") environ))
      (float (get (codes "ADMISSION_TICK_SECONDS") (codes "1.0") environ))

-- The import of the module, with the contents of .env if there is one.
unfoldable pub imported {ℓ} :
    {N : Type ℓ} → (Text → Option N) → Option Text → Environ → Loaded (Settings N)
unfolding settings load_dotenv
imported float file environ = do environ' ← load_dotenv file environ; settings float environ'
