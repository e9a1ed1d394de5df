-- ===== src/Settings/Booking.antt =====
-- booking_service/booking_service/settings.py: what it takes from the environment.
use queue_fair.Prelude.{Option, Text, codes, lookup}
use queue_fair.Settings.{Environ, Loaded, ok, ◌>>=◌, get, required, load_dotenv as load_shared}

pub record Database : Type 0 where
  pub name : Text
  pub user : Text
  pub password : Text
  pub host : Text
  pub port : Text

pub record Settings : Type 0 where
  pub secret_key : Text
  pub database : Database
  pub admission_token_secret : Text

unfoldable pub database_of : Environ → Database
database_of environ = record {
  name = get (codes "DB_NAME") (codes "queuefair") environ;
  user = get (codes "DB_USER") (codes "queuefair") environ;
  password = get (codes "DB_PASSWORD") (codes "") environ;
  host = get (codes "DB_HOST") (codes "127.0.0.1") environ;
  port = get (codes "DB_PORT") (codes "5433") environ;
}

-- The settings, with the secret that was found.
unfoldable pub settings_with : Environ → Text → Settings
unfolding database_of
settings_with environ secret = record {
  secret_key =
      get (codes "DJANGO_SECRET_KEY")
        (codes "django-insecure-ju=9+ua^ks1l(ep79&+i%-kye5vfc$sg1ntszcn2ni%h2i7v_i") environ;
  database = database_of environ;
  admission_token_secret = secret;
}

-- Below the loading of .env.
unfoldable pub settings : Environ → Loaded Settings
unfolding settings_with required
settings environ = do
  secret ← required (lookup (codes "ADMISSION_TOKEN_SECRET") environ)
  ok (settings_with environ secret)

-- The same code as that of the queue service.
unfoldable pub load_dotenv : Option Text → Environ → Loaded Environ
unfolding load_shared
load_dotenv = load_shared

-- The import of the module, with the contents of .env if there is one.
unfoldable pub imported : Option Text → Environ → Loaded Settings
unfolding settings load_dotenv
imported file environ = do environ' ← load_dotenv file environ; settings environ'
