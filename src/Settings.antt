-- ===== src/Settings.antt =====
-- The settings of both services: queue_service/queue_service/settings.py and
-- booking_service/booking_service/settings.py. The environment is an association list; the contents
-- of the .env file are an argument. Constants that only Django reads are left out.
pub mod Strings
pub mod Numbers
pub mod Dotenv
pub mod Queue
pub mod Booking
pub mod Secret
use queue_fair.Prelude.{
  ℕ, Text, codes, Bool, true, false, ◌&&◌, not, Option, none, some, List, [], ◌∷◌, ◌==◌, is_empty,
  is_some, lookup, insert, if◌then◌else◌,
}
use queue_fair.Settings.Strings.{strip, split_lines, starts_with, has, before, after}

abbrev pub Environ : Type 0
Environ = List (Text × Text)

-- KeyError of os.environ[...], ValueError of int and float, OSError or ValueError of setting a
-- variable.
pub data SettingsError : Type 0 where
  key_error value_error environ_error : SettingsError

pub data Loaded {ℓ} (A : Type ℓ) : Type ℓ where
  ok : A → Loaded A
  raise : SettingsError → Loaded A

infixl 5 ◌>>=◌
abbrev pub ◌>>=◌ {ℓ κ} : {A : Type ℓ} {B : Type κ} → Loaded A → (A → Loaded B) → Loaded B
ok a >>= f = f a
raise e >>= f = raise e

-- A variable can have no empty name, and neither part holds a null character.
abbrev pub settable : Text → Text → Bool
settable key value = not (is_empty key) && (not (has 0 key) && not (has 0 value))

-- os.environ.setdefault
unfoldable pub setdefault : Text → Text → Environ → Loaded Environ
setdefault key value environ =
    if is_some (lookup key environ)
    then ok environ
    else if settable key value
    then ok (insert key value environ)
    else raise environ_error

-- What a line assigns, if anything.
unfoldable pub assignment : Text → Option (Text × Text)
assignment raw_line =
    let line = strip raw_line in
    if is_empty line
    then none
    else if starts_with b'#' line
    then none
    else if not (has b'=' line)
    then none
    else some (strip (before b'=' line), strip (after b'=' line))

unfoldable pub load_line : Option (Text × Text) → Environ → Loaded Environ
unfolding setdefault
load_line none environ = ok environ
load_line (some (key, value)) environ = setdefault key value environ

unfoldable pub load_lines : List Text → Environ → Loaded Environ
unfolding load_line assignment
load_lines [] environ = ok environ
load_lines (raw_line ∷ rest) environ = do
  environ' ← load_line (assignment raw_line) environ
  load_lines rest environ'

-- _load_dotenv of a file that may not exist
unfoldable pub load_dotenv : Option Text → Environ → Loaded Environ
unfolding load_lines
load_dotenv none environ = ok environ
load_dotenv (some contents) environ = load_lines (split_lines contents) environ

-- os.environ.get(key, default)
abbrev pub get : Text → Text → Environ → Text
get key default_value environ = elim (lookup key environ) [ none ↦ default_value | some v ↦ v ]

-- os.environ[key]
unfoldable pub required : Option Text → Loaded Text
required none = raise key_error
required (some v) = ok v
