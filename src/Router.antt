-- ===== src/Router.antt =====
-- Django's URL resolver, as a parameter of queue_service/api/urls.py (Api/Urls) and
-- booking_service/bookings/urls.py (Booking/Urls).
use queue_fair.Prelude.{
  ℕ, Text, Bool, true, ◌&&◌, ◌||◌, Option, none, some, [], ◌∷◌, ◌++◌, ◌≡◌, leb, ◌==◌, is_empty,
  false, if◌then◌else◌,
}
use queue_fair.Redis.{All}

-- ASCII letters, digits, hyphens and underscores
abbrev pub is_slug_letter : ℕ → Bool
is_slug_letter c =
    (leb b'A' c && leb c b'Z')
    || (leb b'a' c && leb c b'z')
    || (leb b'0' c && leb c b'9')
    || c == b'-'
    || c == b'_'

-- What the slug converter matches.
pub record IsSlug (v : Text) : Type 0 where
  pub nonempty : is_empty v ≡ false
  pub letters : All (λ c. is_slug_letter c ≡ true) v

-- path("<prefix><slug:v><suffix>") against a path without its leading slash: the v that it captures.
pub record Router : Type 0 where
  pub slug : (prefix suffix path : Text) → Option Text
  pub slug-match :
      (prefix suffix v : Text) → IsSlug v → slug prefix suffix (prefix ++ (v ++ suffix)) ≡ some v
  pub slug-sound :
      (prefix suffix path v : Text)
      → slug prefix suffix path ≡ some v
      → IsSlug v × (path ≡ prefix ++ (v ++ suffix))

-- The path below the root of the site.
abbrev pub below_root : Text → Option Text
below_root [] = none
below_root (c ∷ t) = if c == b'/' then some t else none
