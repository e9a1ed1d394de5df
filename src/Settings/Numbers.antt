-- ===== src/Settings/Numbers.antt =====
-- int(...) of a text: white space around, a sign, and digits with single underscores between. Decimal
-- digits outside ASCII are not modelled.
use queue_fair.Prelude.{
  ℕ, zero, suc, ◌+◌, ◌-◌, ◌*◌, Text, codes, Bool, false, ◌&&◌, ◌||◌, Option, none, some, [], ◌∷◌,
  ◌==◌, leb, ◌≡◌, refl, if◌then◌else◌, ℤ, pos, negsuc,
}
use queue_fair.Settings.Strings.{strip}

abbrev pub is_digit : ℕ → Bool
is_digit c = leb b'0' c && leb c b'9'

-- The rest of a number, where a digit stands before (`true`) or must come.
unfoldable pub digits : ℕ → Bool → Text → Option ℕ
digits n met [] = if met then some n else none
digits n met (c ∷ t) =
    let rest = digits (if is_digit c then 10 * n + (c - b'0') else n) (is_digit c) t in
    if is_digit c || (c == b'_' && met) then rest else none

abbrev pub negated : Option ℕ → Option ℤ
negated none = none
negated (some zero) = some (pos zero)
negated (some (suc n)) = some (negsuc n)

abbrev pub positive : Option ℕ → Option ℤ
positive none = none
positive (some n) = some (pos n)

unfoldable pub signed : Text → Option ℤ
unfolding digits
signed [] = none
signed (c ∷ t) =
    if c == b'-'
    then negated (digits 0 false t)
    else if c == b'+'
    then positive (digits 0 false t)
    else positive (digits 0 false (c ∷ t))

unfoldable pub int : Text → Option ℤ
unfolding strip signed
int t = signed (strip t)

int_sixty : int (codes " 6_0\n") ≡ some (pos 60)
unfolding int
int_sixty = refl
