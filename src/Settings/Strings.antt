-- ===== src/Settings/Strings.antt =====
-- The methods of `str` that the settings call, over code points.
use queue_fair.Prelude.{
  ℕ, Text, Bool, false, ◌&&◌, ◌||◌, List, [], ◌∷◌, ◌==◌, leb, is_empty, if◌then◌else◌,
}

-- str.isspace of one character
abbrev pub is_white : ℕ → Bool
is_white c =
    (leb 9 c && leb c 13)
    || (leb 28 c && leb c 32)
    || c == 133
    || c == 160
    || c == 5760
    || (leb 8192 c && leb c 8202)
    || c == 8232
    || c == 8233
    || c == 8239
    || c == 8287
    || c == 12288

-- The line boundaries of str.splitlines
abbrev pub is_break : ℕ → Bool
is_break c = (leb 10 c && leb c 13) || (leb 28 c && leb c 30) || c == 133 || c == 8232 || c == 8233

unfoldable pub left_strip : Text → Text
left_strip [] = []
left_strip (c ∷ t) = let rest = left_strip t in if is_white c then rest else c ∷ t

unfoldable pub right_strip : Text → Text
right_strip [] = []
right_strip (c ∷ t) =
    let rest = right_strip t in if is_empty rest && is_white c then [] else c ∷ rest

-- str.strip()
unfoldable pub strip : Text → Text
unfolding left_strip right_strip
strip t = right_strip (left_strip t)

-- A character more in the first line.
abbrev pub prepend : ℕ → List Text → List Text
prepend c [] = (c ∷ []) ∷ []
prepend c (l ∷ ls) = (c ∷ l) ∷ ls

-- str.splitlines() of what follows a carriage return (`true`) or not
unfoldable pub lines_from : Bool → Text → List Text
lines_from cr [] = []
lines_from cr (c ∷ t) =
    let rest = lines_from (c == 13) t in
    if cr && c == 10 then rest else if is_break c then [] ∷ rest else prepend c rest

unfoldable pub split_lines : Text → List Text
unfolding lines_from
split_lines t = lines_from false t

abbrev pub starts_with : ℕ → Text → Bool
starts_with c [] = false
starts_with c (d ∷ t) = d == c

-- c in text
abbrev pub has : ℕ → Text → Bool
has c [] = false
has c (d ∷ t) = d == c || has c t

-- str.partition: the texts before and after the first separator
abbrev pub before : ℕ → Text → Text
before c [] = []
before c (d ∷ t) = let rest = before c t in if d == c then [] else d ∷ rest

abbrev pub after : ℕ → Text → Text
after c [] = []
after c (d ∷ t) = let rest = after c t in if d == c then t else rest

-- str.split(c)
abbrev pub split : ℕ → Text → List Text
split c [] = [] ∷ []
split c (d ∷ t) = let rest = split c t in if d == c then [] ∷ rest else prepend d rest
