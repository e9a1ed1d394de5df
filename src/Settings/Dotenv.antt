-- ===== src/Settings/Dotenv.antt =====
-- What a .env file does to the environment.
use queue_fair.Prelude.{
  Text, true, Option, none, some, List, [], ◌∷◌, ◌≡◌, refl, ap, sym, ◌∙◌, arith, is_some, lookup,
  insert, lookup-insert, or_else, text_eq, text_eq_iff, text_eq_refl, Bool-cases, Option-cases, inl,
  inr, if◌then◌else◌,
}
use mathlib.Core.Path.{subst}
use queue_fair.Settings.Strings.{split_lines}
use queue_fair.Settings.{
  Environ, Loaded, ok, raise, ◌>>=◌, setdefault, assignment, load_line, load_lines, load_dotenv,
}

-- The assignments of the lines, in order.
abbrev pub assigned : List Text → Environ
assigned [] = []
assigned (l ∷ ls) =
    let rest = assigned ls in elim (assignment l) [ none ↦ rest | some a ↦ a ∷ rest ]

-- The lines of a file that may not exist.
abbrev pub lines_of : Option Text → List Text
lines_of none = []
lines_of (some contents) = split_lines contents

-- The value of a variable once the file is loaded: its own, or else the first one assigned.
abbrev pub effective : Option Text → Environ → Text → Option Text
effective file e k = or_else (lookup k e) (lookup k (assigned (lines_of file)))

or_else-none : (o : Option Text) → or_else o none ≡ o
or_else-none none = refl
or_else-none (some t) = refl

or_else_assoc : (a b c : Option Text) → or_else (or_else a b) c ≡ or_else a (or_else b c)
or_else_assoc none b c = refl
or_else_assoc (some t) b c = refl

lookup-setdefault :
    (key value k : Text) (e e' : Environ)
    → setdefault key value e ≡ ok e'
    → lookup k e' ≡ or_else (lookup k e) (if text_eq key k then some value else none)
unfolding setdefault
lookup-setdefault key value k e e' h = elim (Option-cases (lookup key e)) [
  | inr (v, here) ↦
      let same : e ≡ e' = ground arith in
      rw (← same) (elim (Bool-cases (text_eq key k)) [
        | inl eq ↦
            let there : lookup k e ≡ some v =
              subst (λ j. lookup j e ≡ some v) ((text_eq_iff key k).0 eq) here in
            rw there refl
        | inr other ↦ rw other (sym (or_else-none (lookup k e)))
      ])
  | inl gone ↦
      let same : insert key value e ≡ e' = ground arith in
      rw (← same, lookup-insert)
        (elim (Bool-cases (text_eq key k)) [
          | inl eq ↦
              let there : lookup k e ≡ none =
                subst (λ j. lookup j e ≡ none) ((text_eq_iff key k).0 eq) gone in
              rw (there, eq) refl
          | inr other ↦ rw other (sym (or_else-none (lookup k e)))
        ])
]

-- The rest of a load, after a line.
load_rest :
    (ls : List Text) (first : Loaded Environ) (e' : Environ)
    → (first >>= load_lines ls) ≡ ok e'
    → (m : Environ) × (first ≡ ok m) × (load_lines ls m ≡ ok e')
load_rest ls (ok m) e' h = (m, refl, h)
load_rest ls (raise x) e' h = absurd (cc)

line_lookup :
    (a : Option (Text × Text)) (k : Text) (rest e m : Environ) (out : Option Text)
    → load_line a e ≡ ok m
    → out ≡ or_else (lookup k m) (lookup k rest)
    → out ≡ or_else (lookup k e) (lookup k (elim a [ none ↦ rest | some b ↦ b ∷ rest ]))
unfolding load_line
line_lookup none k rest e m out h r = let same : e ≡ m = ground arith in rw same r
line_lookup (some (key, value)) k rest e m out h r =
    r
    ∙ ap (λ o. or_else o (lookup k rest)) (lookup-setdefault key value k e m h)
    ∙ or_else_assoc (lookup k e) (if text_eq key k then some value else none) (lookup k rest)
    ∙ ap (or_else (lookup k e))
        (elim (Bool-cases (text_eq key k)) [ inl eq ↦ rw eq refl | inr other ↦ rw other refl ])

lookup-load_lines :
    (ls : List Text) (e e' : Environ) (k : Text)
    → load_lines ls e ≡ ok e'
    → lookup k e' ≡ or_else (lookup k e) (lookup k (assigned ls))
unfolding load_lines
lookup-load_lines [] e e' k h =
    let same : e ≡ e' = ground arith in rw same (sym (or_else-none (lookup k e')))
lookup-load_lines (l ∷ ls) e e' k h =
    let (m, first, rest) = load_rest ls (load_line (assignment l) e) e' h in
    line_lookup (assignment l) k (assigned ls) e m (lookup k e') first
      (lookup-load_lines ls m e' k rest)

-- After a .env file was loaded, each variable has the value that it had before, if it had one, and
-- otherwise the value of its first assignment in the file; a variable that neither has is not set.
pub lookup-load_dotenv :
    (file : Option Text) (e e' : Environ)
    → load_dotenv file e ≡ ok e'
    → (k : Text) → lookup k e' ≡ effective file e k
unfolding load_dotenv
lookup-load_dotenv none e e' h k =
    let same : e ≡ e' = ground arith in rw same (sym (or_else-none (lookup k e')))
lookup-load_dotenv (some contents) e e' h k = lookup-load_lines (split_lines contents) e e' k h

-- Every assigned variable is set.
abbrev Covered : Environ → Environ → Type 0
Covered e [] = Unit
Covered e ((k, v) ∷ rest) = (is_some (lookup k e) ≡ true) × Covered e rest

-- The first assignment and the others.
Covered-load_line :
    (a : Option (Text × Text)) (rest e : Environ)
    → Covered e (elim a [ none ↦ rest | some b ↦ b ∷ rest ])
    → (load_line a e ≡ ok e) × Covered e rest
unfolding load_line setdefault
Covered-load_line none rest e c = (refl, c)
Covered-load_line (some (k, v)) rest e c = (rw (c.0) refl, c.1)

Covered-load_lines :
    (ls : List Text) (e : Environ) → Covered e (assigned ls) → load_lines ls e ≡ ok e
unfolding load_lines
Covered-load_lines [] e c = refl
Covered-load_lines (l ∷ ls) e c =
    let (first, rest) = Covered-load_line (assignment l) (assigned ls) e c in
    rw first (Covered-load_lines ls e rest)

Covered-lookup :
    (rest e : Environ)
    → ((k : Text) → is_some (lookup k rest) ≡ true → is_some (lookup k e) ≡ true)
    → Covered e rest
Covered-lookup [] e g = tt
Covered-lookup ((k, v) ∷ rest) e g = (
  g k (rw text_eq_refl refl),
  Covered-lookup rest e (λ j there.
      g j (elim (Bool-cases (text_eq k j)) [ inl eq ↦ rw eq refl | inr other ↦ rw other there ])),
)

some_or_else : (a b : Option Text) → is_some b ≡ true → is_some (or_else a b) ≡ true
some_or_else none b h = h
some_or_else (some t) b h = refl

-- Loading a .env file a second time succeeds and changes nothing.
load_dotenv_again :
    (file : Option Text) (e e' : Environ) → load_dotenv file e ≡ ok e' → load_dotenv file e' ≡ ok e'
unfolding load_dotenv
load_dotenv_again none e e' h = refl
load_dotenv_again (some contents) e e' h = Covered-load_lines (split_lines contents) e' (
    Covered-lookup (assigned (split_lines contents)) e' (λ k there.
      rw (lookup-load_lines (split_lines contents) e e' k h)
        (some_or_else (lookup k e) (lookup k (assigned (split_lines contents))) there)))
