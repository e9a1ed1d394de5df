-- ===== src/Validation/EventId.antt =====
-- What `is_valid_event_id` accepts.
use queue_fair.Prelude.{
  ℕ, ◌<◌, ◌≤◌, Text, is_empty, Bool, true, false, List, [], ◌∷◌, ◌++◌, ◌≡◌, ◌↔◌, ◌⊎◌, inl, inr,
  refl, ap, arith, length, leb, leb→le, le→leb, &&-eq-true, Bool-cases, ==_iff, ◌==◌, ◌∙◌, ◌≢◌,
}
use mathlib.Core.List.{append-nil, append_assoc}
use queue_fair.Redis.{All}
use queue_fair.Validation.{is_slug_char, at_end, slug_from, is_valid_event_id, event_id_max_length}

-- A run of lowercase letters and digits, not empty.
pub record IsWord (w : Text) : Type 0 where
  pub nonempty : 0 < length w
  pub chars : All (λ c. is_slug_char c ≡ true) w

-- Words with a hyphen before each.
abbrev pub hyphenated : List Text → Text
hyphenated [] = []
hyphenated (w ∷ ws) = b'-' ∷ (w ++ hyphenated ws)

-- One word or more, with hyphens between.
pub record Slug (v : Text) : Type 0 where
  pub first : Text
  pub others : List Text
  pub words : All IsWord (first ∷ others)
  pub text : v ≡ first ++ hyphenated others

-- What an accepting run has read; the first word may be empty where a run of letters goes on.
record Reads (running : Bool) (v : Text) : Type 0 where
  first : Text
  others : List Text
  rest : Text
  started : running ≡ false → 0 < length first
  chars : All (λ c. is_slug_char c ≡ true) first
  words : All IsWord others
  ending : at_end rest ≡ true
  text : v ≡ (first ++ hyphenated others) ++ rest

Reads-letter :
    (running : Bool) (c : ℕ) (t : Text)
    → is_slug_char c ≡ true
    → Reads true t
    → Reads running (c ∷ t)
Reads-letter running c t s r = record {
  first = c ∷ r.first;
  others = r.others;
  rest = r.rest;
  started = λ e. omega arith;
  chars = (s, r.chars);
  words = r.words;
  ending = r.ending;
  text = ap (◌∷◌ c) r.text;
}

Reads-hyphen : (c : ℕ) (t : Text) → (c == b'-') ≡ true → Reads false t → Reads true (c ∷ t)
Reads-hyphen c t s r = record {
  first = [];
  others = r.first ∷ r.others;
  rest = r.rest;
  started = λ e. absurd (cc);
  chars = tt;
  words = (record { nonempty = r.started refl; chars = r.chars }, r.words);
  ending = r.ending;
  text = ground (arith, r.text);
}

Reads-end : (v : Text) → at_end v ≡ true → Reads true v
Reads-end v e = record {
  first = [];
  others = [];
  rest = v;
  started = λ e. absurd (cc);
  chars = tt;
  words = tt;
  ending = e;
  text = refl;
}

slug_from_sound : (running : Bool) (v : Text) → slug_from running v ≡ true → Reads running v
unfolding slug_from
slug_from_sound true [] h = Reads-end [] refl
slug_from_sound false [] h = absurd (cc)
slug_from_sound true (c ∷ t) h = elim (Bool-cases (is_slug_char c)) [
  | inl s ↦ Reads-letter true c t s (slug_from_sound true t (ground arith))
  | inr n ↦ elim (Bool-cases (c == b'-')) [
    | inl s ↦ Reads-hyphen c t s (slug_from_sound false t (ground arith))
    | inr m ↦ Reads-end (c ∷ t) (ground arith)
  ]
]
slug_from_sound false (c ∷ t) h =
    let s : is_slug_char c ≡ true = ground arith in
    Reads-letter false c t s (slug_from_sound true t (ground arith))

slug_from_rest : (rest : Text) → at_end rest ≡ true → slug_from true rest ≡ true
unfolding slug_from
slug_from_rest [] e = refl
slug_from_rest (c ∷ []) e = ground arith
slug_from_rest (c ∷ d ∷ t) e = absurd (cc)

slug_from_chars :
    (w t : Text)
    → All (λ c. is_slug_char c ≡ true) w
    → slug_from true t ≡ true
    → slug_from true (w ++ t) ≡ true
unfolding slug_from
slug_from_chars [] t h e = e
slug_from_chars (c ∷ w) t h e = rw (h.0) (slug_from_chars w t h.1 e)

slug_from_word : (w t : Text) → IsWord w → slug_from true t ≡ true → slug_from false (w ++ t) ≡ true
unfolding slug_from
slug_from_word [] t h e = absurd (omega (arith, h.nonempty))
slug_from_word (c ∷ w) t h e = rw (h.chars.0) (slug_from_chars w t h.chars.1 e)

slug_from-hyphenated :
    (ws : List Text) (rest : Text)
    → All IsWord ws
    → at_end rest ≡ true
    → slug_from true (hyphenated ws ++ rest) ≡ true
unfolding slug_from
slug_from-hyphenated [] rest h e = slug_from_rest rest e
slug_from-hyphenated (w ∷ ws) rest h e =
    rw append_assoc
      (slug_from_word w (hyphenated ws ++ rest) h.0 (slug_from-hyphenated ws rest h.1 e))

slug_from_complete :
    (v rest : Text) → Slug v → at_end rest ≡ true → slug_from false (v ++ rest) ≡ true
slug_from_complete v rest s e =
    rw (s.text, append_assoc)
      (slug_from_word s.first (hyphenated s.others ++ rest) s.words.0
        (slug_from-hyphenated s.others rest s.words.1 e))

abbrev pub newline : Text
newline = 10 ∷ []

Slug-Reads : {v : Text} (r : Reads false v) → Slug (r.first ++ hyphenated r.others)
Slug-Reads r = record {
  first = r.first;
  others = r.others;
  words = (record { nonempty = r.started refl; chars = r.chars }, r.words);
  text = refl;
}

at_end-cases : (rest : Text) → at_end rest ≡ true → (rest ≡ []) ⊎ (rest ≡ newline)
at_end-cases [] e = inl refl
at_end-cases (c ∷ []) e = inr (ground arith)
at_end-cases (c ∷ d ∷ t) e = absurd (cc)

accepted-Slug : {v : Text} → Reads false v → (t : Text) × Slug t × ((v ≡ t) ⊎ (v ≡ t ++ newline))
accepted-Slug {v} r = (
  r.first ++ hyphenated r.others,
  Slug-Reads r,
  elim (at_end-cases r.rest r.ending) [
    | inl e ↦ inl (r.text ∙ ap (◌++◌ (r.first ++ hyphenated r.others)) e ∙ append-nil _)
    | inr e ↦ inr (r.text ∙ ap (◌++◌ (r.first ++ hyphenated r.others)) e)
  ],
)

-- An event id is accepted exactly when it has at most 64 characters and is words of lowercase
-- letters and digits with single hyphens between, or such a text and one newline.
pub is_valid_event_id_iff :
    (v : Text)
    → (is_valid_event_id v ≡ true)
      ↔ ((length v ≤ event_id_max_length) × ((t : Text) × Slug t × ((v ≡ t) ⊎ (v ≡ t ++ newline))))
unfolding is_valid_event_id
is_valid_event_id_iff v = (
  λ h.
      let (short, run) = &&-eq-true (leb (length v) event_id_max_length) (slug_from false v) h in
      (leb→le (length v) event_id_max_length short, accepted-Slug (slug_from_sound false v run)),
  λ (short, (t, slug, shape)). rw (le→leb (length v) event_id_max_length short) (elim shape [
    | inl e ↦ rw e (rw (← append-nil t) (slug_from_complete t [] slug refl))
    | inr e ↦ rw e (slug_from_complete t newline slug refl)
  ]),
)

colon_free_end : (v : Text) → at_end v ≡ true → All (λ c. c ≢ b':') v
colon_free_end [] e = tt
colon_free_end (c ∷ []) e = (λ p. omega (arith, (==_iff c 10).0 e), tt)
colon_free_end (c ∷ d ∷ t) e = absurd (cc)

colon_free_from : (running : Bool) (v : Text) → slug_from running v ≡ true → All (λ c. c ≢ b':') v
unfolding slug_from
colon_free_from true [] h = tt
colon_free_from false [] h = tt
colon_free_from true (c ∷ t) h = elim (Bool-cases (is_slug_char c)) [
  | inl s ↦ (λ e. ground arith, colon_free_from true t (ground arith))
  | inr n ↦ elim (Bool-cases (c == b'-')) [
    | inl s ↦ (λ e. omega (arith, (==_iff c b'-').0 s), colon_free_from false t (ground arith))
    | inr m ↦ colon_free_end (c ∷ t) (ground arith)
  ]
]
colon_free_from false (c ∷ t) h =
    let s : is_slug_char c ≡ true = ground arith in
    (λ e. ground arith, colon_free_from true t (ground arith))

-- An accepted event id has no colon, the separator of the key names.
pub colon_free : (v : Text) → is_valid_event_id v ≡ true → All (λ c. c ≢ b':') v
unfolding is_valid_event_id
colon_free v h =
    colon_free_from false v
      (&&-eq-true (leb (length v) event_id_max_length) (slug_from false v) h).1

pub valid_event_nonempty : (v : Text) → is_valid_event_id v ≡ true → is_empty v ≡ false
unfolding is_valid_event_id slug_from
valid_event_nonempty [] h = absurd (cc)
valid_event_nonempty (c ∷ t) h = refl
