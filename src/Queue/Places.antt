-- ===== src/Queue/Places.antt =====
-- Places before and after the first of the queue leave.
use queue_fair.Prelude.{
  ◌<◌, ◌≤◌, ◌-◌, ℕ, zero, suc, Text, none, some, List, [], ◌∷◌, ◌++◌, ◌≡◌, refl, ap, ◌∙◌, arith,
  take, drop, length, text_eq, text_eq_iff, Option-cases, Bool-cases, inl, inr,
}
use mathlib.Core.Path.{subst}
use queue_fair.Queue.{index_of, Distinct}

pub index_of-drop-none :
    (t : Text) (n : ℕ) (l : List Text) → index_of t l ≡ none → index_of t (drop n l) ≡ none
index_of-drop-none t zero l h = h
index_of-drop-none t (suc n) [] h = refl
index_of-drop-none t (suc n) (u ∷ l) h =
    index_of-drop-none t n l
      (elim (Option-cases (index_of t l)) [ inl e ↦ e | inr (i, e) ↦ absurd (ground arith) ])

pub index_of-take-none :
    (t : Text) (n : ℕ) (l : List Text) → index_of t l ≡ none → index_of t (take n l) ≡ none
index_of-take-none t zero l h = refl
index_of-take-none t (suc n) [] h = refl
index_of-take-none t (suc n) (u ∷ l) h = elim (Option-cases (index_of t l)) [
  | inl e ↦ ground (arith, index_of-take-none t n l e)
  | inr (i, e) ↦ absurd (ground arith)
]

-- Who left is not waiting.
pub index_of-drop :
    (t : Text) (n j : ℕ) (l : List Text)
    → Distinct l
    → index_of t (take n l) ≡ some j
    → index_of t (drop n l) ≡ none
index_of-drop t zero j l d h = absurd (cc)
index_of-drop t (suc n) j [] d h = refl
index_of-drop t (suc n) j (u ∷ l) d h = elim (Bool-cases (text_eq u t)) [
  | inl same ↦
      index_of-drop-none t n l (subst (λ v. index_of v l ≡ none) ((text_eq_iff u t).0 same) d.0)
  | inr other ↦ elim (Option-cases (index_of t (take n l))) [
    | inl none_here ↦ absurd (ground arith)
    | inr (i, here) ↦ index_of-drop t n i l d.1 here
  ]
]

-- A place is a place in the beginning of a list exactly if the beginning reaches that far.
pub index_of-take_within :
    (t : Text) (l : List Text) (j n : ℕ)
    → index_of t l ≡ some j
    → j < n
    → index_of t (take n l) ≡ some j
index_of-take_within t [] j n h lt = absurd (cc)
index_of-take_within t (u ∷ l) j zero h lt = absurd (omega arith)
index_of-take_within t (u ∷ l) j (suc n) h lt = elim (Bool-cases (text_eq u t)) [
  | inl same ↦ ground arith
  | inr other ↦ elim (Option-cases (index_of t l)) [
    | inl gone ↦ absurd (ground arith)
    | inr (i, here) ↦
        let next : j ≡ suc i = ground arith in
        let rest = index_of-take_within t l i n here (omega (arith, next)) in ground arith
  ]
]

pub index_of-take_beyond :
    (t : Text) (l : List Text) (j n : ℕ)
    → index_of t l ≡ some j
    → n ≤ j
    → index_of t (take n l) ≡ none
index_of-take_beyond t [] j n h le = absurd (cc)
index_of-take_beyond t (u ∷ l) j zero h le = refl
index_of-take_beyond t (u ∷ l) j (suc n) h le = elim (Bool-cases (text_eq u t)) [
  | inl same ↦ absurd (ground arith)
  | inr other ↦ elim (Option-cases (index_of t l)) [
    | inl gone ↦ absurd (ground arith)
    | inr (i, here) ↦
        let next : j ≡ suc i = ground arith in
        let rest = index_of-take_beyond t l i n here (omega (arith, next)) in ground arith
  ]
]

-- A place in a list is the place in any longer one.
pub index_of-more :
    (t : Text) (a b : List Text) (i : ℕ) → index_of t a ≡ some i → index_of t (a ++ b) ≡ some i
index_of-more t [] b i h = absurd (cc)
index_of-more t (u ∷ a) b i h = elim (Option-cases (index_of t a)) [
  | inl e ↦ ground arith
  | inr (j, e) ↦ ground (arith, index_of-more t a b j e)
]

-- A place beyond those who leave.
pub index_of-drop_beyond :
    (t : Text) (l : List Text) (j n : ℕ)
    → index_of t l ≡ some j
    → n ≤ j
    → index_of t (drop n l) ≡ some (j - n)
index_of-drop_beyond t [] j n h le = absurd (cc)
index_of-drop_beyond t (u ∷ l) j zero h le = h ∙ ap (λ (k : ℕ). some k) (omega arith)
index_of-drop_beyond t (u ∷ l) j (suc n) h le = elim (Option-cases (index_of t l)) [
  | inl e ↦ absurd (ground arith)
  | inr (i, e) ↦
      let next : j ≡ suc i = ground arith in
      index_of-drop_beyond t l i n e (omega (arith, next))
      ∙ ap (λ (k : ℕ). some k) (omega (arith, next))
]

pub index_of-lt : (t : Text) (a : List Text) (i : ℕ) → index_of t a ≡ some i → i < length a
index_of-lt t [] i h = absurd (cc)
index_of-lt t (u ∷ a) i h = elim (Option-cases (index_of t a)) [
  | inl e ↦ ground arith
  | inr (j, e) ↦ ground (arith, index_of-lt t a j e)
]
