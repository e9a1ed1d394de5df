-- ===== src/Queue/Numbered.antt =====
-- Lists of tokens with consecutive scores.
use queue_fair.Prelude.{
  ℕ, zero, suc, ◌+◌, ◌<◌, ◌≤◌, Text, Option, none, some, List, [], ◌∷◌, ◌++◌, ◌≡◌, refl, ap, ◌∙◌,
  arith, length, take, drop, lookup, text_eq, text_eq_comm, text_eq_refl, sym, Option-cases, inl,
  inr, false,
}
use queue_fair.Redis.{All, rank_of}
use queue_fair.Queue.{Line, enter, index_of, Distinct, numbered}

abbrev pub shift : ℕ → Option ℕ → Option ℕ
shift n none = none
shift n (some i) = some (n + i)

pub lookup-numbered :
    (t : Text) (n : ℕ) (l : List Text) → lookup t (numbered n l) ≡ shift n (index_of t l)
lookup-numbered t n [] = refl
lookup-numbered t n (u ∷ l) = ground (arith, lookup-numbered t (suc n) l)

pub rank_of-numbered : (t : Text) (n : ℕ) (l : List Text) → rank_of t (numbered n l) ≡ index_of t l
rank_of-numbered t n [] = refl
rank_of-numbered t n (u ∷ l) = ground (arith, rank_of-numbered t (suc n) l)

pub length-numbered : (n : ℕ) (l : List Text) → length (numbered n l) ≡ length l
length-numbered n [] = refl
length-numbered n (u ∷ l) = ap suc (length-numbered (suc n) l)

pub numbered-append :
    (t : Text) (n m : ℕ) (l : List Text)
    → m ≡ n + length l
    → numbered n l ++ (t, m) ∷ [] ≡ numbered n (l ++ t ∷ [])
numbered-append t n m [] e = ground arith
numbered-append t n m (u ∷ l) e = ap (◌∷◌ (u, n)) (numbered-append t (suc n) m l (omega arith))

pub numbered-below :
    (n m : ℕ) (l : List Text) → n + length l ≤ m → All (λ (e : Text × ℕ). e.1 < m) (numbered n l)
numbered-below n m [] h = tt
numbered-below n m (u ∷ l) h = (omega arith, numbered-below (suc n) m l (omega arith))

pub take-numbered : (k n : ℕ) (l : List Text) → take k (numbered n l) ≡ numbered n (take k l)
take-numbered zero n l = refl
take-numbered (suc k) n [] = refl
take-numbered (suc k) n (u ∷ l) = ap (◌∷◌ (u, n)) (take-numbered k (suc n) l)

pub drop-numbered :
    (k n m : ℕ) (l : List Text) → m ≡ n + k → drop k (numbered n l) ≡ numbered m (drop k l)
drop-numbered zero n m l e = ap (λ j. numbered j l) (omega arith)
drop-numbered (suc k) n m [] e = refl
drop-numbered (suc k) n m (u ∷ l) e = drop-numbered k (suc n) m l (omega arith)

pub index_of-append :
    (u t : Text) (l : List Text)
    → index_of u l ≡ none
    → text_eq t u ≡ false
    → index_of u (l ++ t ∷ []) ≡ none
index_of-append u t [] h e = ground arith
index_of-append u t (x ∷ l) h e = ground (arith, index_of-append u t l)

pub Distinct-append :
    (t : Text) (l : List Text) → index_of t l ≡ none → Distinct l → Distinct (l ++ t ∷ [])
Distinct-append t [] h d = (refl, tt)
Distinct-append t (u ∷ l) h d = (
  index_of-append u t l d.0 (text_eq_comm t u ∙ not_here),
  Distinct-append t l (ground arith) d.1,
)
  where
    not_here : text_eq u t ≡ false
    not_here = ground arith

pub Distinct-drop : (k : ℕ) (l : List Text) → Distinct l → Distinct (drop k l)
Distinct-drop zero l d = d
Distinct-drop (suc k) [] d = tt
Distinct-drop (suc k) (u ∷ l) d = Distinct-drop k l d.1

pub index_of-lt : (t : Text) (l : List Text) (i : ℕ) → index_of t l ≡ some i → i < length l
index_of-lt t [] i h = absurd (cc)
index_of-lt t (u ∷ l) i h = elim (Option-cases (index_of t l)) [
  | inl e ↦ ground arith
  | inr (j, e) ↦ ground (arith, index_of-lt t l j e)
]

pub index_of-append_self :
    (t : Text) (l : List Text) → index_of t l ≡ none → index_of t (l ++ t ∷ []) ≡ some (length l)
index_of-append_self t [] h = rw (text_eq_refl t) refl
index_of-append_self t (u ∷ l) h = ground (arith, index_of-append_self t l)

-- Having entered, a token waits, and its sequence is the number admitted and its place.
pub enter_place :
    (t : Text) (q : Line)
    → (i : ℕ) × (index_of t (enter t q).0.waiting ≡ some i)
      × ((enter t q).1 ≡ suc ((enter t q).0.admitted + i))
unfolding enter
enter_place t q = elim (Option-cases (index_of t q.waiting)) [
  | inl new ↦ rw (new, enter) (length q.waiting, index_of-append_self t q.waiting new, refl)
  | inr (i, old) ↦ rw (old, enter) (i, old, refl)
]

-- Entering again changes nothing.
pub enter-enter :
    (t : Text) (q : Line) → enter t (enter t q).0 ≡ ((enter t q).0, (enter t q).1, false)
unfolding enter
enter-enter t q =
    let (i, here, s) = enter_place t q in
    rw (here, enter) (ap (λ n. ((enter t q).0, n, false)) (sym s))
