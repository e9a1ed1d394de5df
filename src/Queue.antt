-- ===== src/Queue.antt =====
-- The queue of one event as its users see it: how many were admitted, and who waits, in order. The
-- modules below relate the scripts to it.
pub mod Numbered
pub mod Places
pub mod Join
pub mod Position
pub mod Release
pub mod Admit
pub mod Untouched
pub mod Apart
pub mod Alike
pub mod Runs
pub mod Rejoin
use queue_fair.Prelude.{
  ℕ, suc, ◌+◌, Text, Bool, true, false, Option, none, some, List, [], ◌∷◌, ◌++◌, ◌≡◌, or_zero,
  length, take, drop, text_eq, if◌then◌else◌,
}
use queue_fair.Redis.{View}
use queue_fair.Keys
use queue_fair.Keys.{EventKeys}

-- The place of a token in a list, from 0.
abbrev pub index_of : Text → List Text → Option ℕ
index_of t [] = none
index_of t (u ∷ l) =
    if text_eq u t then some 0 else elim (index_of t l) [ none ↦ none | some i ↦ some (suc i) ]

-- No token twice.
abbrev pub Distinct : List Text → Type 0
Distinct [] = Unit
Distinct (t ∷ l) = (index_of t l ≡ none) × Distinct l

-- The tokens with consecutive scores.
abbrev pub numbered : ℕ → List Text → List (Text × ℕ)
numbered n [] = []
numbered n (t ∷ l) = (t, n) ∷ numbered (suc n) l

pub record Line : Type 0 where
  pub admitted : ℕ
  pub waiting : List Text

-- The sorted set holds the waiting tokens with the sequences `admitted + 1`, `admitted + 2`, ...
-- without a gap, and both counters agree with it.
pub record Holds (v : View) (keys : EventKeys) (q : Line) : Type 0 where
  pub members : v.zsets (Keys.queue keys) ≡ numbered (suc q.admitted) q.waiting
  pub issued : or_zero (v.numbers (Keys.seq keys)) ≡ q.admitted + length q.waiting
  pub counted : or_zero (v.numbers (Keys.admitted keys)) ≡ q.admitted
  pub distinct : Distinct q.waiting

-- A token takes the last place, or keeps the one it has: the queue, its sequence and whether it is
-- new.
unfoldable pub enter : Text → Line → Line × ℕ × Bool
enter t q = elim (index_of t q.waiting) [
  | none ↦ (record q { waiting = q.waiting ++ t ∷ [] }, suc (q.admitted + length q.waiting), true)
  | some i ↦ (q, suc (q.admitted + i), false)
]

-- The first `n` are admitted.
unfoldable pub leave : ℕ → Line → Line
leave n q = record q { admitted = q.admitted + n; waiting = drop n q.waiting }
