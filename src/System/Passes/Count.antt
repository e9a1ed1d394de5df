-- ===== src/System/Passes/Count.antt =====
-- Counting the passes of a run.
use queue_fair.Prelude.{
  ℕ, suc, ◌+◌, ◌*◌, ◌≤◌, Text, Bool, true, false, List, [], ◌∷◌, ◌++◌, ◌≡◌, refl, ap, arith, length,
  length-take, take, if◌then◌else◌,
}
use queue_fair.Ports.{IssuedPass, PassIssuer}
use queue_fair.Queue.Runs.{Event, join, ask, admit, park, expire, configure}
use queue_fair.Repository.{Network, delivered, refused, lost}
use queue_fair.Admission.{issue_all}
use queue_fair.System.{reaching}

-- The number of passes that are stored.
abbrev pub parked : List Event → ℕ
parked [] = 0
parked (join t ∷ es) = parked es
parked (ask t ∷ es) = parked es
parked (admit now ∷ es) = parked es
parked (park t payload ttl ∷ es) = suc (parked es)
parked (expire t ∷ es) = parked es
parked (configure rate burst batch_max ∷ es) = parked es

pub parked-append : (a b : List Event) → parked (a ++ b) ≡ parked a + parked b
parked-append [] b = omega arith
parked-append (join t ∷ a) b = parked-append a b
parked-append (ask t ∷ a) b = parked-append a b
parked-append (admit now ∷ a) b = parked-append a b
parked-append (park t payload ttl ∷ a) b = omega (arith, parked-append a b)
parked-append (expire t ∷ a) b = parked-append a b
parked-append (configure rate burst batch_max ∷ a) b = parked-append a b

pub parked-branch :
    (b : Bool) (xs ys : List Event)
    → parked xs ≡ 0
    → parked ys ≡ 0
    → parked (if b then xs else ys) ≡ 0
parked-branch true xs ys h k = h
parked-branch false xs ys h k = k

pub parked-reaching :
    (net : Network) (e : Event) → parked (e ∷ []) ≡ 0 → parked (reaching net e) ≡ 0
parked-reaching delivered e h = h
parked-reaching refused e h = refl
parked-reaching lost e h = h

pub length-take_le : (n : ℕ) (ps : List IssuedPass) → length (take n ps) ≤ length ps
length-take_le n ps = omega (arith, length-take n ps)

pub length-issue_all :
    (issuer : PassIssuer) (event_id : Text) (now : ℕ) (uuid : ℕ → Text) (i : ℕ) (ts : List Text)
    → length (issue_all issuer event_id now uuid i ts) ≡ length ts
unfolding issue_all
length-issue_all issuer event_id now uuid i [] = refl
length-issue_all issuer event_id now uuid i (t ∷ ts) =
    ap suc (length-issue_all issuer event_id now uuid (suc i) ts)

pub times_le : (r a b : ℕ) → a ≤ b → r * a ≤ r * b
times_le r a b h = grind arith
