-- ===== src/Queue/Release.antt =====
-- The release of a batch: `release` of admit_batch.lua and the first of the queue that leave.
use queue_fair.Prelude.{
  ℕ, zero, suc, ◌+◌, ◌≤◌, Text, false, List, [], ◌∷◌, ◌≡◌, refl, ap, sym, ◌∙◌, arith, or_zero,
  length, length-drop, take, drop, text_eq-append, leb,
}
use native.Mathlib.Nat.{add-zero}
use mathlib.Core.Path.{subst, ap₂}
use queue_fair.Redis.{View, Redis, set_zset, set_number, set_hash}
use queue_fair.Keys
use queue_fair.Keys.{EventKeys}
use queue_fair.Scripts.{Reply, int, array, flat, batch_size, release}
use queue_fair.Queue.{Line, Holds, leave, numbered}
use queue_fair.Queue.Numbered.{take-numbered, drop-numbered, Distinct-drop}

-- A batch stays within the waiting, the ceiling and the whole tokens.
pub batch_size_bounds :
    (n batch_max waiting : ℕ)
    → (batch_size n batch_max waiting ≤ waiting)
      × (batch_size n batch_max waiting ≤ batch_max)
      × (batch_size n batch_max waiting ≤ n)
unfolding batch_size
batch_size_bounds n batch_max waiting = ground arith

-- The view after `n` tokens left.
abbrev left_view : View → EventKeys → ℕ → ℕ → View
left_view v keys n total =
    set_number (set_zset v (Keys.queue keys) (drop n (v.zsets (Keys.queue keys))))
      (Keys.admitted keys) total

Holds-left :
    (v : View) (keys : EventKeys) (q : Line) (n : ℕ)
    → Holds v keys q
    → n ≤ length q.waiting
    → Holds (left_view v keys n (q.admitted + n)) keys (leave n q)
unfolding leave
Holds-left v keys q n h fits = record {
  members = simp text_eq-append (
      ap (drop n) h.members
      ∙ drop-numbered n (suc q.admitted) (suc (q.admitted + n)) q.waiting (omega arith));
  issued = simp text_eq-append (omega (arith, h.issued, length-drop n q.waiting));
  counted = simp text_eq-append refl;
  distinct = Distinct-drop n q.waiting h.distinct;
}

pub Holds-leave_zero :
    (v : View) (keys : EventKeys) (q : Line) → Holds v keys q → Holds v keys (leave 0 q)
unfolding leave
Holds-leave_zero v keys q h = record {
  members = h.members ∙ ap (λ k. numbered (suc k) q.waiting) (omega arith);
  issued = omega (arith, h.issued);
  counted = omega (arith, h.counted);
  distinct = h.distinct;
}

pub Holds-set_hash :
    (v : View) (keys : EventKeys) (q : Line) (k : Text) (fs : List (Text × ℕ))
    → Holds v keys q
    → Holds (set_hash v k fs) keys q
Holds-set_hash v keys q k fs h = record {
  members = h.members;
  issued = h.issued;
  counted = h.counted;
  distinct = h.distinct;
}

pops : (n : ℕ) → leb (suc n) 0 ≡ false
pops n = ground arith

module _ (R : Redis) (keys : EventKeys) where
  open R use {
    Db, view, exists, exists_lem, zcard, zcard_lem, get_number, get_number_lem, hget, hget_lem,
    zpopmin, zpopmin_reply, incrby, incrby_reply, hset, view-zpopmin, view-incrby, view-hset,
  }

  -- The reply for a batch of the first `n` of the queue.
  abbrev pub released : Line → ℕ → Reply
  released q n =
      int 1
      ∷ int n
      ∷ int (q.admitted + n)
      ∷ array (flat (numbered (suc q.admitted) (take n q.waiting)))
      ∷ []

  -- The first `n` of the queue have left: the keys are in step with that, the reply names them, and
  -- the hashes are `hashes`.
  pub record Released (q : Line) (n : ℕ) (hashes : Text → List (Text × ℕ)) (out : Reply × Db)
      : Type 0 where
    pub in_step : Holds (view out.1) keys (leave n q)
    pub reply : out.0 ≡ released q n
    pub kept : (view out.1).hashes ≡ hashes

  module _ (q : Line) (n : ℕ) (db : Db) (h : Holds (view db) keys q)
      (fits : n ≤ length q.waiting) where
    popped_members :
        (zpopmin db (Keys.queue keys) n).0 ≡ numbered (suc q.admitted) (take n q.waiting)
    popped_members =
        zpopmin_reply db (Keys.queue keys) n
        ∙ ap (take n) h.members
        ∙ take-numbered n (suc q.admitted) q.waiting

    abbrev popped : Db
    popped = (zpopmin db (Keys.queue keys) n).1

    counted_popped : or_zero ((view popped).numbers (Keys.admitted keys)) + n ≡ q.admitted + n
    counted_popped =
        ap (λ v. or_zero (v.numbers (Keys.admitted keys)) + n) (view-zpopmin db (Keys.queue keys) n)
        ∙ ap (λ a. a + n) h.counted

    admitted_reply : (incrby popped (Keys.admitted keys) n).0 ≡ q.admitted + n
    admitted_reply = incrby_reply popped (Keys.admitted keys) n ∙ counted_popped

    view-left :
        view (incrby popped (Keys.admitted keys) n).1 ≡ left_view (view db) keys n (q.admitted + n)
    view-left =
        view-incrby popped (Keys.admitted keys) n
        ∙ ap (set_number (view popped) (Keys.admitted keys)) counted_popped
        ∙ ap (λ v. set_number v (Keys.admitted keys) (q.admitted + n))
            (view-zpopmin db (Keys.queue keys) n)

    Holds-popped : Holds (view (incrby popped (Keys.admitted keys) n).1) keys (leave n q)
    Holds-popped =
        subst (λ v. Holds v keys (leave n q)) (sym view-left) (Holds-left (view db) keys q n h fits)

  pub release_lem :
      (q : Line) (n : ℕ) (db : Db)
      → Holds (view db) keys q
      → n ≤ length q.waiting
      → Released q n (view db).hashes (release R (Keys.queue keys) (Keys.admitted keys) n db)
  unfolding release leave
  release_lem q zero db h fits = record {
    in_step = Holds-leave_zero (view db) keys q h;
    reply =
        ap (λ a. int 1 ∷ int 0 ∷ int a ∷ array [] ∷ [])
          (ap or_zero (get_number_lem db (Keys.admitted keys))
            ∙ h.counted
            ∙ sym (add-zero q.admitted));
    kept = refl;
  }
  release_lem q (suc n) db h fits = rw (pops n) (record {
    in_step = Holds-popped q (suc n) db h fits;
    reply =
        ap₂ (λ a l. int 1 ∷ int (suc n) ∷ int a ∷ array (flat l) ∷ [])
          (admitted_reply q (suc n) db h fits) (popped_members q (suc n) db h fits);
    kept = ap (λ v. v.hashes) (view-left q (suc n) db h fits);
  })
