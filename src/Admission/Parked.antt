-- ===== src/Admission/Parked.antt =====
-- The view with the passes of a batch parked.
use queue_fair.Prelude.{
  ℕ, suc, ◌+◌, ◌<◌, Text, true, false, none, some, List, [], ◌∷◌, ◌≡◌, refl, ap, ◌∙◌, arith,
  text_eq, text_eq_iff, text_eq-append, Option-cases, Bool-cases, inl, inr,
}
use mathlib.Core.Path.{ap₂, subst}
use queue_fair.Redis.{View, set_string, set_value, set_value_lem}
use queue_fair.Keys
use queue_fair.Keys.{EventKeys}
use queue_fair.Ports.{IssuedPass, PassIssuer}
use queue_fair.Queue.{Line, Holds, index_of, Distinct}
use queue_fair.Repository.{payload}
use queue_fair.Repository.Codec.{JsonCodec}
use queue_fair.Admission.{issue_all}

module _ (J : JsonCodec) (event_id : Text) (ttl : ℕ) where
  abbrev pub keys : EventKeys
  keys = record { event_id = event_id }

  -- The view with the passes parked.
  abbrev pub parked : List IssuedPass → View → View
  parked [] v = v
  parked (p ∷ ps) v = parked ps (
      set_string v (Keys.pass_for keys p.queue_token)
        (set_value (payload J event_id p) ttl (v.strings (Keys.pass_for keys p.queue_token))))

  parked-zsets : (ps : List IssuedPass) (v : View) → (parked ps v).zsets ≡ v.zsets
  parked-zsets [] v = refl
  parked-zsets (p ∷ ps) v = parked-zsets ps _

  parked-numbers : (ps : List IssuedPass) (v : View) → (parked ps v).numbers ≡ v.numbers
  parked-numbers [] v = refl
  parked-numbers (p ∷ ps) v = parked-numbers ps _

  pub parked-hashes : (ps : List IssuedPass) (v : View) → (parked ps v).hashes ≡ v.hashes
  parked-hashes [] v = refl
  parked-hashes (p ∷ ps) v = parked-hashes ps _

  pub Holds-parked :
      (ps : List IssuedPass) (v : View) (q : Line) → Holds v keys q → Holds (parked ps v) keys q
  Holds-parked ps v q h = record {
    members = rw parked-zsets h.members;
    issued = rw parked-numbers h.issued;
    counted = rw parked-numbers h.counted;
    distinct = h.distinct;
  }

  module _ (issuer : PassIssuer) (now : ℕ) (uuid : ℕ → Text) where
    abbrev pub passes : ℕ → List Text → List IssuedPass
    passes = issue_all issuer event_id now uuid

    -- The pass of a token, the `j`-th of the batch.
    abbrev pub pass_of : Text → ℕ → IssuedPass
    pass_of t j = issuer.issue event_id t now (uuid j)

    -- The issuer writes the token into the pass.
    module _ (names : (t jti : Text) → (issuer.issue event_id t now jti).queue_token ≡ t) where
      pub parked_other :
          (n : ℕ) (ts : List Text) (t : Text) (v : View)
          → index_of t ts ≡ none
          → (parked (passes n ts) v).strings (Keys.pass_for keys t)
            ≡ v.strings (Keys.pass_for keys t)
      unfolding issue_all
      parked_other n [] t v h = refl
      parked_other n (u ∷ ts) t v h =
          let other : text_eq u t ≡ false = ground arith in
          let later : index_of t ts ≡ none = ground arith in
          parked_other (suc n) ts t _ later
          ∙ rw (names u (uuid n)) (simp (text_eq-append, other) refl)

      parked_here :
          (u t : Text) (n : ℕ) (v : View)
          → 0 < ttl
          → text_eq u t ≡ true
          → (set_string v (Keys.pass_for keys (pass_of u n).queue_token) (
                set_value
                  (payload J event_id (pass_of u n))
                  ttl
                  (v.strings (Keys.pass_for keys (pass_of u n).queue_token)))).strings
              (Keys.pass_for keys t)
            ≡ some (payload J event_id (pass_of u n), ttl)
      parked_here u t n v lives same =
          rw (set_value_lem (payload J event_id (pass_of u n)) ttl _ lives, names u (uuid n))
            (simp (text_eq-append, same) refl)

      pub parked_own :
          (n : ℕ) (ts : List Text) (t : Text) (j : ℕ) (v : View)
          → 0 < ttl
          → Distinct ts
          → index_of t ts ≡ some j
          → (parked (passes n ts) v).strings (Keys.pass_for keys t)
            ≡ some (payload J event_id (pass_of t (n + j)), ttl)
      unfolding issue_all
      parked_own n [] t j v lives d h = absurd (cc)
      parked_own n (u ∷ ts) t j v lives d h = elim (Bool-cases (text_eq u t)) [
        | inl same ↦
            let e : u ≡ t = (text_eq_iff u t).0 same in
            let first : j ≡ 0 = ground arith in
            parked_other (suc n) ts t _ (subst (λ x. index_of x ts ≡ none) e d.0)
            ∙ parked_here u t n v lives same
            ∙ ap₂ (λ x k. some (payload J event_id (pass_of x k), ttl)) e (omega (arith, first))
        | inr other ↦ elim (Option-cases (index_of t ts)) [
          | inl gone ↦ absurd (ground arith)
          | inr (i, here) ↦
              let next : j ≡ suc i = ground arith in
              parked_own (suc n) ts t i _ lives d.1 here
              ∙ ap (λ k. some (payload J event_id (pass_of t k), ttl)) (omega (arith, next))
        ]
      ]
