-- ===== src/Api/Urls.antt =====
-- queue_service/api/urls.py, which queue_service/urls.py mounts at the root.
use mathlib.Core.Path.{subst}
use queue_fair.Prelude.{
  ℕ, length, drop, ◌↔◌, Text, codes, true, false, Option, none, some, [], ◌∷◌, ◌++◌, ◌≡◌, refl, ap,
  sym, ◌∙◌, arith, text_eq, ◌==◌, ==_iff, Option-cases, inl, inr, if◌then◌else◌, Bool-cases,
  text_eq_iff, ◌⊎◌,
}
use queue_fair.Redis.{All}
use queue_fair.Router.{Router, IsSlug, is_slug_letter, below_root}
use queue_fair.Settings.Strings.{after}

pub data View : Type 0 where
  healthz : View
  join position : Text → View

-- The view of a pattern that matches, or else of the patterns after it.
abbrev pub captured : (Text → View) → Option Text → Option View → Option View
captured view none rest = rest
captured view (some event_id) rest = some (view event_id)

module _ (D : Router) where
  open D use {slug}

  -- The first of them that matches.
  unfoldable pub urlpatterns : Text → Option View
  urlpatterns path =
      if text_eq path (codes "healthz")
      then some healthz
      else captured join (slug (codes "api/queue/") (codes "/join") path)
          (captured position (slug (codes "api/queue/") (codes "/position") path) none)

  unfoldable pub resolve : Text → Option View
  unfolding urlpatterns
  resolve path = elim (below_root path) [ none ↦ none | some rest ↦ urlpatterns rest ]

-- The path of a view.
abbrev pub url_of : View → Text
url_of healthz = codes "/healthz"
url_of (join event_id) = codes "/api/queue/" ++ (event_id ++ codes "/join")
url_of (position event_id) = codes "/api/queue/" ++ (event_id ++ codes "/position")

-- An event id in it is a slug.
abbrev pub WithSlug : View → Type 0
WithSlug healthz = Unit
WithSlug (join event_id) = IsSlug event_id
WithSlug (position event_id) = IsSlug event_id

after-slug : (v t : Text) → All (λ c. is_slug_letter c ≡ true) v → after b'/' (v ++ (b'/' ∷ t)) ≡ t
after-slug [] t h = refl
after-slug (c ∷ v) t h =
    let other : (c == b'/') ≡ false = ground (arith, h.0) in rw other (after-slug v t h.1)

captured_sound :
    (view : Text → View) (o : Option Text) (rest : Option View) (w : View)
    → captured view o rest ≡ some w
    → ((v : Text) × (o ≡ some v) × (view v ≡ w)) ⊎ (rest ≡ some w)
captured_sound view none rest w h = inr h
captured_sound view (some v) rest w h = inl (v, refl, ground arith)

module _ (D : Router) where
  open D use {slug, slug-match, slug-sound}

  -- The path below the root of a view.
  abbrev IsPathOf : Text → View → Type 0
  IsPathOf path w = WithSlug w × (b'/' ∷ path ≡ url_of w)

  join_sound :
      (path v : Text)
      → slug (codes "api/queue/") (codes "/join") path ≡ some v
      → IsPathOf path (join v)
  join_sound path v e =
      let (s, p) = slug-sound (codes "api/queue/") (codes "/join") path v e in
      (s, ap (λ (t : Text). b'/' ∷ t) p)

  position_sound :
      (path v : Text)
      → slug (codes "api/queue/") (codes "/position") path ≡ some v
      → IsPathOf path (position v)
  position_sound path v e =
      let (s, p) = slug-sound (codes "api/queue/") (codes "/position") path v e in
      (s, ap (λ (t : Text). b'/' ∷ t) p)

  urlpatterns_sound : (path : Text) (w : View) → urlpatterns D path ≡ some w → IsPathOf path w
  unfolding urlpatterns
  urlpatterns_sound path w h = elim (Bool-cases (text_eq path (codes "healthz"))) [
    | inl eq ↦
        let this : healthz ≡ w = ground arith in
        subst (IsPathOf path) this
          (tt, ap (λ (t : Text). b'/' ∷ t) ((text_eq_iff path (codes "healthz")).0 eq))
    | inr other ↦
        elim (captured_sound join (slug (codes "api/queue/") (codes "/join") path)
          (captured position (slug (codes "api/queue/") (codes "/position") path) none) w
          (ground (arith, h, other))) [
            | inl (v, e, this) ↦ subst (IsPathOf path) this (join_sound path v e)
            | inr rest ↦
                elim (captured_sound position (slug (codes "api/queue/") (codes "/position") path)
                  none w rest) [
                    | inl (v, e, this) ↦ subst (IsPathOf path) this (position_sound path v e)
                    | inr gone ↦ absurd (cc)
                  ]
          ]
  ]

  not_join :
      (v : Text)
      → IsSlug v
      → slug (codes "api/queue/") (codes "/join") (codes "api/queue/" ++ (v ++ codes "/position"))
        ≡ none
  not_join v s =
      elim (Option-cases (
        slug (codes "api/queue/") (codes "/join")
          (codes "api/queue/" ++ (v ++ codes "/position")))) [
            | inl e ↦ e
            | inr (u, e) ↦
                let (su, p) = slug-sound (codes "api/queue/") (codes "/join") _ u e in
                let same : codes "position" ≡ codes "join" =
                  sym (after-slug v (codes "position") s.letters)
                  ∙ ap (λ t. after b'/' (drop 10 t)) p
                  ∙ after-slug u (codes "join") su.letters in
                absurd (omega (arith, ap (length {A = ℕ}) same))
          ]

  urlpatterns_complete : (w : View) → WithSlug w → urlpatterns D (drop 1 (url_of w)) ≡ some w
  unfolding urlpatterns
  urlpatterns_complete healthz s = refl
  urlpatterns_complete (join v) s = rw (slug-match (codes "api/queue/") (codes "/join") v s) refl
  urlpatterns_complete (position v) s =
      rw (not_join v s, slug-match (codes "api/queue/") (codes "/position") v s) refl

  resolve_sound :
      (path : Text) (w : View) → resolve D path ≡ some w → WithSlug w × (path ≡ url_of w)
  unfolding resolve
  resolve_sound [] w h = absurd (cc)
  resolve_sound (c ∷ t) w h = elim (Bool-cases (c == b'/')) [
    | inl eq ↦ rw ((==_iff c b'/').0 eq) (urlpatterns_sound t w (ground (arith, h, eq)))
    | inr other ↦ absurd (ground arith)
  ]

  resolve_complete :
      (path : Text) (w : View) → WithSlug w → path ≡ url_of w → resolve D path ≡ some w
  unfolding resolve
  resolve_complete path healthz s p = rw p (urlpatterns_complete healthz tt)
  resolve_complete path (join v) s p = rw p (urlpatterns_complete (join v) s)
  resolve_complete path (position v) s p = rw p (urlpatterns_complete (position v) s)

  -- A path is routed to a view exactly when it is the path of that view, and an event id in it is a
  -- slug.
  pub resolve_iff :
      (path : Text) (w : View) → (resolve D path ≡ some w) ↔ (WithSlug w × (path ≡ url_of w))
  resolve_iff path w = (resolve_sound path w, λ (s, p). resolve_complete path w s p)
