-- ===== src/Booking/Urls.antt =====
-- bookings/urls.py, and booking_service/booking_service/urls.py, which mounts it at the root after the
-- admin site.
use queue_fair.Prelude.{Text, codes, Option, none, some, ◌≡◌, take, text_eq, if◌then◌else◌}
use queue_fair.Router.{Router, IsSlug, below_root}
use queue_fair.Repository.{book_url}

module _ (D : Router) where
  open D use {slug, slug-match}

  -- The event id with which the pattern calls the booking view.
  unfoldable pub book_pattern : Text → Option Text
  book_pattern path = slug (codes "events/") (codes "/book") path

  -- The event id with which the booking view is called; a path below admin/ goes to the admin site.
  unfoldable pub resolve : Text → Option Text
  unfolding book_pattern
  resolve path = elim (below_root path) [
    | none ↦ none
    | some rest ↦ if text_eq (take 6 rest) (codes "admin/") then none else book_pattern rest
  ]

  pub resolve-book_url :
      (event_id : Text) → IsSlug event_id → resolve (book_url event_id) ≡ some event_id
  unfolding resolve
  resolve-book_url event_id s = slug-match (codes "events/") (codes "/book") event_id s
