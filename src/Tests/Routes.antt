-- ===== src/Tests/Routes.antt =====
-- A router, so that the interface of Django's resolver can be met, and the way of bob to his booking.
use queue_fair.Prelude.{
  pos, ℕ, ◌-◌, Text, codes, Bool, true, false, ◌&&◌, not, Option, none, some, [], ◌∷◌, ◌++◌, ◌≡◌,
  ◌↔◌, refl, ap, sym, ◌∙◌, arith, length, length-append, take-append-drop, take, drop, is_empty,
  text_eq, text_eq_iff, text_eq_refl, if◌then◌else◌, Bool-cases, inl, inr,
}
use mathlib.Core.Path.{subst}
use queue_fair.Redis.{All}
use queue_fair.Redis.Memory.{memory}
use queue_fair.Router.{Router, IsSlug, is_slug_letter}
use queue_fair.Validation.{is_valid_event_id, is_valid_queue_token}
use queue_fair.State.{AdmittedOutcome}
use queue_fair.Repository.{delivered}
use queue_fair.Api
use queue_fair.Api.{Request, cookie_name}
use queue_fair.Api.Asking.{admitted_response}
use queue_fair.Scripts.{batch_size, refill, bucket_state, elapsed}
use queue_fair.Tokens.Issuer.{issuer}
use queue_fair.Admission.Collect.{tick}
use queue_fair.Api.Urls as ApiUrls
use queue_fair.Api.Urls.{View, join, WithSlug, url_of, resolve_iff}
use queue_fair.Booking.Memory
use queue_fair.Booking.Sound.{IsSound}
use queue_fair.Booking.Urls as BookingUrls
use queue_fair.Booking.Endpoint
use queue_fair.Booking.Endpoint.{booking_view}
use queue_fair.Booking.Endpoint.Bearer.{header_of}
use queue_fair.Booking.Endpoint.Answers.{Told, IsLetIn}
use queue_fair.Journey.{waiting_to_booking}
use queue_fair.Tests.Data.{keys, bob, three_waiting, three, three-Holds}
use queue_fair.Tests.Codecs.{codec, signer, take-append, drop-append}
use queue_fair.Tests.Inputs.{thousandths}
use queue_fair.Tests.Passes.{signing, uuid}
use queue_fair.Tests.Tickets.{on_sale, on_sale-IsSound}

abbrev all_letters : Text → Bool
all_letters [] = true
all_letters (c ∷ t) = is_slug_letter c && all_letters t

abbrev is_slug : Text → Bool
is_slug v = not (is_empty v) && all_letters v

all_letters_sound : (v : Text) → all_letters v ≡ true → All (λ c. is_slug_letter c ≡ true) v
all_letters_sound [] h = tt
all_letters_sound (c ∷ v) h = (ground (arith, h), all_letters_sound v (ground (arith, h)))

all_letters_complete : (v : Text) → All (λ c. is_slug_letter c ≡ true) v → all_letters v ≡ true
all_letters_complete [] h = refl
all_letters_complete (c ∷ v) h = rw (h.0, all_letters_complete v h.1) refl

-- The text before the suffix, if it is a slug.
abbrev trimmed : Text → Text → Option Text
trimmed suffix t =
    let v = take (length t - length suffix) t in
    if text_eq (drop (length t - length suffix) t) suffix && is_slug v then some v else none

abbrev match : Text → Text → Text → Option Text
match prefix suffix path =
    if text_eq (take (length prefix) path) prefix
    then trimmed suffix (drop (length prefix) path)
    else none

trimmed-match : (suffix v : Text) → IsSlug v → trimmed suffix (v ++ suffix) ≡ some v
trimmed-match suffix v s =
    let size : length (v ++ suffix) - length suffix ≡ length v =
      omega (arith, length-append v suffix) in
    rw (size, take-append, drop-append, text_eq_refl, s.nonempty, all_letters_complete v s.letters)
      refl

-- A slug and a suffix at `n`.
cut_sound :
    (suffix t v : Text) (n : ℕ)
    → (if text_eq (drop n t) suffix && is_slug (take n t) then some (take n t) else none) ≡ some v
    → IsSlug v × (t ≡ v ++ suffix)
cut_sound suffix t v n h =
    let here : take n t ≡ v = ground (arith, h) in
    let rest : text_eq (drop n t) suffix ≡ true = ground (arith, h) in
    let letters : all_letters (take n t) ≡ true = ground (arith, h) in
    let some_letter : is_empty (take n t) ≡ false = ground (arith, h) in
    (
      subst IsSlug here
          (record { nonempty = some_letter; letters = all_letters_sound (take n t) letters }),
      sym (take-append-drop n t)
          ∙ ap (λ u. u ++ drop n t) here
          ∙ ap (◌++◌ v) ((text_eq_iff (drop n t) suffix).0 rest),
    )

pub match_at :
    (prefix suffix path v : Text)
    → match prefix suffix path ≡ some v
    → IsSlug v × (path ≡ prefix ++ (v ++ suffix))
match_at prefix suffix path v h = elim (Bool-cases (text_eq (take (length prefix) path) prefix)) [
  | inl begins ↦
      let (slug, rest) =
        cut_sound suffix (drop (length prefix) path) v
          (length (drop (length prefix) path) - length suffix) (ground (arith, h, begins)) in
      (
        slug,
        sym (take-append-drop (length prefix) path)
            ∙ ap (λ u. u ++ drop (length prefix) path)
                ((text_eq_iff (take (length prefix) path) prefix).0 begins)
            ∙ ap (◌++◌ prefix) rest,
      )
  | inr other ↦ absurd (ground arith)
]

pub match-match :
    (prefix suffix v : Text) → IsSlug v → match prefix suffix (prefix ++ (v ++ suffix)) ≡ some v
match-match prefix suffix v s =
    rw (take-append, drop-append, text_eq_refl) (trimmed-match suffix v s)

abbrev pub router : Router
router = record { slug = match; slug-match = match-match; slug-sound = match_at }

resolve_iff_example :
    (ApiUrls.resolve router (codes "/api/queue/a-b/join") ≡ some (join (codes "a-b")))
    ↔ (WithSlug (join (codes "a-b")) × (codes "/api/queue/a-b/join" ≡ url_of (join (codes "a-b"))))
resolve_iff_example = resolve_iff router (codes "/api/queue/a-b/join") (join (codes "a-b"))

pub event-IsSlug : IsSlug keys.event_id
event-IsSlug = record { nonempty = refl; letters = ground arith }

abbrev pub settings : Api.Settings
settings = record { max_age = 21600; secure = false }

abbrev pub asking : Request
asking = record {
  method = codes "GET";
  cookies = (cookie_name keys.event_id, bob) ∷ [];
  query = [];
}

waiting_to_booking_example :
    (o : AdmittedOutcome) × ((Api.position thousandths settings keys.event_id memory codec delivered
        asking
        (tick memory codec
          (issuer signer signing)
          keys.event_id
          120
          1060000
          uuid
          delivered
          0
          three_waiting).1).0
      ≡ some (admitted_response o))
    × (BookingUrls.resolve router o.admission.book_url ≡ some keys.event_id)
    × IsSound
        (booking_view Memory.memory signer signing.secret 1100 keys.event_id [] []
          (header_of o.admission.pass)
          on_sale).1
    × Told
        (Endpoint.ok (record {
          user_id = bob;
          event_id = keys.event_id;
          jti = 1 ∷ [];
          issued_at = pos 1060;
          expires_at = pos 1180;
        }))
        keys.event_id
        (booking_view Memory.memory signer signing.secret 1100 keys.event_id [] []
          (header_of o.admission.pass)
          on_sale).1
        (booking_view Memory.memory signer signing.secret 1100 keys.event_id [] []
          (header_of o.admission.pass)
          on_sale).0
    × IsLetIn
        (booking_view Memory.memory signer signing.secret 1100 keys.event_id [] []
          (header_of o.admission.pass)
          on_sale).0
unfolding batch_size refill bucket_state elapsed is_valid_queue_token is_valid_event_id
waiting_to_booking_example =
    waiting_to_booking thousandths settings memory codec signer router Memory.memory signing
      keys.event_id 1060000 uuid three_waiting three three-Holds refl (omega arith) refl
      event-IsSlug 0 bob 1 refl refl refl asking refl refl 1100 (omega arith) (omega arith) [] []
      on_sale on_sale-IsSound
