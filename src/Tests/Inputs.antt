-- ===== src/Tests/Inputs.antt =====
-- Event ids, queue tokens, and estimates.
use queue_fair.Prelude.{
  ℕ, ◌≤◌, ◌*◌, ◌/◌, ◌+◌, Text, codes, true, List, [], ◌∷◌, ◌++◌, ◌≡◌, ◌↔◌, ◌⊎◌, refl, arith, length,
}
use queue_fair.Validation.{
  is_valid_event_id, is_valid_queue_token, new_queue_token, event_id_max_length,
}
use queue_fair.Validation.EventId.{Slug, newline, is_valid_event_id_iff}
use queue_fair.Validation.QueueToken.{IsHex, is_valid_queue_token_iff, new_queue_token_accepted}
use queue_fair.State.{Float}
use queue_fair.Tests.Data.{ada}

is_valid_event_id_iff_example : (is_valid_event_id (codes "a-b") ≡ true) ↔ (
    (length (codes "a-b") ≤ event_id_max_length)
    × ((t : Text) × Slug t × ((codes "a-b" ≡ t) ⊎ (codes "a-b" ≡ t ++ newline))))
is_valid_event_id_iff_example = is_valid_event_id_iff (codes "a-b")

is_valid_queue_token_iff_example :
    (is_valid_queue_token ada ≡ true)
    ↔ ((t : Text) × IsHex 32 t × ((ada ≡ t) ⊎ (ada ≡ t ++ newline)))
is_valid_queue_token_iff_example = is_valid_queue_token_iff ada

abbrev pub some_bytes : List ℕ
some_bytes = 0 ∷ 1 ∷ 2 ∷ 3 ∷ 4 ∷ 5 ∷ 6 ∷ 7 ∷ 8 ∷ 9 ∷ 10 ∷ 11 ∷ 12 ∷ 13 ∷ 254 ∷ 255 ∷ []

minted : new_queue_token some_bytes ≡ codes "000102030405060708090a0b0c0dfeff"
unfolding new_queue_token
minted = refl

new_queue_token_accepted_example :
    IsHex 32 (new_queue_token some_bytes)
    × (is_valid_queue_token (new_queue_token some_bytes) ≡ true)
new_queue_token_accepted_example = new_queue_token_accepted some_bytes refl (omega arith)

-- Whole thousandths, rounded down: `ceil` rounds up.
abbrev pub thousandths : Float
thousandths = record {
  Num = ℕ;
  divide = λ a b. a * 1000 / b;
  times = λ x n. x * n;
  ceil = λ x. (x + 999) / 1000;
}
