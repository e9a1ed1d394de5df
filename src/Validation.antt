-- ===== src/Validation.antt =====
-- core/validation.py: well-formed event ids and queue tokens, and the minting of tokens. The two
-- regular expressions are automata over code points; `$` also matches before a final newline, as
-- in Python's `re`.
pub mod EventId
pub mod QueueToken
use queue_fair.Prelude.{
  ℕ, zero, suc, ◌+◌, ◌-◌, ◌/◌, ◌%◌, Text, Bool, true, false, ◌&&◌, ◌||◌, List, [], ◌∷◌, leb, ltb,
  ◌==◌, length, if◌then◌else◌,
}

-- EVENT_ID_MAX_LENGTH
abbrev pub event_id_max_length : ℕ
event_id_max_length = 64

-- QUEUE_TOKEN_BYTES
abbrev pub queue_token_bytes : ℕ
queue_token_bytes = 16

-- [a-z0-9]
abbrev pub is_slug_char : ℕ → Bool
is_slug_char c = (leb b'a' c && leb c b'z') || (leb b'0' c && leb c b'9')

-- [0-9a-f]
abbrev pub is_hex_char : ℕ → Bool
is_hex_char c = (leb b'0' c && leb c b'9') || (leb b'a' c && leb c b'f')

-- `$`
abbrev pub at_end : Text → Bool
at_end [] = true
at_end (c ∷ []) = c == 10
at_end (c ∷ d ∷ t) = false

-- The rest of _EVENT_ID_RE, in a run of letters (`true`) or where one must begin (`false`).
pub slug_from : Bool → Text → Bool
slug_from true [] = true
slug_from false [] = false
slug_from true (c ∷ t) =
    let run = slug_from true t in
    let next = slug_from false t in
    if is_slug_char c then run else if c == b'-' then next else at_end (c ∷ t)
slug_from false (c ∷ t) = let run = slug_from true t in if is_slug_char c then run else false

-- The rest of _QUEUE_TOKEN_RE, with so many digits to come.
pub hex_run : ℕ → Text → Bool
hex_run zero t = at_end t
hex_run (suc n) [] = false
hex_run (suc n) (c ∷ t) = is_hex_char c && hex_run n t

unfoldable pub is_valid_event_id : Text → Bool
unfolding slug_from
is_valid_event_id value = leb (length value) event_id_max_length && slug_from false value

unfoldable pub is_valid_queue_token : Text → Bool
unfolding hex_run
is_valid_queue_token value = hex_run 32 value

abbrev pub hex_digit : ℕ → ℕ
hex_digit n = if ltb n 10 then b'0' + n else b'a' + (n - 10)

-- `secrets.token_hex` of the bytes that the system's randomness gave.
unfoldable pub token_hex : List ℕ → Text
token_hex [] = []
token_hex (b ∷ bs) = hex_digit (b / 16) ∷ hex_digit (b % 16) ∷ token_hex bs

-- The bytes drawn are an argument; there are QUEUE_TOKEN_BYTES of them.
unfoldable pub new_queue_token : List ℕ → Text
unfolding token_hex
new_queue_token bytes = token_hex bytes
