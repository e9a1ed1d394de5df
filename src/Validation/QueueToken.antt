-- ===== src/Validation/QueueToken.antt =====
-- What `is_valid_queue_token` accepts, and minted tokens.
use queue_fair.Prelude.{
  ℕ, zero, suc, ◌*◌, ◌<◌, ◌/◌, ◌%◌, Text, true, List, [], ◌∷◌, ◌++◌, ◌≡◌, ◌↔◌, ◌⊎◌, inl, inr, refl,
  ap, arith, is_empty, false, length,
}
use mathlib.Core.List.{append-nil}
use mathlib.Core.Path.{ap₂}
use queue_fair.Redis.{All}
use queue_fair.Validation.{
  is_hex_char, at_end, hex_run, is_valid_queue_token, token_hex, new_queue_token, hex_digit,
  queue_token_bytes,
}

-- So many lowercase hexadecimal characters.
pub record IsHex (n : ℕ) (t : Text) : Type 0 where
  pub size : length t ≡ n
  pub digits : All (λ c. is_hex_char c ≡ true) t

abbrev pub newline : Text
newline = 10 ∷ []

hex_run_sound :
    (n : ℕ) (v : Text)
    → hex_run n v ≡ true
    → (t : Text) × IsHex n t × ((v ≡ t) ⊎ (v ≡ t ++ newline))
unfolding hex_run
hex_run_sound zero [] h = ([], record { size = refl; digits = tt }, inl refl)
hex_run_sound zero (c ∷ []) h = ([], record { size = refl; digits = tt }, inr (ground arith))
hex_run_sound zero (c ∷ d ∷ v) h = ground arith
hex_run_sound (suc n) [] h = ground arith
hex_run_sound (suc n) (c ∷ v) h =
    let (t, hex, shape) = hex_run_sound n v (ground arith) in
    (
      c ∷ t,
      record { size = ap suc hex.size; digits = (ground arith, hex.digits) },
      elim shape [ inl e ↦ inl (ap (◌∷◌ c) e) | inr e ↦ inr (ap (◌∷◌ c) e) ],
    )

hex_run_complete :
    (n : ℕ) (t rest : Text) → IsHex n t → at_end rest ≡ true → hex_run n (t ++ rest) ≡ true
unfolding hex_run
hex_run_complete zero [] rest h e = e
hex_run_complete zero (c ∷ t) rest h e = absurd (omega (arith, h.size))
hex_run_complete (suc n) [] rest h e = absurd (omega (arith, h.size))
hex_run_complete (suc n) (c ∷ t) rest h e =
    rw (h.digits.0)
      (hex_run_complete n t rest (record { size = omega (arith, h.size); digits = h.digits.1 }) e)

-- A queue token is accepted exactly when it is 32 lowercase hexadecimal characters, or those
-- followed by one newline.
pub is_valid_queue_token_iff :
    (v : Text)
    → (is_valid_queue_token v ≡ true) ↔ ((t : Text) × IsHex 32 t × ((v ≡ t) ⊎ (v ≡ t ++ newline)))
unfolding is_valid_queue_token
is_valid_queue_token_iff v = (
  hex_run_sound 32 v,
  λ (t, hex, shape). elim shape [
    | inl e ↦ rw e (rw (← append-nil t) (hex_run_complete 32 t [] hex refl))
    | inr e ↦ rw e (hex_run_complete 32 t newline hex refl)
  ],
)

pub valid_not_empty : (t : Text) → is_valid_queue_token t ≡ true → is_empty t ≡ false
unfolding is_valid_queue_token hex_run
valid_not_empty [] h = absurd (cc)
valid_not_empty (c ∷ t) h = refl

hex_digit-is_hex_char : (n : ℕ) → n < 16 → is_hex_char (hex_digit n) ≡ true
hex_digit-is_hex_char n h = ground arith

token_hex-IsHex :
    (bytes : List ℕ) → All (λ b. b < 256) bytes → IsHex (2 * length bytes) (token_hex bytes)
unfolding token_hex
token_hex-IsHex [] h = record { size = refl; digits = tt }
token_hex-IsHex (b ∷ bs) h =
    let rest = token_hex-IsHex bs h.1 in
    record {
      size = omega (arith, rest.size);
      digits = (
        hex_digit-is_hex_char (b / 16) (omega (arith, h.0)),
        (hex_digit-is_hex_char (b % 16) (omega arith), rest.digits),
      );
    }

-- From 16 random bytes, a minted token is 32 lowercase hexadecimal characters and is accepted.
pub new_queue_token_accepted :
    (bytes : List ℕ)
    → length bytes ≡ queue_token_bytes
    → All (λ b. b < 256) bytes
    → IsHex 32 (new_queue_token bytes) × (is_valid_queue_token (new_queue_token bytes) ≡ true)
unfolding new_queue_token
new_queue_token_accepted bytes size range =
    let doubled : 2 * length bytes ≡ 32 = omega arith in
    let hex : IsHex 32 (token_hex bytes) = rw doubled at (token_hex-IsHex bytes range) in
    (hex, (is_valid_queue_token_iff (token_hex bytes)).1 (token_hex bytes, hex, inl refl))

hex_digit-injective : (m n : ℕ) → m < 16 → n < 16 → hex_digit m ≡ hex_digit n → m ≡ n
hex_digit-injective m n hm hn e = ground arith

cons_heads : {c d : ℕ} {s t : Text} → ◌≡◌ {A = Text} (c ∷ s) (d ∷ t) → c ≡ d
cons_heads e = ground arith

cons_tails : {c d : ℕ} {s t : Text} → ◌≡◌ {A = Text} (c ∷ s) (d ∷ t) → s ≡ t
cons_tails e = ground arith

byte_digits :
    (x y : ℕ)
    → x < 256
    → y < 256
    → hex_digit (x / 16) ≡ hex_digit (y / 16)
    → hex_digit (x % 16) ≡ hex_digit (y % 16)
    → x ≡ y
byte_digits x y hx hy high low =
    let a : x / 16 ≡ y / 16 =
      hex_digit-injective (x / 16) (y / 16) (omega arith) (omega arith) high in
    let b : x % 16 ≡ y % 16 =
      hex_digit-injective (x % 16) (y % 16) (omega arith) (omega arith) low in
    omega arith

-- Lists of bytes that give the same token are equal.
pub new_queue_token-injective :
    (xs ys : List ℕ)
    → All (λ b. b < 256) xs
    → All (λ b. b < 256) ys
    → new_queue_token xs ≡ new_queue_token ys
    → xs ≡ ys
unfolding new_queue_token
new_queue_token-injective [] [] hx hy e = refl
new_queue_token-injective [] (y ∷ ys) hx hy e = absurd (cc)
new_queue_token-injective (x ∷ xs) [] hx hy e = absurd (cc)
new_queue_token-injective (x ∷ xs) (y ∷ ys) hx hy e =
    ap₂ ◌∷◌ (byte_digits x y hx.0 hy.0 (cons_heads e) (cons_heads (cons_tails e)))
      (new_queue_token-injective xs ys hx.1 hy.1 (cons_tails (cons_tails e)))
