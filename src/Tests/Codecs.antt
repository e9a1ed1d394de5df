-- ===== src/Tests/Codecs.antt =====
-- A codec of passes and a signer, so that the interfaces of json and PyJWT can be met.
use queue_fair.Prelude.{
  pos, negsuc, ℕ, zero, suc, Text, codes, true, false, Option, none, some, [], ◌∷◌, ◌++◌, ◌≡◌, refl,
  ap, ◌∙◌, ◌+◌, ◌≤◌, ◌<◌, arith, length, take, drop, lookup, is_empty, ltb, text_eq, text_eq_refl,
  ◌==◌, if◌then◌else◌,
}
use mathlib.Core.Path.{ap₂}
use queue_fair.Redis.{All}
use queue_fair.State.{Admission}
use queue_fair.Repository.Codec.{JsonCodec}
use queue_fair.Tokens.{
  Value, str, int, boolean, other, Payload, Decoded, valid, expired, invalid, Jwt, is_token_char,
}

pub take-append : (a b : Text) → take (length a) (a ++ b) ≡ a
take-append [] b = refl
take-append (x ∷ a) b = ap (◌∷◌ x) (take-append a b)

pub drop-append : (a b : Text) → drop (length a) (a ++ b) ≡ b
drop-append [] b = refl
drop-append (x ∷ a) b = drop-append a b

abbrev write : Admission → Text
write a = a.expires_at ∷ length a.pass ∷ (a.pass ++ a.book_url)

abbrev read : Text → Option Admission
read (e ∷ n ∷ t) = some (record { pass = take n t; expires_at = e; book_url = drop n t })
read _ = none

pub read-write : (a : Admission) → read (write a) ≡ some a
read-write a = rw (take-append, drop-append) refl

abbrev pub codec : JsonCodec
codec = record { dumps = write; loads = read; loads-dumps = read-write }

-- A value is a tag, a number and a text.
abbrev tag : Value → ℕ
tag (str t) = 0
tag (int (pos n)) = 1
tag (int (negsuc n)) = 4
tag (boolean b) = 2
tag other = 3

abbrev number : Value → ℕ
number (str t) = length t
number (int (pos n)) = n
number (int (negsuc n)) = n
number (boolean b) = if b then 1 else 0
number other = 0

abbrev chars : Value → Text
chars (str t) = t
chars _ = []

abbrev value_at : ℕ → ℕ → Text → Value × Text
value_at tag n t =
    if tag == 0
    then (str (take n t), drop n t)
    else if tag == 1
    then (int (pos n), t)
    else if tag == 2
    then (boolean (n == 1), t)
    else if tag == 4
    then (int (negsuc n), t)
    else (other, t)

value_at-value : (v : Value) (t : Text) → value_at (tag v) (number v) (chars v ++ t) ≡ (v, t)
value_at-value (str u) t = rw (take-append, drop-append) refl
value_at-value (int (pos n)) t = refl
value_at-value (int (negsuc n)) t = refl
value_at-value (boolean true) t = refl
value_at-value (boolean false) t = refl
value_at-value other t = refl

abbrev put : Payload → Text
put [] = []
put ((k, v) ∷ p) = length k ∷ tag v ∷ number v ∷ (k ++ (chars v ++ put p))

abbrev get : ℕ → Text → Payload
get zero t = []
get (suc n) (k ∷ g ∷ m ∷ t) = let at = value_at g m (drop k t) in (take k t, at.0) ∷ get n at.1
get (suc n) _ = []

get-put : (p : Payload) → get (length p) (put p) ≡ p
get-put [] = refl
get-put ((k, v) ∷ p) = rw (take-append, drop-append, value_at-value, get-put p) refl

abbrev judge : Payload → Option Value → Option Value → Option Value → ℕ → Decoded
judge p (some (str t)) (some (int (pos iat))) (some (int (pos exp))) now =
    if ltb now iat then invalid else if ltb now exp then valid p else expired
judge p _ _ _ now = invalid

abbrev judged : Payload → ℕ → Decoded
judged p now =
    judge p (lookup (codes "sub") p) (lookup (codes "iat") p) (lookup (codes "exp") p) now

abbrev body : Text → ℕ → Decoded
body [] now = invalid
body (n ∷ t) now = judged (get n t) now

-- A text in two letters, as a header can carry it: each code in unary, with a stop.
abbrev repeated : ℕ → Text → Text
repeated zero t = t
repeated (suc n) t = b'a' ∷ repeated n t

abbrev armor : Text → Text
armor [] = []
armor (n ∷ t) = repeated n (b'.' ∷ armor t)

abbrev disarm : ℕ → Text → Text
disarm n [] = []
disarm n (c ∷ t) =
    let rest = disarm (if c == b'a' then suc n else 0) t in if c == b'a' then rest else n ∷ rest

disarm-repeated : (k n : ℕ) (t : Text) → disarm k (repeated n (b'.' ∷ t)) ≡ (k + n) ∷ disarm 0 t
disarm-repeated k zero t = ap (λ n. n ∷ disarm 0 t) (omega arith)
disarm-repeated k (suc n) t = disarm-repeated (suc k) n t ∙ ap (λ m. m ∷ disarm 0 t) (omega arith)

disarm-armor : (t : Text) → disarm 0 (armor t) ≡ t
disarm-armor [] = refl
disarm-armor (n ∷ t) = disarm-repeated 0 n (armor t) ∙ ap₂ ◌∷◌ (omega arith) (disarm-armor t)

abbrev sign : Payload → Text → Text
sign p secret = armor (length secret ∷ (secret ++ (length p ∷ put p)))

repeated-chars :
    (n : ℕ) (t : Text)
    → All (λ c. is_token_char c ≡ true) t
    → All (λ c. is_token_char c ≡ true) (repeated n t)
repeated-chars zero t h = h
repeated-chars (suc n) t h = (refl, repeated-chars n t h)

pub armor-chars : (t : Text) → All (λ c. is_token_char c ≡ true) (armor t)
armor-chars [] = tt
armor-chars (n ∷ t) = repeated-chars n (b'.' ∷ armor t) (refl, armor-chars t)

pub repeated-nonempty : (n c : ℕ) (t : Text) → is_empty (repeated n (c ∷ t)) ≡ false
repeated-nonempty zero c t = refl
repeated-nonempty (suc n) c t = refl

abbrev check_plain : Text → Text → ℕ → Decoded
check_plain [] secret now = invalid
check_plain (n ∷ t) secret now = if text_eq (take n t) secret then body (drop n t) now else invalid

abbrev check : Text → Text → ℕ → Decoded
check t secret now = check_plain (disarm 0 t) secret now

pub check-sign :
    (p : Payload) (secret : Text) (now : ℕ) → check (sign p secret) secret now ≡ judged p now
check-sign p secret now = rw (disarm-armor, take-append, drop-append, text_eq_refl, get-put p) refl

pub judge_valid :
    (p : Payload) (t : Text) (iat exp now : ℕ)
    → iat ≤ now
    → now < exp
    → judge p (some (str t)) (some (int (pos iat))) (some (int (pos exp))) now ≡ valid p
judge_valid p t iat exp now a b = ground arith

pub judge_expired :
    (p : Payload) (t : Text) (iat exp now : ℕ)
    → iat ≤ now
    → exp ≤ now
    → judge p (some (str t)) (some (int (pos iat))) (some (int (pos exp))) now ≡ expired
judge_expired p t iat exp now a b = ground arith

abbrev pub signer : Jwt
signer = record {
  encode = sign;
  decode = check;
  encode-nonempty =
      λ p secret. repeated-nonempty (length secret) b'.' (armor (secret ++ (length p ∷ put p)));
  encode-chars = λ p secret. armor-chars (length secret ∷ (secret ++ (length p ∷ put p)));
  decode-encode = λ p secret t iat exp now hs hi he a b.
      rw (check-sign p secret now, hs, hi, he) (judge_valid p t iat exp now a b);
  decode-encode_expired = λ p secret t iat exp now hs hi he a b.
      rw (check-sign p secret now, hs, hi, he) (judge_expired p t iat exp now a b);
}
