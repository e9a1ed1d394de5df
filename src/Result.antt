-- ===== src/Result.antt =====
-- Values that Python code returns or raises.

pub data Error : Type 0 where
  -- redis.exceptions.RedisError
  redis_error : Error
  -- ValueError, as an unpacking of the wrong length or bad JSON raises it
  value_error : Error
  index_error assertion_error : Error
  -- adapters.queue_repository
  unknown_event unknown_token : Error
  -- core.admission.UnknownEventError
  unknown_event_error : Error

pub data Result {ℓ} (A : Type ℓ) : Type ℓ where
  ok : A → Result A
  raise : Error → Result A

infixl 5 ◌>>=◌
abbrev pub ◌>>=◌ {ℓ κ} : {A : Type ℓ} {B : Type κ} → Result A → (A → Result B) → Result B
ok a >>= f = f a
raise e >>= f = raise e
