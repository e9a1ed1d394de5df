-- ===== src/Process.antt =====
-- queue_service/adapters/redis_client.py, and the repository of the process at the end of
-- queue_service/adapters/queue_repository.py: the variables `_client` and `_repository`. Clients are
-- numbered as they are built. `close_redis` awaits the closing of the pool between reading `_client`
-- and forgetting it, so it is two steps.
pub mod Single
use queue_fair.Prelude.{
  ℕ, suc, Bool, true, false, Option, none, some, List, [], ◌∷◌, ◌≡◌, ◌==◌, if◌then◌else◌,
}

pub record Process : Type 0 where
  pub built : ℕ
  pub open_clients : List ℕ
  pub client : Option ℕ
  pub repository : Option ℕ
  -- the client that a `close_redis` is closing
  pub closing : Option ℕ

-- A process that has imported the modules.
abbrev pub imported : Process
imported = record { built = 0; open_clients = []; client = none; repository = none; closing = none }

abbrev pub without : ℕ → List ℕ → List ℕ
without c [] = []
without c (d ∷ ds) = let rest = without c ds in if d == c then rest else d ∷ rest

-- The client, and the process that has it.
unfoldable pub build_client : Process → ℕ × Process
build_client p = (
  p.built,
  record p { built = suc p.built; open_clients = p.built ∷ p.open_clients; client = some p.built },
)

unfoldable pub client_or_new : Option ℕ → Process → ℕ × Process
unfolding build_client
client_or_new none p = build_client p
client_or_new (some c) p = (c, p)

unfoldable pub get_redis : Process → ℕ × Process
unfolding client_or_new
get_redis p = client_or_new p.client p

-- `close_redis` up to the await. Without a client it has returned.
unfoldable pub begin_close : Process → Process
begin_close p = record p { closing = p.client }

-- After the await, when the pool was closed (`true`) or closing it raised.
unfoldable pub end_close : Bool → ℕ → Process → Process
end_close false c p = record p { closing = none }
end_close true c p = record p {
  open_clients = without c p.open_clients;
  client = none;
  closing = none;
}

-- Two tasks that close the client at once, with a `get_redis` after the first has closed it.
unfoldable pub overlapped : Process → Process
unfolding get_redis begin_close end_close
overlapped p =
    let (c, p1) = get_redis p in
    let p2 = end_close true c (begin_close (begin_close p1)) in end_close true c (get_redis p2).1

-- A ping is answered, or raises a RedisError.
pub data Ping : Type 0 where
  answered : Bool → Ping
  redis_error : Ping

unfoldable pub redis_is_healthy : Ping → Process → Bool × Process
redis_is_healthy (answered reply) p = (reply, (get_redis p).1)
redis_is_healthy redis_error p = (false, (get_redis p).1)

-- The client of the repository that is returned.
unfoldable pub repository_or_new : Option ℕ → Process → ℕ × Process
repository_or_new none p = let (c, p') = get_redis p in (c, record p' { repository = some c })
repository_or_new (some c) p = (c, p)

unfoldable pub get_queue_repository : Process → ℕ × Process
unfolding repository_or_new
get_queue_repository p = repository_or_new p.repository p

unfoldable pub reset_queue_repository : Process → Process
reset_queue_repository p = record p { repository = none }

-- A step of the process, which closes its client in one task at a time.
pub data Step (p : Process) : Process → Type 0 where
  gets : Step p (get_redis p).1
  pings : (ping : Ping) → Step p (redis_is_healthy ping p).1
  gets_repository : Step p (get_queue_repository p).1
  resets : Step p (reset_queue_repository p)
  begins_close : p.closing ≡ none → Step p (begin_close p)
  ends_close : (closed : Bool) (c : ℕ) → p.closing ≡ some c → Step p (end_close closed c p)

pub data Reachable : Process → Type 0 where
  starts : Reachable imported
  steps : {p q : Process} → Reachable p → Step p q → Reachable q
