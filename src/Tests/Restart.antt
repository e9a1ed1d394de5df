-- ===== src/Tests/Restart.antt =====
-- A process that serves, closes its client and serves again.
use queue_fair.Prelude.{true, [], ◌∷◌, ◌≡◌, refl}
use queue_fair.Process.{
  Process, imported, get_redis, client_or_new, build_client, begin_close, end_close, overlapped,
  get_queue_repository, repository_or_new, reset_queue_repository, Reachable, starts, steps, gets,
  gets_repository, begins_close, ends_close,
}
use queue_fair.Process.Single.{one_client}

abbrev served : Process
served = (get_queue_repository (get_redis imported).1).1

abbrev closed : Process
closed = end_close true 0 (begin_close served)

closed-Reachable : Reachable closed
unfolding get_redis client_or_new build_client get_queue_repository repository_or_new begin_close
    end_close
closed-Reachable =
    steps (steps (steps (steps starts gets) gets_repository) (begins_close refl))
      (ends_close true 0 refl)

one_client_example :
    ((get_redis closed).1.open_clients ≡ (get_redis closed).0 ∷ [])
    × (get_redis (get_redis closed).1 ≡ ((get_redis closed).0, (get_redis closed).1))
    × ((get_queue_repository (reset_queue_repository closed)).0 ≡ (get_redis closed).0)
    × ((end_close true (get_redis closed).0 (begin_close (get_redis closed).1)).open_clients ≡ [])
    × ((get_redis (overlapped closed)).1.open_clients
        ≡ (get_redis (overlapped closed)).0 ∷ (get_redis closed).1.built ∷ [])
one_client_example = one_client closed closed-Reachable
