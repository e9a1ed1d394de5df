-- ===== src/Process/Single.antt =====
-- The clients of a process.
use queue_fair.Prelude.{
  ◌<◌, suc, arith, ℕ, Bool, true, false, Option, none, some, List, [], ◌∷◌, ◌≡◌, ◌⊎◌, inl, inr,
  refl, ap, sym, ◌∙◌, ◌==◌, ==_iff,
}
use queue_fair.Process.{
  Process, without, build_client, client_or_new, get_redis, begin_close, end_close, answered,
  overlapped, redis_error, redis_is_healthy, repository_or_new, get_queue_repository,
  reset_queue_repository, Step, gets, pings, gets_repository, resets, begins_close, ends_close,
  Reachable, starts, steps,
}

abbrev only : Option ℕ → List ℕ
only none = []
only (some c) = c ∷ []

-- What is open is the client, and what is being closed is the client.
record IsSingle (p : Process) : Type 0 where
  opened : p.open_clients ≡ only p.client
  closing : (p.closing ≡ none) ⊎ (p.closing ≡ p.client)
  numbered : (c : ℕ) → p.client ≡ some c → c < p.built

no_client_no_close : (a b : Option ℕ) → (a ≡ none) ⊎ (a ≡ b) → b ≡ none → a ≡ none
no_client_no_close a b (inl e) h = e
no_client_no_close a b (inr e) h = e ∙ h

-- A new client is numbered below the next.
built_below : (n c : ℕ) → ◌≡◌ {A = Option ℕ} (some n) (some c) → c < suc n
built_below n c e = ground arith

client_or_new-IsSingle :
    (o : Option ℕ) (p : Process) → p.client ≡ o → IsSingle p → IsSingle (client_or_new o p).1
unfolding client_or_new build_client
client_or_new-IsSingle none p e s = record {
  opened = ap (◌∷◌ p.built) (s.opened ∙ ap only e);
  closing = inl (no_client_no_close p.closing p.client s.closing e);
  numbered = λ c h. built_below p.built c h;
}
client_or_new-IsSingle (some c) p e s = s

get_redis-IsSingle : (p : Process) → IsSingle p → IsSingle (get_redis p).1
unfolding get_redis
get_redis-IsSingle p s = client_or_new-IsSingle p.client p refl s

repository_or_new-IsSingle :
    (o : Option ℕ) (p : Process) → IsSingle p → IsSingle (repository_or_new o p).1
unfolding repository_or_new
repository_or_new-IsSingle none p s =
    let g = get_redis-IsSingle p s in
    record { opened = g.opened; closing = g.closing; numbered = g.numbered }
repository_or_new-IsSingle (some c) p s = s

-- Closing the only client leaves none.
without_only : (c : ℕ) → without c (c ∷ []) ≡ []
without_only c = let same : (c == c) ≡ true = (==_iff c c).1 refl in rw same refl

end_close-IsSingle :
    (closed : Bool) (c : ℕ) (p : Process)
    → p.closing ≡ some c
    → IsSingle p
    → IsSingle (end_close closed c p)
unfolding end_close
end_close-IsSingle false c p h s = record {
  opened = s.opened;
  closing = inl refl;
  numbered = s.numbered;
}
end_close-IsSingle true c p h s = record {
  opened = elim s.closing [
    | inl idle ↦ absurd (cc)
    | inr own ↦ ap (without c) (s.opened ∙ ap only (sym own ∙ h)) ∙ without_only c
  ];
  closing = inl refl;
  numbered = λ d e. absurd (cc);
}

Step-IsSingle : {p q : Process} → Step p q → IsSingle p → IsSingle q
unfolding redis_is_healthy get_queue_repository begin_close reset_queue_repository
Step-IsSingle {p} gets s = get_redis-IsSingle p s
Step-IsSingle {p} (pings (answered reply)) s = get_redis-IsSingle p s
Step-IsSingle {p} (pings redis_error) s = get_redis-IsSingle p s
Step-IsSingle {p} gets_repository s = repository_or_new-IsSingle p.repository p s
Step-IsSingle {p} resets s = record {
  opened = s.opened;
  closing = s.closing;
  numbered = s.numbered;
}
Step-IsSingle {p} (begins_close h) s = record {
  opened = s.opened;
  closing = inr refl;
  numbered = s.numbered;
}
Step-IsSingle {p} (ends_close closed c h) s = end_close-IsSingle closed c p h s

Reachable-IsSingle : {p : Process} → Reachable p → IsSingle p
Reachable-IsSingle starts = record {
  opened = refl;
  closing = inl refl;
  numbered = λ c h. absurd (cc);
}
Reachable-IsSingle (steps r step) = Step-IsSingle step (Reachable-IsSingle r)

-- The client that is returned is the client of the process from then on.
client_or_new_kept :
    (o : Option ℕ) (p : Process)
    → p.client ≡ o
    → (client_or_new o p).1.client ≡ some (client_or_new o p).0
unfolding client_or_new build_client
client_or_new_kept none p e = refl
client_or_new_kept (some c) p e = e

get_redis_kept : (p : Process) → (get_redis p).1.client ≡ some (get_redis p).0
unfolding get_redis
get_redis_kept p = client_or_new_kept p.client p refl

get_redis_same : (p : Process) (c : ℕ) → p.client ≡ some c → get_redis p ≡ (c, p)
unfolding get_redis client_or_new
get_redis_same p c e = ap (λ o. client_or_new o p) e

-- A repository that was dropped is made again with the same client.
client_or_new_reset :
    (o : Option ℕ) (p : Process)
    → (client_or_new o (reset_queue_repository p)).0 ≡ (client_or_new o p).0
unfolding client_or_new build_client reset_queue_repository
client_or_new_reset none p = refl
client_or_new_reset (some c) p = refl

repository_reset :
    (p : Process) → (get_queue_repository (reset_queue_repository p)).0 ≡ (get_redis p).0
unfolding get_queue_repository repository_or_new reset_queue_repository get_redis
repository_reset p = client_or_new_reset p.client p

without_other : (c d : ℕ) → c < d → without c (d ∷ []) ≡ d ∷ []
without_other c d lt = let other : (d == c) ≡ false = ground arith in rw other refl

-- The second of two closings forgets the client that was made after the first.
overlapped_leaks :
    (p : Process)
    → IsSingle p
    → ((overlapped p).client ≡ none) × ((overlapped p).open_clients ≡ (get_redis p).1.built ∷ [])
unfolding overlapped end_close begin_close get_redis client_or_new build_client
overlapped_leaks p s =
    let g = get_redis-IsSingle p s in
    let c = (get_redis p).0 in
    let kept = get_redis_kept p in
    (
      refl,
      ap (λ l. without c ((get_redis p).1.built ∷ without c l)) (g.opened ∙ ap only kept)
          ∙ ap (λ l. without c ((get_redis p).1.built ∷ l)) (without_only c)
          ∙ without_other c (get_redis p).1.built (g.numbered c kept),
    )

client_or_new_adds :
    (o : Option ℕ) (p : Process)
    → o ≡ none
    → (client_or_new o p).1.open_clients ≡ (client_or_new o p).0 ∷ p.open_clients
unfolding client_or_new build_client
client_or_new_adds none p e = refl
client_or_new_adds (some c) p e = absurd (cc)

get_redis_adds :
    (p : Process)
    → p.client ≡ none
    → (get_redis p).1.open_clients ≡ (get_redis p).0 ∷ p.open_clients
unfolding get_redis
get_redis_adds p e = client_or_new_adds p.client p e

-- Let a process take any steps from its start, of which no two closings overlap. Then `get_redis`
-- returns the only client that is open, and the same again, with no other effect; a repository that is
-- made anew after a reset is made with that client; and closing it leaves no client open. But when two
-- tasks then close it at once, and `get_redis` is called between their ends, the client that it makes is
-- forgotten open: the next `get_redis` makes a second one beside it.
pub one_client :
    (p : Process)
    → Reachable p
    → ((get_redis p).1.open_clients ≡ (get_redis p).0 ∷ [])
      × (get_redis (get_redis p).1 ≡ ((get_redis p).0, (get_redis p).1))
      × ((get_queue_repository (reset_queue_repository p)).0 ≡ (get_redis p).0)
      × ((end_close true (get_redis p).0 (begin_close (get_redis p).1)).open_clients ≡ [])
      × ((get_redis (overlapped p)).1.open_clients
          ≡ (get_redis (overlapped p)).0 ∷ (get_redis p).1.built ∷ [])
unfolding end_close begin_close
one_client p r =
    let s = get_redis-IsSingle p (Reachable-IsSingle r) in
    let (forgotten, leaked) = overlapped_leaks p (Reachable-IsSingle r) in
    let opened = s.opened ∙ ap only (get_redis_kept p) in
    (
      opened,
      get_redis_same (get_redis p).1 (get_redis p).0 (get_redis_kept p),
      repository_reset p,
      ap (without (get_redis p).0) opened ∙ without_only (get_redis p).0,
      get_redis_adds (overlapped p) forgotten ∙ ap (◌∷◌ (get_redis (overlapped p)).0) leaked,
    )
