-- ===== src/Status/Pings.antt =====
-- How long `_ping_workers` waits, and which answer it returns.
use cachito.Base.{
  ℕ, zero, suc, ◌+◌, ◌≤◌, ◌<◌, ◌≡◌, ◌≢◌, refl, sym, ap, subst, ◌∙◌, Option, none, some, [], arith,
}
use cachito.Status.{
  Replies, Ping, connection_error, other_error, answered, power, pause, ping_from, ping_workers,
}

-- What `_ping_workers` does where a ping does not raise `ConnectionError`: `replies or {}`, or none
-- for another exception.
abbrev pub answer : Ping → Option Replies
answer connection_error = some []
answer other_error = none
answer (answered none) = some []
answer (answered (some replies)) = some replies

slept_next :
    (slept i : ℕ)
    → slept + pause i + 1 ≡ power i
    → slept + pause i + pause (suc i) + 1 ≡ power (suc i)
slept_next slept i h = omega (arith, h)

-- From round i on, where the round n, which is d further, is the first that is answered.
ping_from-answered :
    (ping : ℕ → Ping) (o : Ping) (n d rounds slept i : ℕ)
    → n ≡ d + i
    → d < rounds
    → slept + pause i + 1 ≡ power i
    → ((j : ℕ) → i ≤ j → j < n → ping j ≡ connection_error)
    → ping n ≡ o
    → o ≢ connection_error
    → ((ping_from ping slept i rounds).1 ≡ answer o)
      × ((ping_from ping slept i rounds).0 + 1 ≡ power n)
unfolding ping_from
ping_from-answered ping o n d zero slept i at b h f e ne = absurd (omega (arith, b))
ping_from-answered ping o n zero (suc rounds) slept i at b h f e ne =
    let same : n ≡ i = omega (arith, at) in
    let here : ping i ≡ o = subst (λ m. ping m ≡ o) same e in
    found o here ne (h ∙ ap power (sym same))
  where
    found :
        (o : Ping)
        → ping i ≡ o
        → o ≢ connection_error
        → slept + pause i + 1 ≡ power n
        → ((ping_from ping slept i (suc rounds)).1 ≡ answer o)
          × ((ping_from ping slept i (suc rounds)).0 + 1 ≡ power n)
    found connection_error e ne h = absurd (ne refl)
    found other_error e ne h = rw (e, ping_from) (refl, h)
    found (answered none) e ne h = rw (e, ping_from) (refl, h)
    found (answered (some r)) e ne h = rw (e, ping_from) (refl, h)
ping_from-answered ping o n (suc d) (suc rounds) slept i at b h f e ne =
    let first = f i (omega arith) (omega (arith, at)) in
    rw (first, ping_from)
      (ping_from-answered ping o n d rounds (slept + pause i) (suc i) (omega (arith, at))
        (omega (arith, b)) (slept_next slept i h) (λ j k. f j (omega (arith, k))) e ne)

ping_from-unanswered :
    (ping : ℕ → Ping) (n rounds slept i : ℕ)
    → n ≡ rounds + i
    → slept + pause i + 1 ≡ power i
    → ((j : ℕ) → i ≤ j → j ≤ n → ping j ≡ connection_error)
    → ((ping_from ping slept i (suc rounds)).1 ≡ some [])
      × ((ping_from ping slept i (suc rounds)).0 + 1 ≡ power n)
unfolding ping_from
ping_from-unanswered ping n zero slept i at h f =
    let same : i ≡ n = omega (arith, at) in
    rw (f i (omega arith) (omega (arith, at)), ping_from) (refl, h ∙ ap power same)
ping_from-unanswered ping n (suc rounds) slept i at h f =
    let first = f i (omega arith) (omega (arith, at)) in
    rw (first, ping_from)
      (ping_from-unanswered ping n rounds (slept + pause i) (suc i) (omega (arith, at))
        (slept_next slept i h) (λ j k. f j (omega (arith, k))))

-- The first ping that does not raise `ConnectionError`, among the first try and the retries, decides:
-- its answer gives the replies, and another exception goes through, after waits of 2 ^ k - 1 quarters
-- of a second when k tries failed before. When every try raises `ConnectionError` there are no
-- replies, after waits of 2 ^ retries - 1 quarters.
pub ping_workers_lem :
    (ping : ℕ → Ping) (retries : ℕ)
    → ((k : ℕ) (o : Ping)
        → k ≤ retries
        → ((j : ℕ) → j < k → ping j ≡ connection_error)
        → ping k ≡ o
        → o ≢ connection_error
        → ((ping_workers ping retries).1 ≡ answer o)
          × ((ping_workers ping retries).0 + 1 ≡ power k))
      × (((j : ℕ) → j ≤ retries → ping j ≡ connection_error)
          → ((ping_workers ping retries).1 ≡ some [])
            × ((ping_workers ping retries).0 + 1 ≡ power retries))
unfolding ping_workers
ping_workers_lem ping retries = (
  λ k o b f e ne. rw one (
      ping_from-answered ping o k k (suc retries) 0 0 (omega arith) (omega (arith, b)) refl
        (λ j l. f j) e ne),
  λ f. rw one (ping_from-unanswered ping retries retries 0 0 (omega arith) refl (λ j l. f j)),
)
  where
    one : retries + 1 ≡ suc retries
    one = omega arith
