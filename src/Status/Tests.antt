-- ===== src/Status/Tests.antt =====
-- Runs of the status, and the theorems about it at concrete data.
use cachito.Base.{
  ℕ, zero, suc, ◌+◌, ◌<◌, ◌≤◌, ◌≡◌, ◌≢◌, refl, ◌↔◌, true, false, ◌&&◌, none, some, List, [], ◌∷◌,
  contains, nat_eq, list_eq, equalities, if◌then◌else◌,
}
use cachito.Base.Text.{Text, text}
use cachito.Base.Dict.{lookup, insert}
use cachito.Base.Order.{orders}
use cachito.Base.Sort.{sort as sort_by}
use cachito.Status.{
  Service, Environment, Report, Replies, ok, error, no_workers, worker_config_error, athens,
  database, nexus, requires, can_process, ping_workers, power, status, Ping, connection_error,
  other_error, answered, ping_error, reached, Worker,
}
use cachito.Status.Availability.{up, can_process_lem, IsHealthy, report, said, status_lem}
use cachito.Status.Pings.{answer, ping_workers_lem}

abbrev services : List Service
services =
    record { name = athens; ok = false; reason = some (text "connection failed") }
    ∷ record { name = database; ok = true; reason = none }
    ∷ []

abbrev managers : List Text
managers = text "gomod" ∷ text "npm" ∷ []

only_npm : can_process managers services true ≡ (text "gomod", false) ∷ (text "npm", true) ∷ []
unfolding can_process lookup insert equalities
only_npm = refl

can_process_lem_example : lookup (text "gomod") (can_process managers services true) ≡ (
    if contains managers (text "gomod")
    then some (true && up (requires (text "*")) services && up (requires (text "gomod")) services)
    else none)
can_process_lem_example = can_process_lem managers services true (text "gomod")

abbrev replies : Replies
replies =
    (text "w2", (text "error", text "busy") ∷ []) ∷ (text "w1", (text "ok", text "pong") ∷ []) ∷ []

-- The first two tries fail.
abbrev third : ℕ → Ping
third zero = connection_error
third (suc zero) = connection_error
third (suc (suc n)) = answered (some replies)

-- The second try raises something else.
abbrev broken : ℕ → Ping
broken zero = connection_error
broken (suc n) = other_error

waits : ping_workers third 2 ≡ (3, some replies)
unfolding ping_workers
waits = refl

goes_through : ping_workers broken 2 ≡ (1, none)
unfolding ping_workers
goes_through = refl

ping_workers_lem_example :
    ((k : ℕ) (o : Ping)
      → k ≤ 2
      → ((j : ℕ) → j < k → third j ≡ connection_error)
      → third k ≡ o
      → o ≢ connection_error
      → ((ping_workers third 2).1 ≡ answer o) × ((ping_workers third 2).0 + 1 ≡ power k))
    × (((j : ℕ) → j ≤ 2 → third j ≡ connection_error)
        → ((ping_workers third 2).1 ≡ some []) × ((ping_workers third 2).0 + 1 ≡ power 2))
ping_workers_lem_example = ping_workers_lem third 2

abbrev env : Environment
env = record {
  nexus_probe = (true, none);
  hoster_probe = none;
  athens_probe = (true, none);
  database_probe = (true, none);
  rabbitmq_probe = (true, none);
  ping = third;
  pkg_managers = managers;
}

no_answer : status true 1 env ≡ error no_workers
unfolding status lookup sort_by orders equalities
no_answer = refl

nexus_down :
    status true 1 (record env { nexus_probe = (false, some (text "503")) })
    ≡ error (worker_config_error nexus (some (text "503")))
unfolding status
nexus_down = refl

no_report : status false 2 (record env { ping = broken }) ≡ error ping_error
unfolding status
no_report = refl

status_lem_example :
    (status false 2 env ≡ said env (reached 2 env))
    × ((rep : Report)
        → (status true 2 env ≡ ok rep) ↔ (
            (workers : List Worker) × (reached 2 env ≡ some workers)
            × (rep ≡ report env workers)
            × IsHealthy rep))
status_lem_example = status_lem 2 env
