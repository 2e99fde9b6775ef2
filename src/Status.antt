-- ===== src/Status.antt =====
-- The status of the services, the workers and the package managers: cachito/web/status.py.
-- The probes of Nexus, Athens, the database, RabbitMQ and the pings are answers that are passed in.
pub mod Availability
pub mod Pings
pub mod Tests
use cachito.Base.{
  ℕ, zero, suc, Bool, true, false, not, ◌&&◌, ◌||◌, Option, none, some, List, [], ◌∷◌, ◌++◌, map,
  contains, nat_eq, list_eq, any, filter, reverse, ◌⊎◌, inl, inr, ◌+◌, if◌then◌else◌,
}
use cachito.Base.Text.{Text, text}
use cachito.Base.Dict.{Dict, is_some, lookup, insert}
use cachito.Base.Order.{nat_ord, list_ord}
use cachito.Base.Sort.{sort as sort_by}

-- What a probe returns: (ok, reason).
abbrev pub Probe : Type 0
Probe = Bool × Option Text

pub record Service : Type 0 where
  pub name : Text
  pub ok : Bool
  pub reason : Option Text

pub record Worker : Type 0 where
  pub name : Text
  pub ok : Bool
  pub reason : Option Text

pub data StatusError : Type 0 where
  worker_config_error : Text → Option Text → StatusError
  no_workers : StatusError
  -- The exception of a ping that `_ping_workers` does not catch.
  ping_error : StatusError

abbrev pub nexus : Text
nexus = text "nexus"

abbrev pub nexus_hoster : Text
nexus_hoster = text "nexus-hoster"

abbrev pub athens : Text
athens = text "athens"

abbrev pub database : Text
database = text "database"

abbrev pub rabbitmq : Text
rabbitmq = text "rabbitmq"

-- PKG_MANAGER_REQUIRES
abbrev pub pkg_manager_requires : Dict Text (List Text)
pkg_manager_requires =
    (text "gomod", athens ∷ [])
    ∷ (text "npm", nexus ∷ nexus_hoster ∷ [])
    ∷ (text "pip", nexus ∷ nexus_hoster ∷ [])
    ∷ (text "yarn", nexus ∷ nexus_hoster ∷ [])
    ∷ (text "rubygems", nexus ∷ nexus_hoster ∷ [])
    ∷ (text "*", database ∷ rabbitmq ∷ [])
    ∷ []

-- `PKG_MANAGER_REQUIRES.get(name, set())`
abbrev pub requires : Text → List Text
requires name = elim (lookup name pkg_manager_requires) [ none ↦ [] | some services ↦ services ]

-- `bool(a & b)`
abbrev pub meet : List Text → List Text → Bool
meet a b = any (contains b) a

abbrev pub failing_services : List Service → List Text
failing_services services = map (λ s. s.name) (filter (λ s. not s.ok) services)

-- A dictionary comprehension over a list of keys.
dict_into : Dict Text Bool → (Text → Bool) → List Text → Dict Text Bool
dict_into d f [] = d
dict_into d f (n ∷ ns) = dict_into (insert n (f n) d) f ns

unfoldable pub dict_of : (Text → Bool) → List Text → Dict Text Bool
unfolding dict_into
dict_of = dict_into []

unfoldable pub can_process : List Text → List Service → Bool → Dict Text Bool
unfolding dict_of
can_process pkg_managers services any_worker_ok =
    let failing = failing_services services in
    if not any_worker_ok || meet (requires (text "*")) failing
    then dict_of (λ m. false) pkg_managers
    else dict_of (λ m. not (meet (requires m) failing)) pkg_managers

abbrev pub Replies : Type 0
Replies = Dict Text (Dict Text Text)

-- What `inspect.ping()` does: it raises `ConnectionError` or another exception, or gives an answer,
-- which may be None.
pub data Ping : Type 0 where
  connection_error other_error : Ping
  answered : Option Replies → Ping

-- `2 ** j`
abbrev pub power : ℕ → ℕ
power zero = 1
power (suc j) = power j + power j

-- The sleep before round i, in quarters of a second.
abbrev pub pause : ℕ → ℕ
pause zero = 0
pause (suc j) = power j

-- The loop of `_ping_workers` from round i on, with the number of rounds left, what each round's
-- ping does, and the time slept in quarters of a second. The result is none where another exception
-- than `ConnectionError` goes through.
unfoldable pub ping_from : (ℕ → Ping) → ℕ → ℕ → ℕ → ℕ × Option Replies
ping_from ping slept i zero = (slept, some [])
ping_from ping slept i (suc rounds) =
    let slept' = slept + pause i in
    let next = ping_from ping slept' (suc i) rounds in
    elim (ping i) [
      | connection_error ↦ next
      | other_error ↦ (slept', none)
      | answered none ↦ (slept', some [])
      | answered (some replies) ↦ (slept', some replies)
    ]

unfoldable pub ping_workers : (ℕ → Ping) → ℕ → ℕ × Option Replies
unfolding ping_from
ping_workers ping retries = ping_from ping 0 0 (retries + 1)

-- The default of `reply.get("error", "unknown reason")`
abbrev pub reason_of : Option Text → Text
reason_of none = text "unknown reason"
reason_of (some e) = e

unfoldable pub worker_of : Text × Dict Text Text → Worker
worker_of (worker_name, reply) =
    let ok = is_some (lookup (text "ok") reply) in
    record {
      name = worker_name;
      ok = ok;
      reason = if ok then none else some (reason_of (lookup (text "error") reply));
    }

unfoldable pub workers_status : (ℕ → Ping) → ℕ → Option (List Worker)
unfolding ping_workers worker_of
workers_status ping retries = elim (ping_workers ping retries).1 [
  | none ↦ none
  | some replies ↦ some (map worker_of (sort_by (λ kv. kv.0) replies))
]

-- What `status` reads: the configuration and the answers of the services.
pub record Environment : Type 0 where
  pub nexus_probe : Probe
  pub hoster_probe : Option Probe
  pub athens_probe : Probe
  pub database_probe : Probe
  pub rabbitmq_probe : Probe
  pub ping : ℕ → Ping
  pub pkg_managers : List Text

pub record Report : Type 0 where
  pub processes : Dict Text Bool
  pub services : List Service
  pub workers : List Worker

pub data Outcome : Type 0 where
  ok : Report → Outcome
  error : StatusError → Outcome

-- The services in the order of the calls of `add_status`; the one of the hoster if it is configured.
abbrev pub probes : Environment → List (Text × Probe)
probes env =
    (nexus, env.nexus_probe) ∷ elim env.hoster_probe [ none ↦ [] | some p ↦ (nexus_hoster, p) ∷ [] ]
    ++ (athens, env.athens_probe)
      ∷ (database, env.database_probe)
      ∷ (rabbitmq, env.rabbitmq_probe)
      ∷ []

abbrev pub service_of : Text × Probe → Service
service_of (name, (up, reason)) = record {
  name = name;
  ok = up;
  reason = if up then none else reason;
}

-- The calls of `add_status`, one after another; the right is `WorkerConfigError`.
unfoldable pub add_statuses : Bool → List (Text × Probe) → List Service → List Service ⊎ StatusError
add_statuses short [] services = inl services
add_statuses short ((name, (up, reason)) ∷ rest) services =
    let added = add_statuses short rest (services ++ service_of (name, (up, reason)) ∷ []) in
    if short && not up then inr (worker_config_error name reason) else added

-- The workers: none are asked without RabbitMQ.
unfoldable pub reached : ℕ → Environment → Option (List Worker)
unfolding workers_status
reached worker_ping_retries env =
    if env.rabbitmq_probe.0 then workers_status env.ping worker_ping_retries else some []

-- The rest of `status`, after the services and the workers.
unfoldable pub report_workers : Bool → Environment → List Service → List Worker → Outcome
unfolding can_process
report_workers short env services workers =
    let any_worker_ok = any (λ w. w.ok) workers in
    let report : Report = record {
      processes = can_process env.pkg_managers services any_worker_ok;
      services = services;
      workers = workers;
    } in
    if short && not any_worker_ok then error no_workers else ok report

unfoldable pub report_on : Bool → ℕ → Environment → List Service ⊎ StatusError → Outcome
unfolding reached report_workers
report_on short worker_ping_retries env (inr e) = error e
report_on short worker_ping_retries env (inl services) = elim (reached worker_ping_retries env) [
  | none ↦ error ping_error
  | some workers ↦ report_workers short env services workers
]

unfoldable pub status : Bool → ℕ → Environment → Outcome
unfolding report_on add_statuses
status short worker_ping_retries env =
    report_on short worker_ping_retries env (add_statuses short (probes env) [])
