-- ===== src/Status/Availability.antt =====
-- What the status says of package managers, pings and services.
use cachito.Base.{
  ℕ, ◌≡◌, refl, sym, ap, subst, ◌∙◌, ◌⊎◌, inl, inr, ◌↔◌, Bool, true, false, not, ◌&&◌, ◌||◌, none,
  some, List, [], ◌∷◌, ◌++◌, map, arith, contains, nat_eq, list_eq, any, all, if◌then◌else◌,
  append-nil, append_assoc, Bool-cases, Option, Option-cases, some-injective,
}
use cachito.Base.Text.{Text, text}
use cachito.Base.Dict.{Dict, lookup, insert, lookup-insert}
use cachito.Status.{
  Probe, Service, Worker, Report, Environment, Outcome, ok, error, StatusError, worker_config_error,
  no_workers, requires, meet, failing_services, dict_into, dict_of, can_process, probes, service_of,
  reached, report_workers, ping_error, add_statuses, report_on, status,
}

lookup-dict_into :
    (d : Dict Text Bool) (f : Text → Bool) (ns : List Text) (k : Text)
    → lookup k (dict_into d f ns) ≡ (if contains ns k then some (f k) else lookup k d)
unfolding dict_into
lookup-dict_into d f [] k = refl
lookup-dict_into d f (n ∷ ns) k =
    ground (arith, lookup-dict_into (insert n (f n) d) f ns k, lookup-insert k n (f n) d)

meet-cons : (a b : List Text) (x : Text) → meet a (x ∷ b) ≡ (contains a x || meet a b)
meet-cons [] b x = refl
meet-cons (y ∷ a) b x = ground (arith, meet-cons a b x)

meet_nil : (a : List Text) → meet a [] ≡ false
meet_nil [] = refl
meet_nil (x ∷ a) = meet_nil a

-- No service of the list is down.
abbrev pub up : List Text → List Service → Bool
up names services = all (λ s. s.ok || not (contains names s.name)) services

meet-failing_services :
    (a : List Text) (services : List Service)
    → meet a (failing_services services) ≡ not (up a services)
meet-failing_services a [] = meet_nil a
meet-failing_services a (s ∷ services) = elim (Bool-cases s.ok) [
  | inl h ↦ ground (arith, meet-failing_services a services)
  | inr h ↦
      ground
        (arith, meet-cons a (failing_services services) s.name, meet-failing_services a services)
]

-- A package manager is reported exactly if it was asked for, and it can process requests exactly if
-- some worker is fine and every service that it or all package managers need is up.
pub can_process_lem :
    (pkg_managers : List Text) (services : List Service) (any_worker_ok : Bool) (m : Text)
    → lookup m (can_process pkg_managers services any_worker_ok) ≡ (
        if contains pkg_managers m
        then some (any_worker_ok && up (requires (text "*")) services && up (requires m) services)
        else none)
unfolding can_process dict_of lookup
can_process_lem pkg_managers services any_worker_ok m =
    let all_need = requires (text "*") in
    let failing = failing_services services in
    elim (Bool-cases (not any_worker_ok || meet all_need failing)) [
      | inl h ↦ rw h (
          lookup-dict_into [] (λ n. false) pkg_managers m
          ∙ ap (λ (b : Bool). if contains pkg_managers m then some b else none)
              (blocked any_worker_ok (meet all_need failing) (up all_need services)
                (up (requires m) services) h (meet-failing_services all_need services)))
      | inr h ↦ rw h (
          lookup-dict_into [] (λ n. not (meet (requires n) failing)) pkg_managers m
          ∙ ap (λ (b : Bool). if contains pkg_managers m then some b else none)
              (open_ any_worker_ok (meet all_need failing) (up all_need services)
                (meet (requires m) failing) (up (requires m) services) h
                (meet-failing_services all_need services)
                (meet-failing_services (requires m) services)))
    ]
  where
    blocked : (w f u v : Bool) → (not w || f) ≡ true → f ≡ not u → false ≡ (w && u && v)
    blocked w f u v h k = ground arith

    open_ :
        (w f u g v : Bool) → (not w || f) ≡ false → f ≡ not u → g ≡ not v → not g ≡ (w && u && v)
    open_ w f u g v h k l = ground arith

add_statuses-long :
    (ps : List (Text × Probe)) (services : List Service)
    → add_statuses false ps services ≡ inl (services ++ map service_of ps)
unfolding add_statuses
add_statuses-long [] services = ap inl (sym (append-nil services))
add_statuses-long (p ∷ ps) services =
    add_statuses-long ps (services ++ service_of p ∷ [])
    ∙ ap inl (append_assoc services (service_of p ∷ []) (map service_of ps))

add_statuses-short :
    (ps : List (Text × Probe)) (services : List Service)
    → ((all (λ s. s.ok) (map service_of ps) ≡ true)
        × (add_statuses true ps services ≡ inl (services ++ map service_of ps)))
      ⊎ ((all (λ s. s.ok) (map service_of ps) ≡ false)
          × (e : StatusError) × (add_statuses true ps services ≡ inr e))
unfolding add_statuses
add_statuses-short [] services = inl (refl, ap inl (sym (append-nil services)))
add_statuses-short ((n, (false, r)) ∷ ps) services = inr (refl, worker_config_error n r, refl)
add_statuses-short ((n, (true, r)) ∷ ps) services =
    let s = service_of (n, (true, r)) in
    elim (add_statuses-short ps (services ++ s ∷ [])) [
      | inl (a, e) ↦ inl (a, e ∙ ap inl (append_assoc services (s ∷ []) (map service_of ps)))
      | inr (a, x, e) ↦ inr (a, x, e)
    ]

-- The report on every service that is configured, in the order of the probes, and on workers.
abbrev pub report : Environment → List Worker → Report
report env workers =
    let services = map service_of (probes env) in
    record {
      processes = can_process env.pkg_managers services (any (λ w. w.ok) workers);
      services = services;
      workers = workers;
    }

abbrev pub IsHealthy : Report → Type 0
IsHealthy rep = (all (λ s. s.ok) rep.services ≡ true) × (any (λ w. w.ok) rep.workers ≡ true)

report_on-reached :
    (short : Bool) (retries : ℕ) (env : Environment) (services : List Service)
    (workers : List Worker)
    → reached retries env ≡ some workers
    → report_on short retries env (inl services) ≡ report_workers short env services workers
unfolding report_on
report_on-reached short retries env services workers h = rw (h, report_on)

report_on-failed :
    (short : Bool) (retries : ℕ) (env : Environment) (services : List Service)
    → reached retries env ≡ none
    → report_on short retries env (inl services) ≡ error ping_error
unfolding report_on
report_on-failed short retries env services h = rw (h, report_on)

status-failed :
    (retries : ℕ) (env : Environment)
    → reached retries env ≡ none
    → (e : StatusError) × (status true retries env ≡ error e)
unfolding status report_on
status-failed retries env h = elim (add_statuses-short (probes env) []) [
  | inr (a, x, e) ↦ (x, ap (report_on true retries env) e)
  | inl (a, e) ↦ (
    ping_error,
    ap (report_on true retries env) e
        ∙ report_on-failed true retries env (map service_of (probes env)) h,
  )
]

status-short :
    (retries : ℕ) (env : Environment) (workers : List Worker)
    → reached retries env ≡ some workers
    → (IsHealthy (report env workers) × (status true retries env ≡ ok (report env workers)))
      ⊎ ((IsHealthy (report env workers) → ⊥)
          × (e : StatusError) × (status true retries env ≡ error e))
unfolding status report_on report_workers
status-short retries env workers asked = elim (add_statuses-short (probes env) []) [
  | inr (a, x, e) ↦ inr (λ h. cc, x, ap (report_on true retries env) e)
  | inl (a, e) ↦ elim (Bool-cases (any (λ w. w.ok) workers)) [
    | inl w ↦ inl ((a, w), ap (report_on true retries env) e ∙ reported true w)
    | inr w ↦ inr (λ h. cc, no_workers, ap (report_on true retries env) e ∙ reported false w)
  ]
]
  where
    Bool-flip :
        (b : Bool)
        → (if not b then error no_workers else ok (report env workers))
          ≡ (if b then ok (report env workers) else error no_workers)
    Bool-flip true = refl
    Bool-flip false = refl

    reported :
        (b : Bool)
        → any (λ w. w.ok) workers ≡ b
        → report_on true retries env (inl (map service_of (probes env)))
          ≡ (if b then ok (report env workers) else error no_workers)
    reported b h =
        report_on-reached true retries env (map service_of (probes env)) workers asked
        ∙ ap (λ (b : Bool). if not b then error no_workers else ok (report env workers)) h
        ∙ Bool-flip b

report_of : Outcome → Report → Report
report_of (ok rep) d = rep
report_of (error e) d = d

-- What is said without `short`.
abbrev pub said : Environment → Option (List Worker) → Outcome
said env none = error ping_error
said env (some workers) = ok (report env workers)

-- Without `short` the status reports all services and the workers, and raises only where a ping raises
-- another exception than `ConnectionError`; with `short` it gives the same report if every service is
-- up and some worker is fine, and raises otherwise.
pub status_lem :
    (retries : ℕ) (env : Environment)
    → (status false retries env ≡ said env (reached retries env))
      × ((rep : Report)
          → (status true retries env ≡ ok rep) ↔ (
              (workers : List Worker) × (reached retries env ≡ some workers)
              × (rep ≡ report env workers)
              × IsHealthy rep))
unfolding status report_on report_of report_workers
status_lem retries env = (
  ap (report_on false retries env) (add_statuses-long (probes env) []) ∙ long,
  λ rep. elim (Option-cases (reached retries env)) [
    | inl h ↦ let (x, e) = status-failed retries env h in (λ p. cc, λ t. cc (h, t.1))
    | inr (workers, h) ↦ elim (status-short retries env workers h) [
      | inl (good, e) ↦
          let same : ok rep ≡ ok (report env workers) → rep ≡ report env workers =
            λ p. ap (λ o. report_of o rep) p in
          (
            λ p. let q = same (sym p ∙ e) in (workers, h, q, subst IsHealthy (sym q) good),
            λ t. e ∙ ap ok (ap (report env) (some-injective workers t.0 (sym h ∙ t.1)) ∙ sym t.2),
          )
      | inr (n, x, e) ↦ (
        λ p. cc,
        λ t. absurd (
            n (
              subst IsHealthy (t.2 ∙ ap (report env) (some-injective t.0 workers (sym t.1 ∙ h)))
                t.3)),
      )
    ]
  ],
)
  where
    long :
        report_on false retries env (inl (map service_of (probes env)))
        ≡ said env (reached retries env)
    long = elim (Option-cases (reached retries env)) [
      | inl h ↦
          report_on-failed false retries env (map service_of (probes env)) h ∙ ap (said env) (sym h)
      | inr (workers, h) ↦
          report_on-reached false retries env (map service_of (probes env)) workers h
          ∙ ap (said env) (sym h)
    ]
