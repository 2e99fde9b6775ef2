-- ===== src/Requests/History.antt =====
-- What histories `add_state` can build.
use cachito.Base.{
  ◌≡◌, ◌≢◌, ◌↔◌, refl, true, false, Option, none, some, List, [], ◌∷◌, ◌++◌, nat_eq, list_eq, inl,
  inr, Option-cases, some-injective, sym, ap, ◌∙◌, equalities, Bool-cases,
}
use cachito.Base.Text.{Text, text}
use cachito.Requests.{
  State, in_progress, complete, failed, stale, state_eq, state_name, state_of_name,
  allow_transition, RequestState, States, no_states, ok, invalid_state, transition_not_allowed,
  Added, add_state, add_known,
}

-- The life of a request: it stays in progress, then completes or fails, and at last goes stale.
pub data Step : State → State → Type 0 where
  stay : Step in_progress in_progress
  finish : Step in_progress complete
  fail : Step in_progress failed
  expire : {s : State} → s ≢ stale → Step s stale

allow→Step : (s t : State) → allow_transition s t ≡ true → Step s t
unfolding allow_transition state_eq
allow→Step in_progress in_progress h = stay
allow→Step in_progress complete h = finish
allow→Step in_progress failed h = fail
allow→Step in_progress stale h = expire (λ e. cc)
allow→Step complete in_progress h = cc
allow→Step complete complete h = cc
allow→Step complete failed h = cc
allow→Step complete stale h = expire (λ e. cc)
allow→Step failed in_progress h = cc
allow→Step failed complete h = cc
allow→Step failed failed h = cc
allow→Step failed stale h = expire (λ e. cc)
allow→Step stale in_progress h = cc
allow→Step stale complete h = cc
allow→Step stale failed h = cc
allow→Step stale stale h = cc

Step→allow : {s t : State} → Step s t → allow_transition s t ≡ true
unfolding allow_transition state_eq
Step→allow stay = refl
Step→allow finish = refl
Step→allow fail = refl
Step→allow (expire {s = in_progress} h) = refl
Step→allow (expire {s = complete} h) = refl
Step→allow (expire {s = failed} h) = refl
Step→allow (expire {s = stale} h) = absurd (h refl)

-- The table of allowed transitions is the life of a request.
pub allow_transition_iff : (s t : State) → (allow_transition s t ≡ true) ↔ Step s t
allow_transition_iff s t = (allow→Step s t, Step→allow)

-- Each state of a history is entered from the one before it by a step; the first is `in_progress`.
abbrev Follows : State → List RequestState → Type 0
Follows s [] = Unit
Follows s (r ∷ rs) = Step s r.state × Follows r.state rs

abbrev last_state : RequestState → List RequestState → RequestState
last_state r [] = r
last_state r (s ∷ rs) = last_state s rs

abbrev HistoryOf : List RequestState → Option RequestState → Type 0
HistoryOf [] s = ⊥
HistoryOf (first ∷ rs) s =
    (first.state ≡ in_progress) × Follows in_progress rs × (s ≡ some (last_state first rs))

-- A history that starts in progress, goes on by steps, and ends in the current state.
abbrev pub IsHistory : States → Type 0
IsHistory r = HistoryOf r.states r.state

-- `Request.from_json` adds the first state.
abbrev pub created : States
created =
    let first : RequestState = record {
      state = in_progress;
      state_reason = text "The request was initiated";
    } in
    record { state = some first; states = first ∷ [] }

pub add_state-created :
    add_state no_states (text "in_progress") (text "The request was initiated") ≡ ok created
unfolding add_state equalities
add_state-created = refl

Follows-append :
    (r : RequestState) (rs : List RequestState) (t : RequestState)
    → Follows r.state rs
    → Step (last_state r rs).state t.state
    → Follows r.state (rs ++ t ∷ [])
Follows-append r [] t f step = (step, tt)
Follows-append r (s ∷ rs) t (h, f) step = (h, Follows-append s rs t f step)

last_state-append :
    (r : RequestState) (rs : List RequestState) (t : RequestState) → last_state r (rs ++ t ∷ []) ≡ t
last_state-append r [] t = refl
last_state-append r (s ∷ rs) t = last_state-append s rs t

enter-IsHistory :
    (r : States) (s t : RequestState)
    → IsHistory r
    → r.state ≡ some s
    → Step s.state t.state
    → IsHistory (record { state = some t; states = r.states ++ t ∷ [] })
enter-IsHistory r s t h e step = go r.states h
  where
    go : (rs : List RequestState) → HistoryOf rs r.state → HistoryOf (rs ++ t ∷ []) (some t)
    go [] h = absurd h
    go (first ∷ rs) (start, f, now) =
        let same : s ≡ last_state first rs = some-injective s (last_state first rs) (sym e ∙ now) in
        (
          start,
          rw (← start) (Follows-append first rs t (rw start f) (rw (← same) step)),
          ap some (sym (last_state-append first rs t)),
        )

-- The request with one more state.
abbrev pub entered : States → State → Text → States
entered r t reason =
    let now : RequestState = record { state = t; state_reason = reason } in
    record { state = some now; states = r.states ++ now ∷ [] }

pub state_of_name-state_name : (t : State) → state_of_name (state_name t) ≡ some t
unfolding state_of_name state_name equalities
state_of_name-state_name in_progress = refl
state_of_name-state_name complete = refl
state_of_name-state_name failed = refl
state_of_name-state_name stale = refl

add_known_ok :
    (r : States) (s : RequestState) (t : State) (reason : Text) (o : Option RequestState)
    → o ≡ some s
    → allow_transition s.state t ≡ true
    → add_known t reason o r ≡ ok (entered r t reason)
unfolding add_known
add_known_ok r s t reason o e allowed = rw (e, allowed)

add_known_inversion :
    (r : States) (s : RequestState) (t : State) (reason : Text) (o : Option RequestState)
    {r' : States}
    → o ≡ some s
    → add_known t reason o r ≡ ok r'
    → (allow_transition s.state t ≡ true) × (r' ≡ entered r t reason)
unfolding add_known
add_known_inversion r s t reason none e h = cc
add_known_inversion r s t reason (some s') {r'} e h =
    let same : s' ≡ s = some-injective s' s e in
    elim (Bool-cases (allow_transition s.state t)) [
      | inl allowed ↦ (
        allowed,
        let a : allow_transition s'.state t ≡ true = rw same allowed in cc (rw (a, add_known) at h),
      )
      | inr refused ↦
          let a : allow_transition s'.state t ≡ false = rw same refused in
          cc (rw (a, add_known) at h)
    ]

add_state_ok :
    (r : States) (s : RequestState) (t : State) (reason : Text)
    → r.state ≡ some s
    → Step s.state t
    → add_state r (state_name t) reason ≡ ok (entered r t reason)
unfolding add_state
add_state_ok r s t reason e step =
    rw (state_of_name-state_name t, add_state)
      (add_known_ok r s t reason r.state e (Step→allow step))

pub add_state_inversion :
    (r : States) (s : RequestState) (name reason : Text) {r' : States}
    → r.state ≡ some s
    → add_state r name reason ≡ ok r'
    → (t : State) × (state_of_name name ≡ some t) × Step s.state t × (r' ≡ entered r t reason)
unfolding add_state
add_state_inversion r s name reason e h = elim (Option-cases (state_of_name name)) [
  | inl unknown ↦ cc (rw (unknown, add_state) at h)
  | inr (t, known) ↦
      let (allowed, same) =
        add_known_inversion r s t reason r.state e (rw (known, add_state) at h) in
      (t, known, allow→Step s.state t allowed, same)
]

-- A request whose current state is `s`: `add_state` accepts the name of each state that a step leads
-- to from `s` and no other name, and then appends that state and makes it the current one.
pub add_state_lem :
    (r : States) (s : RequestState) (reason : Text)
    → r.state ≡ some s
    → ((t : State) → Step s.state t → add_state r (state_name t) reason ≡ ok (entered r t reason))
      × ((name : Text) (r' : States)
          → add_state r name reason ≡ ok r'
          → (t : State) × (state_of_name name ≡ some t)
            × Step s.state t
            × (r' ≡ entered r t reason))
add_state_lem r s reason now = (
  λ t step. add_state_ok r s t reason now step,
  λ name r' e. add_state_inversion r s name reason now e,
)

pub IsHistory-state : (r : States) → IsHistory r → r.state ≢ none
IsHistory-state r h e = go r.states h
  where
    go : (rs : List RequestState) → HistoryOf rs r.state → ⊥
    go [] h = h
    go (first ∷ rs) h = cc (e, h.2)

-- A request whose history is in order keeps it so, whatever state is added to it.
pub add_state-IsHistory :
    (r : States) (name reason : Text) {r' : States}
    → IsHistory r
    → add_state r name reason ≡ ok r'
    → IsHistory r'
add_state-IsHistory r name reason {r'} h e = elim (Option-cases r.state) [
  | inl nothing ↦ absurd (IsHistory-state r h nothing)
  | inr (s, now) ↦
      let (t, known, step, same) = add_state_inversion r s name reason now e in
      rw same (enter-IsHistory r s (record { state = t; state_reason = reason }) h now step)
]

created-IsHistory : IsHistory created
created-IsHistory = (refl, tt, refl)

-- The request after an attempt to add a state: `add_state` changes nothing where it raises.
abbrev after : States → Added → States
after r (ok r') = r'
after r invalid_state = r
after r (transition_not_allowed s t) = r

after-IsHistory :
    (r : States) (a : Added)
    → IsHistory r
    → ((r' : States) → a ≡ ok r' → IsHistory r')
    → IsHistory (after r a)
after-IsHistory r (ok r') h keep = keep r' refl
after-IsHistory r invalid_state h keep = h
after-IsHistory r (transition_not_allowed s t) h keep = h

-- The states that a request goes through when these are added in turn.
pub add_states : States → List (Text × Text) → States
add_states r [] = r
add_states r ((name, reason) ∷ rest) = add_states (after r (add_state r name reason)) rest

add_states-IsHistory :
    (r : States) (l : List (Text × Text)) → IsHistory r → IsHistory (add_states r l)
unfolding add_states
add_states-IsHistory r [] h = h
add_states-IsHistory r ((name, reason) ∷ rest) h =
    add_states-IsHistory (after r (add_state r name reason)) rest (
      after-IsHistory r (add_state r name reason) h (λ r' e. add_state-IsHistory r name reason h e))

-- Whatever states are added to a new request, its history starts in progress, each state is entered
-- from the one before it by a step, and the last one is its current state.
pub add_states-created-IsHistory : (l : List (Text × Text)) → IsHistory (add_states created l)
add_states-created-IsHistory l = add_states-IsHistory created l created-IsHistory
