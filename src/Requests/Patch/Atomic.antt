-- ===== src/Requests/Patch/Atomic.antt =====
-- What a patch leaves in the row of its request.
use cachito.Base.{
  ◌≡◌, ◌≢◌, refl, sym, ap, subst, ◌∙◌, Bool, true, false, ◌&&◌, Option, none, some, List, [], ◌∷◌,
  ◌++◌, arith, ◌==◌, nat_eq, list_eq, option_eq, Bool-cases, Option-cases, ◌⊎◌, inl, inr,
  some-injective,
}
use cachito.Base.Text.{Text, text}
use cachito.Base.Json.{Fields}
use cachito.Requests.{
  RequestState, State, in_progress, complete, failed, stale, States, state_name, state_of_name,
  Added, add_state, ok, invalid_state, transition_not_allowed,
}
use cachito.Requests.History.{IsHistory, add_state_inversion, add_state-IsHistory, IsHistory-state}
use cachito.Requests.Patch.{
  Request, env_var_eq, Volume, Patched, PatchError, Effect, attribute_error, gauge_inc, commit,
  sets_state, new_state, new_reason, change_state, update_row, patch_state, patch, state_added,
  fails, set_error, origin_of_name, text_at, commit_row, cleanup,
}

state_name-state_of_name :
    (name : Text) (t : State) → state_of_name name ≡ some t → state_name t ≡ name
unfolding state_of_name state_name
state_name-state_of_name name in_progress h = ground arith
state_name-state_of_name name complete h = ground arith
state_name-state_of_name name failed h = ground arith
state_name-state_of_name name stale h = ground arith

-- The current state is the one that the payload asks for.
abbrev pub IsAt : Request → Fields → Type 0
IsAt r payload =
    (s : RequestState) × (r.history.state ≡ some s)
    × (state_name s.state ≡ new_state payload)
    × (s.state_reason ≡ new_reason payload)

module _ (r : Request) (old : RequestState) (payload : Fields)
    (now : r.history.state ≡ some old) where
  abbrev pub same : Bool
  same = state_name old.state == new_state payload && old.state_reason == new_reason payload

  pub change_state-same :
      same ≡ true
      → (change_state r old payload).request ≡ r × (change_state r old payload).raised ≡ none
  unfolding change_state
  change_state-same h = rw h (refl, refl)

  -- What happens where the state or its reason is new.
  abbrev Moves : Type 0
  Moves =
      (states : States) × (add_state r.history (new_state payload) (new_reason payload) ≡ ok states)
      × ((change_state r old payload).request ≡ state_added r states)
      × ((change_state r old payload).raised ≡ none)

  change_state_differs :
      (a : Added)
      → add_state r.history (new_state payload) (new_reason payload) ≡ a
      → same ≡ false
      → Moves ⊎ ((change_state r old payload).raised ≢ none)
  unfolding change_state
  change_state_differs (ok states) e h =
      inl (states, e, rw (h, e, change_state), rw (h, e, change_state))
  change_state_differs invalid_state e h = inr (rw (h, e, change_state) (λ p. cc))
  change_state_differs (transition_not_allowed s t) e h = inr (rw (h, e, change_state) (λ p. cc))

  -- A state that is set without an exception is the current one, with its reason.
  change_state-IsAt :
      (change_state r old payload).raised ≡ none → IsAt (change_state r old payload).request payload
  change_state-IsAt fine = elim (Bool-cases same) [
    | inl h ↦ rw (change_state-same h).0 (old, now, ground arith, ground arith)
    | inr h ↦
        elim (change_state_differs (add_state r.history (new_state payload) (new_reason payload))
          refl h) [
            | inr bad ↦ absurd (bad fine)
            | inl (states, e, moved, _) ↦
                let (t, known, _, made) =
                  add_state_inversion r.history old (new_state payload) (new_reason payload) now
                    e in
                rw moved (
                  unfold state_added in
                  (
                    record { state = t; state_reason = new_reason payload },
                    ap (λ (x : States). x.state) made,
                    state_name-state_of_name (new_state payload) t known,
                    refl,
                  ))
          ]
  ]

  change_state-IsHistory :
      (change_state r old payload).raised ≡ none
      → IsHistory r.history
      → IsHistory (change_state r old payload).request.history
  change_state-IsHistory fine v = elim (Bool-cases same) [
    | inl h ↦ rw (change_state-same h).0 v
    | inr h ↦
        elim (change_state_differs (add_state r.history (new_state payload) (new_reason payload))
          refl h) [
            | inr bad ↦ absurd (bad fine)
            | inl (states, e, moved, _) ↦ rw moved (
                unfold state_added in
                add_state-IsHistory r.history (new_state payload) (new_reason payload) v e)
          ]
  ]

set_error-history : (payload : Fields) (r : Request) → (set_error payload r).0.history ≡ r.history
unfolding set_error
set_error-history payload r = elim (Bool-cases (fails payload)) [
  | inr no_error ↦ rw (no_error, set_error)
  | inl error_given ↦ elim (Option-cases (origin_of_name (text_at (text "error_origin") payload))) [
    | inl unknown ↦ rw (error_given, unknown, set_error)
    | inr (origin, known) ↦ elim (Option-cases r.error) [
      | inl first ↦ rw (error_given, known, first, set_error)
      | inr (e, second) ↦ rw (error_given, known, second, set_error)
    ]
  ]
]

-- The two ways in which a transaction ends.
abbrev pub Refused : Fields → List Effect → Request → Request → Patched → Type 0
Refused payload before r changed p =
    (e : PatchError) × ((set_error payload changed).1 ≡ some e)
    × (p ≡ record { request = r; effects = before; raised = some e })

abbrev pub Accepted : Fields → List Effect → List Effect → Request → Patched → Type 0
Accepted payload before after changed p =
    ((set_error payload changed).1 ≡ none)
    × (p ≡ record {
      request = update_row payload changed;
      effects = before ++ commit ∷ after;
      raised = none;
    })

pub commit_row-cases :
    (payload : Fields) (before after : List Effect) (r changed : Request)
    → Refused payload before r changed (commit_row payload before after r changed)
      ⊎ Accepted payload before after changed (commit_row payload before after r changed)
unfolding commit_row
commit_row-cases payload before after r changed =
    elim (Option-cases (set_error payload changed).1) [
      | inl fine ↦ inr (fine, rw (fine, commit_row))
      | inr (e, bad) ↦ inl (e, bad, rw (bad, commit_row))
    ]

update_row-history : (payload : Fields) (r : Request) → (update_row payload r).history ≡ r.history
unfolding update_row
update_row-history payload r = set_error-history payload r

module _ (v : Volume) (payload : Fields) (r : Request) where
  -- What ends a patch that reaches its transaction's end.
  abbrev pub End : RequestState → Patched
  End old =
      commit_row payload (change_state r old payload).effects (cleanup v r old payload) r
        (change_state r old payload).request

  pub patch_state-eq :
      (old : RequestState)
      → (change_state r old payload).raised ≡ none
      → patch_state v payload r old ≡ End old
  unfolding patch_state
  patch_state-eq old fine = rw (fine, patch_state)

  pub patch_state-cases :
      (old : RequestState)
      → ((patch_state v payload r old).request ≡ r) × ((patch_state v payload r old).raised ≢ none)
        ⊎ ((change_state r old payload).raised ≡ none)
          × ((set_error payload (change_state r old payload).request).1 ≡ none)
          × ((patch_state v payload r old).request
              ≡ update_row payload (change_state r old payload).request)
          × ((patch_state v payload r old).raised ≡ none)
  unfolding patch_state
  patch_state-cases old = elim (Option-cases (change_state r old payload).raised) [
    | inr (e, bad) ↦ inl (rw (bad, patch_state), rw (bad, patch_state) (λ p. cc))
    | inl fine ↦
        elim (commit_row-cases payload (change_state r old payload).effects
          (cleanup v r old payload) r (change_state r old payload).request) [
            | inl (e, bad, same) ↦
                let p = patch_state-eq old fine ∙ same in
                inl
                  (ap (λ (q : Patched). q.request) p, λ n. cc (n, ap (λ (q : Patched). q.raised) p))
            | inr (none_raised, same) ↦
                let p = patch_state-eq old fine ∙ same in
                inr (
                  fine,
                  none_raised,
                  ap (λ (q : Patched). q.request) p,
                  ap (λ (q : Patched). q.raised) p,
                )
          ]
  ]

  pub patch-eq-patch_state :
      (old : RequestState)
      → sets_state payload ≡ true
      → r.history.state ≡ some old
      → patch v payload r ≡ patch_state v payload r old
  unfolding patch
  patch-eq-patch_state old sets now = rw sets (go r.history.state now)
    where
      go :
          (o : Option RequestState)
          → o ≡ some old
          → (elim o [
            | none ↦ record {
              request = r;
              effects = gauge_inc (new_state payload) ∷ [];
              raised = some attribute_error;
            }
            | some s ↦ patch_state v payload r s
          ])
            ≡ patch_state v payload r old
      go none e = cc
      go (some s) e = ap (patch_state v payload r) (some-injective s old e)

  pub patch_without : sets_state payload ≡ false → patch v payload r ≡ commit_row payload [] [] r r
  unfolding patch
  patch_without h = rw h

  pub patch_stateless :
      sets_state payload ≡ true → r.history.state ≡ none → (patch v payload r).raised ≢ none
  unfolding patch
  patch_stateless sets nothing = rw sets (go r.history.state nothing)
    where
      go :
          (o : Option RequestState)
          → o ≡ none
          → (let p : Patched = elim o [
            | none ↦ record {
              request = r;
              effects = gauge_inc (new_state payload) ∷ [];
              raised = some attribute_error;
            }
            | some s ↦ patch_state v payload r s
          ] in
              p.raised ≢ none)
      go none e = λ p. cc
      go (some s) e = cc

  -- A patch that raises leaves the row as it was; one that succeeds and sets a state makes that state
  -- and reason the current ones, by a step from the old state or because they were so already.
  pub patch-IsAt :
      (old : RequestState)
      → sets_state payload ≡ true
      → r.history.state ≡ some old
      → ((patch v payload r).raised ≢ none) × ((patch v payload r).request ≡ r)
        ⊎ ((patch v payload r).raised ≡ none) × IsAt (patch v payload r).request payload
  patch-IsAt old sets now = rw (patch-eq-patch_state old sets now) (elim (patch_state-cases old) [
    | inl (kept, bad) ↦ inl (bad, kept)
    | inr (fine, _, made, ok') ↦
        let (s, at, name, reason) = change_state-IsAt r old payload now fine in
        inr (
          ok',
          rw made (
            s,
            ap (λ (h : States). h.state)
                  (update_row-history payload (change_state r old payload).request)
                ∙ at,
            name,
            reason,
          ),
        )
  ])

  -- Whatever a patch asks for, the history of its request stays in order.
  pub patch-IsHistory : IsHistory r.history → IsHistory (patch v payload r).request.history
  patch-IsHistory h = elim (Bool-cases (sets_state payload)) [
    | inl sets ↦ elim (Option-cases r.history.state) [
      | inl nothing ↦ absurd (IsHistory-state r.history h nothing)
      | inr (old, now) ↦ rw (patch-eq-patch_state old sets now) (elim (patch_state-cases old) [
        | inl (kept, bad) ↦ rw kept h
        | inr (fine, _, made, _) ↦
            rw made (rw update_row-history (change_state-IsHistory r old payload now fine h))
      ])
    ]
    | inr without ↦ elim (commit_row-cases payload [] [] r r) [
      | inl (e, bad, same) ↦ rw (patch_without without ∙ same) h
      | inr (fine, same) ↦
          rw (patch_without without ∙ same) (subst IsHistory (sym (update_row-history payload r)) h)
    ]
  ]
