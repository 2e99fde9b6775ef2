-- ===== src/Requests/Patch/Twice.antt =====
-- A patch that is made twice, as by a task that is run twice.
use cachito.Base.{
  ◌≡◌, refl, sym, ap, ◌∙◌, true, false, Option, none, some, List, [], ◌∷◌, ◌++◌, arith, contains,
  contains-append, nat_eq, list_eq, option_eq, if◌then◌else◌, Bool-cases, Option-cases, inl, inr,
}
use cachito.Base.Text.{text}
use cachito.Base.Json.{Json, Fields, end, field, get}
use cachito.Requests.Patch.{
  Request, EnvVar, env_var_eq, env_var, Volume, Patched, Effect, error_exists, sets_state,
  change_state, add_env_vars, update_row, patch, fields_at, fails, error_data, given, set_error,
  origin_of_name, text_at, commit_row, set_counts, set_env_vars, Check, cleanup,
}
use cachito.Requests.Patch.Atomic.{
  IsAt, change_state-same, patch_state-eq, patch-eq-patch_state, patch_without, patch_stateless,
  patch_state-cases, patch-IsAt, commit_row-cases,
}

-- Adding variables that are there already adds nothing.
AllIn : Fields → List EnvVar → Type 0
AllIn end vars = Unit
AllIn (field name info fs) vars = (contains vars (env_var name info) ≡ true) × AllIn fs vars

add_env_vars-keeps :
    (fs : Fields) (vars : List EnvVar) (e : EnvVar)
    → contains vars e ≡ true
    → contains (add_env_vars fs vars) e ≡ true
unfolding add_env_vars
add_env_vars-keeps end vars e h = h
add_env_vars-keeps (field name info fs) vars e h =
    add_env_vars-keeps fs
      (if contains vars (env_var name info) then vars else vars ++ env_var name info ∷ []) e
      (ground (arith, contains-append vars (env_var name info ∷ []) e))

add_env_vars-AllIn : (fs : Fields) (vars : List EnvVar) → AllIn fs (add_env_vars fs vars)
unfolding AllIn add_env_vars
add_env_vars-AllIn end vars = tt
add_env_vars-AllIn (field name info fs) vars =
    let more = if contains vars (env_var name info) then vars else vars ++ env_var name info ∷ [] in
    (
      add_env_vars-keeps fs more (env_var name info)
          (ground (arith, contains-append vars (env_var name info ∷ []) (env_var name info))),
      add_env_vars-AllIn fs more,
    )

add_env_vars_of_AllIn :
    (fs : Fields) (vars : List EnvVar) → AllIn fs vars → add_env_vars fs vars ≡ vars
unfolding AllIn add_env_vars
add_env_vars_of_AllIn end vars a = refl
add_env_vars_of_AllIn (field name info fs) vars (h, a) = rw h (add_env_vars_of_AllIn fs vars a)

add_env_vars_twice :
    (fs : Fields) (vars : List EnvVar)
    → add_env_vars fs (add_env_vars fs vars) ≡ add_env_vars fs vars
add_env_vars_twice fs vars =
    add_env_vars_of_AllIn fs (add_env_vars fs vars) (add_env_vars-AllIn fs vars)

given_twice : (o old : Option Json) → given o (given o old) ≡ given o old
given_twice none old = refl
given_twice (some value) old = refl

-- What the database does with the error of a payload.
module _ (payload : Fields) where
  set_error_plain : (r : Request) → fails payload ≡ false → set_error payload r ≡ (r, none)
  unfolding set_error
  set_error_plain r h = rw (h, set_error)

  -- An error is accepted once: the same payload is refused on a row that has an error.
  set_error_again :
      (r x : Request)
      → fails payload ≡ true
      → (set_error payload x).1 ≡ none
      → r.error ≡ (set_error payload x).0.error
      → (set_error payload r).1 ≡ some error_exists
  unfolding set_error
  set_error_again r x h fine kept =
      elim (Option-cases (origin_of_name (text_at (text "error_origin") payload))) [
        | inl unknown ↦ cc (rw (h, unknown, set_error) at fine)
        | inr (origin, known) ↦ elim (Option-cases x.error) [
          | inr (e, second) ↦ cc (rw (h, known, second, set_error) at fine)
          | inl first ↦
              let error : r.error ≡ some (error_data origin payload) =
                rw (h, known, first, set_error) at kept in
              rw (h, known, error, set_error)
        ]
      ]

  update_row-error : (r : Request) → (update_row payload r).error ≡ (set_error payload r).0.error
  unfolding update_row
  update_row-error r = refl

  abbrev plain : Request → Request
  plain r = set_counts payload (set_env_vars payload r)

  plain_twice : (r : Request) → plain (plain r) ≡ plain r
  unfolding set_counts set_env_vars
  plain_twice r = λ i. record {
    history = r.history;
    pkg_managers = r.pkg_managers;
    environment_variables =
        add_env_vars_twice (fields_at (text "environment_variables") payload)
          r.environment_variables i;
    error = r.error;
    packages_count = given_twice (get (text "packages_count") payload) r.packages_count i;
    dependencies_count =
        given_twice (get (text "dependencies_count") payload) r.dependencies_count i;
  }

  update_row-plain : (r : Request) → fails payload ≡ false → update_row payload r ≡ plain r
  unfolding update_row
  update_row-plain r h = ap (λ (z : Request × Check). plain z.0) (set_error_plain r h)

  -- Without an error to add, a second update changes nothing.
  update_row_twice :
      (r : Request)
      → fails payload ≡ false
      → update_row payload (update_row payload r) ≡ update_row payload r
  update_row_twice r h =
      update_row-plain (update_row payload r) h
      ∙ ap plain (update_row-plain r h)
      ∙ plain_twice r
      ∙ sym (update_row-plain r h)

-- A patch that comes to the end of its transaction without a new state.
abbrev Settles : Volume → Fields → Request → Type 0
Settles v payload r =
    (before : List Effect) × (after : List Effect) × (patch v payload r
      ≡ commit_row payload before after r r)

-- A row that is at the state of the payload already comes to the end of the transaction as it was.
IsAt-Settles :
    (v : Volume) (payload : Fields) (r : Request)
    → sets_state payload ≡ true
    → IsAt r payload
    → Settles v payload r
IsAt-Settles v payload r sets (s, now, name, reason) =
    let (unchanged, fine) = change_state-same r s payload now (ground arith) in
    let effects = (change_state r s payload).effects in
    (
      effects,
      cleanup v r s payload,
      patch-eq-patch_state v payload r s sets now
          ∙ patch_state-eq v payload r s fine
          ∙ ap (commit_row payload effects (cleanup v r s payload) r) unchanged,
    )

-- An accepted patch leaves a row that some row without a conflict was updated to.
patch-Settles :
    (v : Volume) (payload : Fields) (r : Request)
    → (patch v payload r).raised ≡ none
    → Settles v payload (patch v payload r).request
      × ((x : Request) × ((set_error payload x).1 ≡ none)
          × ((patch v payload r).request ≡ update_row payload x))
patch-Settles v payload r fine = elim (Bool-cases (sets_state payload)) [
  | inr without ↦ (
    ([], [], patch_without v payload (patch v payload r).request without),
    elim (commit_row-cases payload [] [] r r) [
      | inl (e, bad, same') ↦
          cc (fine, ap (λ (p : Patched). p.raised) (patch_without v payload r without ∙ same'))
      | inr (free, same') ↦
          (r, free, ap (λ (p : Patched). p.request) (patch_without v payload r without ∙ same'))
    ],
  )
  | inl sets ↦ elim (Option-cases r.history.state) [
    | inl nothing ↦ absurd (patch_stateless v payload r sets nothing fine)
    | inr (old, now) ↦
        let e = patch-eq-patch_state v payload r old sets now in
        (
          elim (patch-IsAt v payload r old sets now) [
            | inl (bad, kept) ↦ absurd (bad fine)
            | inr (_, at) ↦ IsAt-Settles v payload (patch v payload r).request sets at
          ],
          elim (patch_state-cases v payload r old) [
            | inl (kept, bad) ↦ absurd (bad (ap (λ (p : Patched). p.raised) (sym e) ∙ fine))
            | inr (_, free, made, _) ↦ (
              (change_state r old payload).request,
              free,
              ap (λ (p : Patched). p.request) e ∙ made,
            )
          ],
        )
  ]
]

commit_row_twice :
    (payload : Fields) (before after : List Effect) (r x : Request)
    → (set_error payload x).1 ≡ none
    → r ≡ update_row payload x
    → let p = commit_row payload before after r r in
      (p.request ≡ r)
      × (fails payload ≡ false → p.raised ≡ none)
      × (fails payload ≡ true → p.raised ≡ some error_exists)
commit_row_twice payload before after r x free made =
    elim (commit_row-cases payload before after r r) [
      | inl (e, bad, same') ↦ rw same' (
        refl,
        λ plain_payload.
            cc (bad, ap (λ (z : Request × Check). z.1) (set_error_plain payload r plain_payload)),
        λ failing. sym bad ∙ again failing,
      )
      | inr (fine, same') ↦ rw same' (
        elim (Bool-cases (fails payload)) [
          | inl failing ↦ cc (fine, again failing)
          | inr plain_payload ↦
              ap (update_row payload) made ∙ update_row_twice payload x plain_payload ∙ sym made
        ],
        λ plain_payload. refl,
        λ failing. cc (fine, again failing),
      )
    ]
  where
    again : fails payload ≡ true → (set_error payload r).1 ≡ some error_exists
    again failing =
        set_error_again payload r x failing free
          (ap (λ (y : Request). y.error) made ∙ update_row-error payload x)

-- An accepted patch changes nothing in the row when it is made a second time: the states, the error,
-- the variables and the counts stay as they are. The second patch is accepted, unless it adds an error:
-- then the database refuses it, since the request has an error.
pub patch_twice :
    (v : Volume) (payload : Fields) (r : Request)
    → (patch v payload r).raised ≡ none
    → let once = (patch v payload r).request in
      ((patch v payload once).request ≡ once)
      × (fails payload ≡ false → (patch v payload once).raised ≡ none)
      × (fails payload ≡ true → (patch v payload once).raised ≡ some error_exists)
patch_twice v payload r fine =
    let ((before, after, ended), (x, free, made)) = patch-Settles v payload r fine in
    rw ended (commit_row_twice payload before after (patch v payload r).request x free made)
