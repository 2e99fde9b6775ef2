-- ===== src/Requests/Patch/Cleanup.antt =====
-- Which files a patch removes.
use cachito.Base.{
  ◌≡◌, ◌≢◌, refl, sym, ap, ◌∙◌, Bool, true, false, not, ◌&&◌, none, some, List, [], ◌∷◌, ◌++◌, map,
  arith, ◌==◌, any, any-append, nat_eq, list_eq, option_eq, Bool-cases, Option-cases, ◌⊎◌, inl, inr,
  equalities,
}
use cachito.Base.Text.{Text, text}
use cachito.Base.Json.{Fields}
use cachito.Requests.{RequestState, State, in_progress, complete, failed, stale, state_name}
use cachito.Requests.Patch.{
  Request, Volume, Patched, Effect, commit, unlink_bundle, remove_temp, remove_logs,
  schedule_cleanup, sets_state, new_state, change_state, patch_state, patch, cleanup,
  cleanup_managers,
}
use cachito.Requests.Patch.Atomic.{
  patch-IsAt, patch-eq-patch_state, commit_row-cases, patch_state-eq, patch_without,
}

-- The effects that touch files.
abbrev pub removes : Effect → Bool
removes unlink_bundle = true
removes remove_temp = true
removes remove_logs = true
removes _ = false

abbrev pub is_unlink : Effect → Bool
is_unlink unlink_bundle = true
is_unlink _ = false

schedules_removes : (ms : List Text) → any removes (map schedule_cleanup ms) ≡ false
schedules_removes [] = refl
schedules_removes (m ∷ ms) = schedules_removes ms

schedules_unlink : (ms : List Text) → any is_unlink (map schedule_cleanup ms) ≡ false
schedules_unlink [] = refl
schedules_unlink (m ∷ ms) = schedules_unlink ms

unlink_removes : (es : List Effect) → any is_unlink es ≡ true → any removes es ≡ true
unlink_removes [] h = cc
unlink_removes (unlink_bundle ∷ es) h = refl
unlink_removes (e ∷ es) h = ground (arith, unlink_removes es)

named_in_progress : state_name in_progress ≡ text "in_progress"
unfolding state_name
named_in_progress = refl

named_failed : state_name failed ≡ text "failed"
unfolding state_name
named_failed = refl

named_stale : (t : State) → state_name t ≡ text "stale" → t ≡ stale
unfolding state_name
named_stale in_progress h = cc
named_stale complete h = cc
named_stale failed h = cc
named_stale stale h = refl

module _ (v : Volume) (payload : Fields) (r : Request) (old : RequestState) where
  -- Before the commit no file is touched.
  change_state-removes : any removes (change_state r old payload).effects ≡ false
  unfolding change_state
  change_state-removes = ground arith

  cleanup-in_progress :
      new_state payload ≡ text "in_progress" → any removes (cleanup v r old payload) ≡ false
  unfolding cleanup equalities
  cleanup-in_progress h = rw h refl

  cleanup-unlink : any is_unlink (cleanup v r old payload) ≡ (
      new_state payload == text "stale" && not (state_name old.state == text "failed") && v.archive)
  unfolding cleanup
  cleanup-unlink = ground (arith, schedules_unlink (cleanup_managers r payload))

  patch_state-effects :
      ((patch_state v payload r old).raised ≢ none)
        × ((patch_state v payload r old).effects ≡ (change_state r old payload).effects)
      ⊎ ((patch_state v payload r old).raised ≡ none)
        × ((patch_state v payload r old).effects
            ≡ (change_state r old payload).effects ++ commit ∷ cleanup v r old payload)
  unfolding patch_state
  patch_state-effects = elim (Option-cases (change_state r old payload).raised) [
    | inr (e, bad) ↦ inl (rw (bad, patch_state) (λ p. cc), rw (bad, patch_state))
    | inl fine ↦
        elim (commit_row-cases payload (change_state r old payload).effects
          (cleanup v r old payload) r (change_state r old payload).request) [
            | inl (e, bad, same) ↦
                let p = patch_state-eq v payload r old fine ∙ same in
                inl
                  (λ n. cc (n, ap (λ (q : Patched). q.raised) p), ap (λ (q : Patched). q.effects) p)
            | inr (_, same) ↦
                let p = patch_state-eq v payload r old fine ∙ same in
                inr (ap (λ (q : Patched). q.raised) p, ap (λ (q : Patched). q.effects) p)
          ]
  ]

  -- A patch that removes something went through, and what it removes is what its clean-up names.
  patch_state-removes :
      (p : Effect → Bool)
      → ((es : List Effect) → any p es ≡ true → any removes es ≡ true)
      → p commit ≡ false
      → any p (patch_state v payload r old).effects ≡ true
      → ((patch_state v payload r old).raised ≡ none) × (any p (cleanup v r old payload) ≡ true)
  patch_state-removes p weaker plain h = elim patch_state-effects [
    | inl (bad, same) ↦
        cc (weaker (change_state r old payload).effects (rw same at h), change_state-removes)
    | inr (fine, same) ↦ (
      fine,
      elim (Bool-cases (any p (change_state r old payload).effects)) [
        | inl early ↦ cc (weaker (change_state r old payload).effects early, change_state-removes)
        | inr late ↦ ground (
          arith,
          any-append p (change_state r old payload).effects (commit ∷ cleanup v r old payload),
          ap (any p) same,
        )
      ],
    )
  ]

  -- The same of a patch that sets a state, of a request in the state `old`.
  patch_from-removes :
      sets_state payload ≡ true
      → r.history.state ≡ some old
      → any removes (patch v payload r).effects ≡ true
      → ((patch v payload r).raised ≡ none)
        × ((s : RequestState) × ((patch v payload r).request.history.state ≡ some s)
            × (s.state ≢ in_progress)
            × (any is_unlink (patch v payload r).effects ≡ true
                → (s.state ≡ stale) × (v.archive ≡ true) × (old.state ≢ failed)))
  patch_from-removes sets now h = elim (patch-IsAt v payload r old sets now) [
    | inl (bad, kept) ↦ absurd (bad (ap (λ (p : Patched). p.raised) same ∙ (touched h).0))
    | inr (fine, (s, at, name, reason)) ↦ (
      fine,
      (
        s,
        at,
        λ e.
            cc
              ((touched h).1, cleanup-in_progress (sym name ∙ ap state_name e ∙ named_in_progress)),
        λ u.
            let (stale_name, archive, not_failed) = bundle (
              sym cleanup-unlink
              ∙ (patch_state-removes is_unlink unlink_removes refl
                  (ap (λ (p : Patched). any is_unlink p.effects) (sym same) ∙ u)).1) in
            (named_stale s.state (name ∙ stale_name), archive, not_failed),
      ),
    )
  ]
    where
      same : patch v payload r ≡ patch_state v payload r old
      same = patch-eq-patch_state v payload r old sets now

      bundle :
          (new_state payload == text "stale"
              && not (state_name old.state == text "failed")
              && v.archive)
            ≡ true
          → (new_state payload ≡ text "stale") × (v.archive ≡ true) × (old.state ≢ failed)
      bundle b = (ground arith, ground arith, λ e. ground (arith, ap state_name e ∙ named_failed))

      touched :
          any removes (patch v payload r).effects ≡ true
          → ((patch_state v payload r old).raised ≡ none)
            × (any removes (cleanup v r old payload) ≡ true)
      touched h =
          patch_state-removes removes (λ es p. p) refl
            (ap (λ (p : Patched). any removes p.effects) (sym same) ∙ h)

module _ (v : Volume) (payload : Fields) (r : Request) where
  -- A patch that sets no state touches no file.
  patch_without-removes :
      sets_state payload ≡ false → any removes (patch v payload r).effects ≡ false
  patch_without-removes without = elim (commit_row-cases payload [] [] r r) [
    | inl (e, _, same) ↦ rw (patch_without v payload r without ∙ same) refl
    | inr (_, same) ↦ rw (patch_without v payload r without ∙ same) refl
  ]

  patch_stateless-removes :
      sets_state payload ≡ true
      → r.history.state ≡ none
      → any removes (patch v payload r).effects ≡ false
  unfolding patch
  patch_stateless-removes sets nothing = rw (sets, nothing, patch) refl

  -- A patch that touches any file sets a state and was accepted, and leaves a request that had a state
  -- in a state other than `in_progress`. If it removes the bundle archive, that state is `stale`, the
  -- archive was there, and the state before was not `failed`.
  pub patch-removes :
      any removes (patch v payload r).effects ≡ true
      → (sets_state payload ≡ true)
        × ((patch v payload r).raised ≡ none)
        × ((old : RequestState) × (s : RequestState) × (r.history.state ≡ some old)
            × ((patch v payload r).request.history.state ≡ some s)
            × (s.state ≢ in_progress)
            × (any is_unlink (patch v payload r).effects ≡ true
                → (s.state ≡ stale) × (v.archive ≡ true) × (old.state ≢ failed)))
  patch-removes h = elim (Bool-cases (sets_state payload)) [
    | inr without ↦ cc (h, patch_without-removes without)
    | inl sets ↦ elim (Option-cases r.history.state) [
      | inl nothing ↦ cc (h, patch_stateless-removes sets nothing)
      | inr (old, now) ↦
          let (fine, (s, at, moved, unlinks)) = patch_from-removes v payload r old sets now h in
          (sets, fine, (old, s, now, at, moved, unlinks))
    ]
  ]
