-- ===== src/Cleanup/Expiry.antt =====
-- Which requests the job marks as stale.
use cachito.Base.{
  ℕ, ◌≡◌, refl, ap, subst, ◌∙◌, inl, inr, Bool, true, false, ◌&&◌, Option, none, some,
  some-injective, List, [], ◌∷◌, ◌++◌, map, contains, nat_eq, list_eq, filter, if◌then◌else◌, All,
  ◌⊎◌, equalities, ◌+◌, ◌*◌, ◌<◌, ◌==◌, arith, ltb, append-nil, append_assoc, Bool-cases,
  Option-cases,
}
use cachito.Base.Text.{Text, text}
use cachito.Cleanup.{
  Request, Reply, unreachable, answered, Settings, is_expired, day, states, Marked,
  identify_and_mark_stale_requests, Page, Search, found, network_error, pending,
  find_all_requests_in_state, mark_states, main,
}

abbrev pub IsIn : Request → List Request → Type 0
IsIn r [] = ⊥
IsIn r (x ∷ rs) = (r ≡ x) ⊎ IsIn r rs

All-IsIn : (Q : Request → Type 0) (rs : List Request) → ((r : Request) → IsIn r rs → Q r) → All Q rs
All-IsIn Q [] f = tt
All-IsIn Q (r ∷ rs) f = (f r (inl refl), All-IsIn Q rs (λ x i. f x (inr i)))

module _ (patch : ℕ → Reply) (parse : Text → Option ℕ) (config : Settings) where
  -- The lifetime of the request's state, in days.
  abbrev pub due : Request → ℕ
  due r =
      if r.state == text "failed" then config.request_lifetime_failed else config.request_lifetime

  -- A request of a state that ends, with a time that can be read, beyond its lifetime.
  abbrev pub is_stale : ℕ → Request → Bool
  is_stale now r =
      contains states r.state
      && elim (parse r.updated) [ none ↦ false | some u ↦ ltb (u + due r * day) now ]

  -- A request that failed, or that is complete or in progress, and whose time is before `now` by more
  -- than the lifetime of failed requests, or of the others.
  abbrev pub IsBeyond : ℕ → Request → Type 0
  IsBeyond now r =
      (u : ℕ) × (parse r.updated ≡ some u)
      × ((r.state ≡ text "failed") × (u + config.request_lifetime_failed * day < now)
          ⊎ ((r.state ≡ text "complete") ⊎ (r.state ≡ text "in_progress"))
            × (u + config.request_lifetime * day < now))

  named :
      (s : Text)
      → contains states s ≡ true
      → (s ≡ text "failed")
        ⊎ ((s ≡ text "failed" → ⊥) × ((s ≡ text "complete") ⊎ (s ≡ text "in_progress")))
  named s h = elim (Bool-cases (s == text "failed")) [
    | inl e ↦ inl (ground (arith, e))
    | inr e ↦ inr (
      λ q. ground (arith, e),
      elim (Bool-cases (s == text "complete")) [
        | inl c ↦ inl (ground (arith, c))
        | inr c ↦ inr (ground (arith, h, e, c))
      ],
    )
  ]

  is_stale-IsBeyond : (now : ℕ) (r : Request) → is_stale now r ≡ true → IsBeyond now r
  is_stale-IsBeyond now r h = elim (Option-cases (parse r.updated)) [
    | inl e ↦ absurd (go (contains states r.state) (rw e at h))
    | inr (u, e) ↦
        let (known, expired) =
          both (contains states r.state) (is_expired config now r.state u) (rw e at h) in
        (
          u,
          e,
          elim (named r.state known) [
            | inl f ↦ inl (f, ground (arith, f, expired))
            | inr (f, c) ↦ inr (c, ground (arith, f, expired))
          ],
        )
  ]
    where
      both : (a b : Bool) → (a && b) ≡ true → (a ≡ true) × (b ≡ true)
      both a b h = (ground arith, ground arith)

      go : (a : Bool) → (a && false) ≡ true → ⊥
      go a h = ground arith

  All-append_one {κ} :
      (P : ℕ → Type κ) (is : List ℕ) (i : ℕ) → All P is → P i → All P (is ++ i ∷ [])
  All-append_one P [] i a h = (h, tt)
  All-append_one P (j ∷ js) i (b, a) h = (b, All-append_one P js i a h)

  -- Whatever the answer is, one of two ways is gone.
  by_reply {κ} :
      (Q : Marked → Type κ) (o : Reply) (a b : Marked)
      → Q a
      → Q b
      → Q (elim o [ unreachable ↦ a | answered ok ↦ b ])
  by_reply Q unreachable a b p q = p
  by_reply Q (answered ok) a b p q = q

  -- What holds of the ids of the stale requests holds of the ids that the loop marks.
  identify_and_mark-All :
      (Q : ℕ → Type 0) (now : ℕ) (done : List ℕ) (rs : List Request)
      → All (λ r. is_stale now r ≡ true → Q r.id) rs
      → All Q done
      → All Q (identify_and_mark_stale_requests patch parse config now done rs).patched
  unfolding identify_and_mark_stale_requests
  identify_and_mark-All Q now done [] a d = d
  identify_and_mark-All Q now done (r ∷ rs) (q, a) d =
      let skipped = identify_and_mark-All Q now done rs a d in
      elim (Bool-cases (contains states r.state)) [
        | inr h ↦ rw h skipped
        | inl h ↦ elim (Option-cases (parse r.updated)) [
          | inl e ↦ rw (h, e) d
          | inr (u, e) ↦ elim (Bool-cases (is_expired config now r.state u)) [
            | inr x ↦ rw (h, e, x) skipped
            | inl x ↦
                let added = All-append_one Q done r.id d (q (rw (h, e) x)) in
                rw (h, e, x)
                  (by_reply (λ m. All Q m.patched) (patch r.id)
                    (record { patched = done ++ r.id ∷ []; raised = true })
                    (identify_and_mark_stale_requests patch parse config now (done ++ r.id ∷ []) rs)
                    added (identify_and_mark-All Q now (done ++ r.id ∷ []) rs a added))
          ]
        ]
      ]

  -- The time of every request in one of the three states can be read.
  abbrev pub Readable : List Request → Type 0
  Readable = All (λ r. contains states r.state ≡ true → (u : ℕ) × (parse r.updated ≡ some u))

  abbrev pub stale_ids : ℕ → List Request → List ℕ
  stale_ids now rs = map (λ r. r.id) (filter (is_stale now) rs)

  -- When the API can be reached and the times can be read, the loop marks exactly the requests that
  -- are complete, in progress or failed and older than the lifetime of their state, in their order,
  -- also when the API refuses some of them, and it does not raise.
  pub identify_and_mark_stale_requests_lem :
      (now : ℕ) (done : List ℕ) (rs : List Request)
      → ((i : ℕ) → (ok : Bool) × (patch i ≡ answered ok))
      → Readable rs
      → identify_and_mark_stale_requests patch parse config now done rs
        ≡ record { patched = done ++ stale_ids now rs; raised = false }
  unfolding identify_and_mark_stale_requests
  identify_and_mark_stale_requests_lem now done [] reach a = rw (append-nil done) refl
  identify_and_mark_stale_requests_lem now done (r ∷ rs) reach (f, a) =
      let skipped = identify_and_mark_stale_requests_lem now done rs reach a in
      elim (Bool-cases (contains states r.state)) [
        | inr h ↦ rw h skipped
        | inl h ↦
            let (u, e) = f h in
            elim (Bool-cases (is_expired config now r.state u)) [
              | inr x ↦ rw (h, e, x) skipped
              | inl x ↦
                  let (ok, sent) = reach r.id in
                  let added = done ++ r.id ∷ [] in
                  rw (h, e, x, sent)
                    (identify_and_mark_stale_requests_lem now added rs reach a
                      ∙ ap (λ (is : List ℕ). record { patched = is; raised = false })
                          (append_assoc done (r.id ∷ []) (stale_ids now rs)))
            ]
      ]

  module _ (get : Text → Text → Page) (now : Text → ℕ) (fuel : ℕ) (url : Text) where
    -- The request that one of the job's searches returned, and that is beyond its lifetime at the
    -- time that the job read after that search.
    abbrev pub IsFound : ℕ → Type 0
    IsFound i =
        (s : Text) × (rs : List Request) × (r : Request) × (contains states s ≡ true)
        × (find_all_requests_in_state (get s) fuel url ≡ found rs)
        × IsIn r rs
        × (r.id ≡ i)
        × IsBeyond (now s) r

    mark_states-IsFound :
        (done : List ℕ) (ss : List Text) (m : Marked)
        → All (λ s. contains states s ≡ true) ss
        → All IsFound done
        → mark_states get patch parse config now fuel url done ss ≡ some m
        → All IsFound m.patched
    unfolding mark_states
    mark_states-IsFound done [] m a d e =
        subst (λ m. All IsFound m.patched)
          (some-injective (record { patched = done; raised = false }) m e) d
    mark_states-IsFound done (s ∷ ss) m (known, a) d e =
        go (λ next b. mark_states-IsFound next ss m a b)
          (find_all_requests_in_state (get s) fuel url) refl e
      where
        marked : List Request → Marked
        marked rs = identify_and_mark_stale_requests patch parse config (now s) done rs

        onward : Marked → Option Marked
        onward n = mark_states get patch parse config now fuel url n.patched ss

        choose :
            (b : Bool) (n : Marked)
            → All IsFound n.patched
            → (onward n ≡ some m → All IsFound m.patched)
            → (if b then some n else onward n) ≡ some m
            → All IsFound m.patched
        choose true n b k h = subst (λ n. All IsFound n.patched) (some-injective n m h) b
        choose false n b k h = k h

        go :
            ((next : List ℕ)
              → All IsFound next
              → mark_states get patch parse config now fuel url next ss ≡ some m
              → All IsFound m.patched)
            → (o : Search) → find_all_requests_in_state (get s) fuel url ≡ o
            → elim o [
              | pending ↦ none
              | network_error ↦ some (record { patched = done; raised = true })
              | found rs ↦ (if (marked rs).raised then some (marked rs) else onward (marked rs))
            ]
              ≡ some m
            → All IsFound m.patched
        go again pending q h = cc
        go again network_error q h =
            subst (λ m. All IsFound m.patched)
              (some-injective (record { patched = done; raised = true }) m h) d
        go again (found rs) q h =
            let b =
              identify_and_mark-All IsFound (now s) done rs
                (All-IsIn (λ r. is_stale (now s) r ≡ true → IsFound r.id) rs
                  (λ r i stale. (s, rs, r, known, q, i, refl, is_stale-IsBeyond (now s) r stale)))
                d in
            choose (marked rs).raised (marked rs) b (again (marked rs).patched b) h

    -- However the API answers and wherever the job stops, it sends the state stale only for requests
    -- that its search for one of the three states returned, and that were complete, in progress or
    -- failed and, at the time that the job read after that search, older than the lifetime of their
    -- state.
    pub main_lem :
        (m : Marked) → main get patch parse config now fuel url ≡ some m → All IsFound m.patched
    unfolding main equalities
    main_lem m e = mark_states-IsFound [] states m (refl, (refl, (refl, tt))) tt e
