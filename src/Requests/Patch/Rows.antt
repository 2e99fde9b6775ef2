-- ===== src/Requests/Patch/Rows.antt =====
-- `patch_request` on the table of requests.
use cachito.Base.{
  ℕ, ◌≡◌, refl, sym, ◌∙◌, true, false, some, ◌==◌, nat_eq, Bool-cases, Option-cases, inl, inr,
  some-injective, subst,
}
use cachito.Base.Dict.{lookup, insert, lookup-insert}
use cachito.Base.Json.{Json, null, obj, Fields}
use cachito.Requests.History.{IsHistory}
use cachito.Requests.Patch.{Request, Volume, Table, validate_payload, patch, patch_request}
use cachito.Requests.Patch.Atomic.{patch-IsHistory}

-- The history of each request is in order.
abbrev pub InOrder : Table → Type 0
InOrder rows = (k : ℕ) (r : Request) → lookup k rows ≡ some r → IsHistory r.history

module _ (v : Volume) (rows : Table) (id : ℕ) where
  -- The rows of other requests are left alone.
  abbrev pub OthersKept : Table → Type 0
  OthersKept rows' = (k : ℕ) → (k == id) ≡ false → lookup k rows' ≡ lookup k rows

  insert-InOrder :
      (r : Request)
      → InOrder rows
      → IsHistory r.history
      → InOrder (insert id r rows) × OthersKept (insert id r rows)
  insert-InOrder r h hr = (
    λ k s e. elim (Bool-cases (k == id)) [
      | inl here ↦
          subst (λ (x : Request). IsHistory x.history) (some-injective r s (sym (found k here) ∙ e))
            hr
      | inr there ↦ h k s (sym (other k there) ∙ e)
    ],
    other,
  )
    where
      found : (k : ℕ) → (k == id) ≡ true → lookup k (insert id r rows) ≡ some r
      found k here = rw (lookup-insert k id r rows, here)

      other : (k : ℕ) → (k == id) ≡ false → lookup k (insert id r rows) ≡ lookup k rows
      other k there = rw (lookup-insert k id r rows, there)

  patch_request_obj :
      (payload : Fields)
      → InOrder rows
      → InOrder (patch_request v rows id (obj payload)).0
        × OthersKept (patch_request v rows id (obj payload)).0
  unfolding patch_request
  patch_request_obj payload h = elim (Option-cases (validate_payload payload)) [
    | inr (e, bad) ↦ rw (bad, patch_request) (h, λ k ne. refl)
    | inl valid ↦ elim (Option-cases (lookup id rows)) [
      | inl missing ↦ rw (valid, missing, patch_request) (h, λ k ne. refl)
      | inr (r, found) ↦
          rw (valid, found, patch_request)
            (insert-InOrder (patch v payload r).request h
              (patch-IsHistory v payload r (h id r found)))
    ]
  ]

  -- Whatever the workers send, when the history of each request is in order it stays so, and the rows
  -- of the other requests are left alone.
  pub patch_request-InOrder :
      (json : Json)
      → InOrder rows
      → InOrder (patch_request v rows id json).0 × OthersKept (patch_request v rows id json).0
  unfolding patch_request
  patch_request-InOrder (obj payload) h = patch_request_obj payload h
  patch_request-InOrder null h = (h, λ k ne. refl)
  patch_request-InOrder _ h = (h, λ k ne. refl)
