-- ===== src/Cleanup/Paging.antt =====
-- The search over the pages ends with every request once.
use cachito.Base.{
  ℕ, zero, suc, ◌≤◌, ◌≡◌, refl, sym, ap, ap₂, subst, ◌∙◌, Option, none, some, List, [], ◌∷◌, ◌++◌,
  map, arith, ◌==◌, nat_eq, if◌then◌else◌, length, append_assoc, append-nil, IsNodup,
}
use cachito.Base.Text.{Text}
use cachito.Base.Dict.{
  Dict, keys, values, lookup, insert, lookup-insert, NodupKeys, insert-NodupKeys,
}
use cachito.Cleanup.{
  Request, Page, page, found, index_by_id, deduplicated, on_page, find_pages,
  find_all_requests_in_state,
}

-- The pages that a URL leads to, up to the one without a next.
pub data Chain (get : Text → Page) : Text → List (List Request) → Type 0 where
  last :
      {url : Text} {items : List Request} → get url ≡ page items none → Chain get url (items ∷ [])
  next :
      {url url' : Text} {items : List Request} {rest : List (List Request)}
      → get url ≡ page items (some url')
      → Chain get url' rest
      → Chain get url (items ∷ rest)

abbrev pub concat : List (List Request) → List Request
concat [] = []
concat (p ∷ ps) = p ++ concat ps

find_pages-Chain :
    (get : Text → Page) (fuel : ℕ) (url : Text) (pages : List (List Request)) (seen : List Request)
    → Chain get url pages
    → length pages ≤ fuel
    → find_pages get fuel (some url) seen ≡ found (deduplicated (seen ++ concat pages))
unfolding find_pages
find_pages-Chain get zero url _ seen (last e) b = absurd (omega (arith, b))
find_pages-Chain get zero url _ seen (next e c) b = absurd (omega (arith, b))
find_pages-Chain get (suc fuel) url _ seen (last {items = items} e) b =
    ap (on_page (find_pages get fuel) seen) e
    ∙ ap (λ l. found (deduplicated (seen ++ l))) (sym (append-nil items))
find_pages-Chain get (suc fuel) url _ seen (next {url' = url'} {items = items} {rest = rest} e c)
      b =
    ap (on_page (find_pages get fuel) seen) e
    ∙ find_pages-Chain get fuel url' rest (seen ++ items) c (omega (arith, b))
    ∙ ap (λ l. found (deduplicated l)) (append_assoc seen items (concat rest))

-- The last request with an id, and the first one.
abbrev pub last_with : Option Request → ℕ → List Request → Option Request
last_with seen i [] = seen
last_with seen i (r ∷ rs) = last_with (if i == r.id then some r else seen) i rs

abbrev pub find : ℕ → List Request → Option Request
find i [] = none
find i (r ∷ rs) = if i == r.id then some r else find i rs

-- Every request stands at its id.
abbrev IsKeyed : Dict ℕ Request → Type 0
IsKeyed [] = Unit
IsKeyed ((k, r) ∷ d) = (r.id ≡ k) × IsKeyed d

insert-IsKeyed : (d : Dict ℕ Request) (r : Request) → IsKeyed d → IsKeyed (insert r.id r d)
unfolding insert
insert-IsKeyed [] r k = (refl, tt)
insert-IsKeyed ((j, s) ∷ d) r (e, k) = ground (arith, insert-IsKeyed d r k)

lookup-index_by_id :
    (d : Dict ℕ Request) (rs : List Request) (i : ℕ)
    → lookup i (index_by_id d rs) ≡ last_with (lookup i d) i rs
unfolding index_by_id
lookup-index_by_id d [] i = refl
lookup-index_by_id d (r ∷ rs) i =
    lookup-index_by_id (insert r.id r d) rs i
    ∙ ap (λ (o : Option Request). last_with o i rs) (lookup-insert i r.id r d)

index_by_id-IsKeyed :
    (d : Dict ℕ Request) (rs : List Request) → IsKeyed d → IsKeyed (index_by_id d rs)
unfolding index_by_id
index_by_id-IsKeyed d [] k = k
index_by_id-IsKeyed d (r ∷ rs) k = index_by_id-IsKeyed (insert r.id r d) rs (insert-IsKeyed d r k)

index_by_id-NodupKeys :
    (d : Dict ℕ Request) (rs : List Request) → NodupKeys d → NodupKeys (index_by_id d rs)
unfolding index_by_id
index_by_id-NodupKeys d [] u = u
index_by_id-NodupKeys d (r ∷ rs) u =
    index_by_id-NodupKeys (insert r.id r d) rs (insert-NodupKeys r.id r d u)

find-values : (d : Dict ℕ Request) (i : ℕ) → IsKeyed d → find i (values d) ≡ lookup i d
unfolding lookup
find-values [] i k = refl
find-values ((j, r) ∷ d) i (e, k) = ground (arith, find-values d i k)

map-values : (d : Dict ℕ Request) → IsKeyed d → map (λ r. r.id) (values d) ≡ keys d
map-values [] k = refl
map-values ((j, r) ∷ d) (e, k) = ap₂ ◌∷◌ e (map-values d k)

IsNodup-keys : (d : Dict ℕ Request) → NodupKeys d → IsNodup (keys d)
IsNodup-keys [] u = tt
IsNodup-keys ((j, r) ∷ d) (fresh, u) = (fresh, IsNodup-keys d u)

-- When the pages from a URL on come to an end, and there is fuel for them, the search returns
-- requests with different ids, and for each id that some page has, the last request with it.
pub find_all_requests_in_state_lem :
    (get : Text → Page) (fuel : ℕ) (url : Text) (pages : List (List Request))
    → Chain get url pages
    → length pages ≤ fuel
    → (rs : List Request) × (find_all_requests_in_state get fuel url ≡ found rs)
      × IsNodup (map (λ r. r.id) rs)
      × ((i : ℕ) → find i rs ≡ last_with none i (concat pages))
unfolding find_all_requests_in_state deduplicated lookup
find_all_requests_in_state_lem get fuel url pages c b =
    let d = index_by_id [] (concat pages) in
    let k = index_by_id-IsKeyed [] (concat pages) tt in
    (
      values d,
      find_pages-Chain get fuel url pages [] c b,
      subst IsNodup (sym (map-values d k))
          (IsNodup-keys d (index_by_id-NodupKeys [] (concat pages) tt)),
      λ i. find-values d i k ∙ lookup-index_by_id [] (concat pages) i,
    )
