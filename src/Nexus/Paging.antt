-- ===== src/Nexus/Paging.antt =====
-- The search ends where Nexus stops to give continuation tokens.
use cachito.Base.{
  ℕ, zero, suc, ◌≤◌, ◌≡◌, refl, ap, ◌∙◌, Bool, true, false, some, List, [], ◌∷◌, ◌++◌, append_assoc,
  arith, length, if◌then◌else◌,
}
use cachito.Base.Text.{Text, is_empty}
use cachito.Base.Result.{ok}
use cachito.Nexus.{Component, Answer, page, search_pages, search_components}

-- The pages that Nexus serves from a token on: one, and others as long as a token comes with it.
abbrev pub Serves : (Text → Answer) → Text → List Component → List (List Component) → Type 0
Serves get token items [] = (next : Text) × (is_empty next ≡ true) × (get token ≡ page items next)
Serves get token items (more ∷ pages) =
    (next : Text) × (is_empty next ≡ false)
    × (get token ≡ page items next)
    × Serves get next more pages

abbrev pub all_items : List Component → List (List Component) → List Component
all_items items [] = items
all_items items (more ∷ pages) = items ++ all_items more pages

-- One page.
search_pages-page :
    (fuel : ℕ) (get : Text → Answer) (token next : Text) (items found : List Component)
    → get token ≡ page items next
    → search_pages (suc fuel) get token found ≡ (
        if is_empty next
        then some (ok (found ++ items))
        else search_pages fuel get next (found ++ items))
unfolding search_pages
search_pages-page fuel get token next items found h = rw (h, search_pages) refl

search_pages_lem :
    (fuel : ℕ) (get : Text → Answer) (token : Text) (items : List Component)
    (pages : List (List Component)) (found : List Component)
    → suc (length pages) ≤ fuel
    → Serves get token items pages
    → search_pages fuel get token found ≡ some (ok (found ++ all_items items pages))
search_pages_lem zero get token items pages found h s = absurd (ground (arith, h))
search_pages_lem (suc fuel) get token items [] found h (next, e, p) =
    search_pages-page fuel get token next items found p
    ∙ ap
        (λ (b : Bool).
          if b then some (ok (found ++ items)) else search_pages fuel get next (found ++ items))
        e
search_pages_lem (suc fuel) get token items (more ∷ pages) found h (next, e, p, s) =
    search_pages-page fuel get token next items found p
    ∙ ap
        (λ (b : Bool).
          if b then some (ok (found ++ items)) else search_pages fuel get next (found ++ items))
        e
    ∙ search_pages_lem fuel get next more pages (found ++ items) (ground (arith, h)) s
    ∙ ap (λ cs. some (ok cs)) (append_assoc found items (all_items more pages))

-- If Nexus serves a number of pages, each but the last with a token, the search with fuel for so many
-- returns the items of all of them, in order.
pub search_components_lem :
    (fuel : ℕ) (get : Text → Answer) (items : List Component) (pages : List (List Component))
    → suc (length pages) ≤ fuel
    → Serves get [] items pages
    → search_components fuel get ≡ some (ok (all_items items pages))
unfolding search_components
search_components_lem fuel get items pages h s = search_pages_lem fuel get [] items pages [] h s
