-- ===== src/Manifest/DeepSort.antt =====
-- deep_sort_icm of cachito/web/utils.py on any JSON, and generate_icm of
-- cachito/web/content_manifest.py, which calls it.
use cachito.Base.{
  ◌≡◌, refl, ap, ◌∙◌, Bool, true, false, none, some, List, [], ◌∷◌, map, nat_eq, list_eq,
  equalities, if◌then◌else◌,
}
use cachito.Base.Text.{Text, text}
use cachito.Base.Json.{Json, int, str, arr, obj, Items, nil, cons, Fields, end, field, get, has}
use cachito.Base.Order.{nat_ord, list_ord}
use cachito.Base.Result.{Result, ok, err, ◌>>=◌}
use cachito.Base.Sort.{sort, sort-map}
use cachito.Manifest.Content.{Contents}
use cachito.Manifest.Report.{deep_sort}
use cachito.Manifest.Sorted.{sorted_lists}

pub data SortError : Type 0 where
  -- `TypeError` of the last branch.
  unknown_type : SortError
  -- What the sort raises for an item that is no dictionary or has no purl.
  no_purl : SortError
  -- Some purl is not a text: what Python's order makes of it is not followed.
  purl_not_text : SortError

-- `val and isinstance(val, CONTAINER_TYPES)`
abbrev pub is_full_container : Json → Bool
is_full_container (obj end) = false
is_full_container (obj (field k v fs)) = true
is_full_container (arr nil) = false
is_full_container (arr (cons v vs)) = true
is_full_container v = false

-- `SORT_KEY_BY_PURL`
abbrev pub purl_of_item : Json → Result SortError Text
purl_of_item (obj fs) = elim (get (text "purl") fs) [ none ↦ err no_purl | some v ↦ text_of v ]
  where
    text_of : Json → Result SortError Text
    text_of (str s) = ok s
    text_of v = err purl_not_text
purl_of_item v = err no_purl

abbrev pub starts_with_purl : Items → Bool
starts_with_purl (cons (obj fs) vs) = has (text "purl") fs
starts_with_purl vs = false

abbrev pub keyed : Items → Result SortError (List (Text × Json))
keyed nil = ok []
keyed (cons v vs) = purl_of_item v >>= λ purl. keyed vs >>= λ rest. ok ((purl, v) ∷ rest)

abbrev pub to_items : List (Text × Json) → Items
to_items [] = nil
to_items (kv ∷ kvs) = cons kv.1 (to_items kvs)

-- The sort of a list that begins with a dictionary that has a purl.
unfoldable pub sort_items : Items → Result SortError Items
sort_items vs =
    if starts_with_purl vs
    then (keyed vs >>= λ kvs. ok (to_items (sort (λ kv. kv.0) kvs)))
    else ok vs

-- The element after the call, which sorts in place.
unfoldable mutual
  unfolding sort_items

  pub deep_sort_icm : Json → Result SortError Json
  deep_sort_icm (obj end) = err unknown_type
  deep_sort_icm (obj (field k v fs)) = deep_sort_fields (field k v fs) >>= λ fs'. ok (obj fs')
  deep_sort_icm (arr nil) = err unknown_type
  deep_sort_icm (arr (cons v vs)) =
      deep_sort_items (cons v vs) >>= sort_items >>= λ vs'. ok (arr vs')
  deep_sort_icm v = err unknown_type

  pub deep_sort_fields : Fields → Result SortError Fields
  deep_sort_fields end = ok end
  deep_sort_fields (field k v fs) =
      let sorted = deep_sort_icm v in
      (if is_full_container v then sorted else ok v) >>= λ v'.
      deep_sort_fields fs >>= λ fs'. ok (field k v' fs')

  pub deep_sort_items : Items → Result SortError Items
  deep_sort_items nil = ok nil
  deep_sort_items (cons v vs) =
      deep_sort_icm v >>= λ v'. deep_sort_items vs >>= λ vs'. ok (cons v' vs')

module _ {A : Type 0} (f : A → Json) where
  abbrev pub encoded : List A → Items
  encoded [] = nil
  encoded (x ∷ xs) = cons (f x) (encoded xs)

abbrev pub purl_json : Text → Json
purl_json purl = obj (field (text "purl") (str purl) end)

abbrev pub contents_json : Contents → Json
contents_json c = obj (
    field (text "purl") (str c.purl) (
      field (text "dependencies") (arr (encoded purl_json c.dependencies))
        (field (text "sources") (arr (encoded purl_json c.sources)) end)))

-- `BASE_ICM` with the contents of the image.
abbrev pub icm_of : List Contents → Json
icm_of cs = obj (
    field (text "metadata")
      (obj (
        field (text "icm_version") (int true 1) (
          field (text "icm_spec")
            (str (
              text
                "https://raw.githubusercontent.com/containerbuildsystem/atomic-reactor/f4abcfdaf8247a6b074f94fa84f3846f82d781c6/atomic_reactor/schemas/content_manifest.json"))
            (field (text "image_layer_index") (int false 1) end))))
      (field (text "image_contents") (arr (encoded contents_json cs)) end))

unfoldable pub generate_icm : List Contents → Result SortError Json
unfolding deep_sort_icm
generate_icm cs = deep_sort_icm (icm_of cs)

module _ {A : Type 0} (f : A → Json) (key : A → Text)
    (named : (x : A) → purl_of_item (f x) ≡ ok (key x)) where
  keyed-encoded : (xs : List A) → keyed (encoded f xs) ≡ ok (map (λ x. (key x, f x)) xs)
  keyed-encoded [] = refl
  keyed-encoded (x ∷ xs) = rw (named x, keyed-encoded xs) refl

  to_items-map : (xs : List A) → to_items (map (λ x. (key x, f x)) xs) ≡ encoded f xs
  to_items-map [] = refl
  to_items-map (x ∷ xs) = ap (cons (f x)) (to_items-map xs)

  -- A list of items with purls is put into the order of the purls.
  sort_items-encoded :
      (x : A) (xs : List A)
      → starts_with_purl (cons (f x) (encoded f xs)) ≡ true
      → sort_items (encoded f (x ∷ xs)) ≡ ok (encoded f (sort key (x ∷ xs)))
  unfolding sort_items
  sort_items-encoded x xs h =
      rw (h, keyed-encoded (x ∷ xs))
        (ap (λ (kvs : List (Text × Json)). ok (to_items kvs))
            (sort-map (λ x. (key x, f x)) (λ kv. kv.0) (x ∷ xs))
          ∙ ap ok (to_items-map (sort key (x ∷ xs))))

purl_named : (purl : Text) → purl_of_item (purl_json purl) ≡ ok purl
unfolding get equalities
purl_named purl = refl

contents_named : (c : Contents) → purl_of_item (contents_json c) ≡ ok c.purl
unfolding get equalities
contents_named c = refl

purl_starts : (purl : Text) (vs : Items) → starts_with_purl (cons (purl_json purl) vs) ≡ true
unfolding get equalities
purl_starts purl vs = refl

contents_starts : (c : Contents) (vs : Items) → starts_with_purl (cons (contents_json c) vs) ≡ true
unfolding get equalities
contents_starts c vs = refl

purls-kept : (ps : List Text) → deep_sort_items (encoded purl_json ps) ≡ ok (encoded purl_json ps)
unfolding deep_sort_icm
purls-kept [] = refl
purls-kept (p ∷ ps) = rw (purls-kept ps) refl

-- What becomes of a value in a dictionary.
abbrev in_dict : Json → Result SortError Json
in_dict v = if is_full_container v then deep_sort_icm v else ok v

purls-sorted :
    (ps : List Text)
    → in_dict (arr (encoded purl_json ps))
      ≡ ok (arr (encoded purl_json (sort (λ (purl : Text). purl) ps)))
unfolding deep_sort_icm sort
purls-sorted [] = refl
purls-sorted (p ∷ ps) =
    ap (λ r. r >>= sort_items >>= λ vs. ok (arr vs)) (purls-kept (p ∷ ps))
    ∙ ap (λ r. r >>= λ vs. ok (arr vs))
        (sort_items-encoded purl_json (λ purl. purl) purl_named p ps
          (purl_starts p (encoded purl_json ps)))

contents_json-sorted :
    (c : Contents) → deep_sort_icm (contents_json c) ≡ ok (contents_json (sorted_lists c))
unfolding deep_sort_icm
contents_json-sorted c = rw (purls-sorted c.dependencies, purls-sorted c.sources) refl

contents-sorted :
    (cs : List Contents)
    → deep_sort_items (encoded contents_json cs) ≡ ok (encoded contents_json (map sorted_lists cs))
unfolding deep_sort_icm
contents-sorted [] = refl
contents-sorted (c ∷ cs) = rw (contents_json-sorted c, contents-sorted cs) refl

image_contents-sorted :
    (cs : List Contents)
    → in_dict (arr (encoded contents_json cs)) ≡ ok (arr (encoded contents_json (deep_sort cs)))
unfolding deep_sort_icm deep_sort sort
image_contents-sorted [] = refl
image_contents-sorted (c ∷ cs) =
    ap (λ r. r >>= sort_items >>= λ vs. ok (arr vs)) (contents-sorted (c ∷ cs))
    ∙ ap (λ r. r >>= λ vs. ok (arr vs))
        (sort_items-encoded contents_json (λ c. c.purl) contents_named (sorted_lists c)
          (map sorted_lists cs)
          (contents_starts (sorted_lists c) (encoded contents_json (map sorted_lists cs))))

-- Whatever the contents are, the recursive sort of the whole manifest does not raise, and leaves the
-- metadata as they are, the contents in the order of their purls, and so the dependencies and the
-- sources of each.
pub generate_icm_lem : (cs : List Contents) → generate_icm cs ≡ ok (icm_of (deep_sort cs))
unfolding generate_icm deep_sort_icm
generate_icm_lem cs = rw (image_contents-sorted cs) refl
