-- ===== src/Manifest/Sorted.antt =====
-- The order of the image content manifest.
use cachito.Base.{◌≡◌, subst, List, [], ◌∷◌, ◌++◌, map, nat_eq, list_eq, All}
use cachito.Base.Text.{Text, text}
use cachito.Base.Dict.{values}
use cachito.Base.Result.{ok, >>=-eq-ok, ok-injective}
use cachito.Base.Order.{nat_ord, list_ord}
use cachito.Base.Sort.{sort, IsSorted, sort-IsSorted, sort-perm, All-sort}
use mathlib.Core.List.{Perm}
use cachito.Manifest.Purl.{Library, Origin}
use cachito.Manifest.Content.{Entry, Contents, State}
use cachito.Manifest.Report.{collected, with_sources, deep_sort, image_contents, to_json}

abbrev purl_of : Contents → Text
purl_of c = c.purl

abbrev pub sorted_lists : Contents → Contents
sorted_lists c = record c {
  dependencies = sort (λ (purl : Text). purl) c.dependencies;
  sources = sort (λ (purl : Text). purl) c.sources;
}

abbrev pub HasSortedLists : Contents → Type 0
HasSortedLists c =
    IsSorted (λ (purl : Text). purl) c.dependencies × IsSorted (λ (purl : Text). purl) c.sources

-- The contents that to_json hands to generate_icm.
abbrev pub unsorted : State → List Contents
unsorted s =
    map (with_sources s.go_modules) (values s.go_packages)
    ++ (values (s.data_of (text "npm"))
        ++ (values (s.data_of (text "pip"))
            ++ (values (s.data_of (text "yarn"))
                ++ (values (s.data_of (text "rubygems"))
                    ++ values (s.data_of (text "git-submodule"))))))

lists-sorted : (cs : List Contents) → All HasSortedLists (map sorted_lists cs)
lists-sorted [] = tt
lists-sorted (c ∷ cs) = (
  (
    sort-IsSorted (λ (purl : Text). purl) c.dependencies,
    sort-IsSorted (λ (purl : Text). purl) c.sources,
  ),
  lists-sorted cs,
)

-- If a manifest is made, its contents are those that were collected from Go packages, npm, pip, yarn,
-- RubyGems and git submodules, each once; they come in the order of their purls, and in each of them
-- the dependencies and the sources come in order.
pub to_json-IsSorted :
    (L : Library) (request : Origin) (entries : List Entry) (cs : List Contents)
    → to_json L request entries ≡ ok cs
    → IsSorted (λ (c : Contents). c.purl) cs
      × All HasSortedLists cs
      × ((s : State) × (collected L request entries ≡ ok s)
          × Perm cs (map sorted_lists (unsorted s)))
unfolding to_json image_contents deep_sort
to_json-IsSorted L request entries cs h =
    let (s, r, q) = >>=-eq-ok (collected L request entries) (λ s. ok (image_contents s)) h in
    let made = ok-injective (image_contents s) cs q in
    let lists = map sorted_lists (unsorted s) in
    (
      subst (IsSorted purl_of) made (sort-IsSorted purl_of lists),
      subst (All HasSortedLists) made
          (All-sort purl_of HasSortedLists lists (lists-sorted (unsorted s))),
      (s, r, subst (λ cs. Perm cs lists) made (sort-perm purl_of lists)),
    )
