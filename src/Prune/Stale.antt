-- ===== src/Prune/Stale.antt =====
-- Which archives are listed and deleted.
use cachito.Base.{
  ℕ, zero, suc, ◌≤◌, ◌≡◌, refl, ap, Bool, true, false, Option, none, some, List, [], ◌∷◌, map,
  arith, if◌then◌else◌, length, take, ltb, All, Bool-cases, inl, inr,
}
use cachito.Base.Text.{Text}
use cachito.Prune.{
  File, ParsedArchive, ResolvedArchive, Response, Lookup, raised, missing, found,
  resolve_source_archive, Pruned, finished, exhausted, decrement, process_archives,
  process_stale_archives, get_parsed_source_archives, prune_one,
}

-- The stale archives among those that are looked up.
abbrev pub stale_one : ℕ → Lookup ResolvedArchive → List ResolvedArchive → List ResolvedArchive
stale_one older_than (found r) rest = if ltb r.created older_than then r ∷ rest else rest
stale_one older_than missing rest = rest
stale_one older_than raised rest = rest

abbrev pub stale :
    (ParsedArchive → Lookup ResolvedArchive) → ℕ → List ParsedArchive → List ResolvedArchive
stale resolve older_than [] = []
stale resolve older_than (a ∷ as_) = stale_one older_than (resolve a) (stale resolve older_than as_)

-- The first archives, as many as the limit allows.
abbrev pub up_to : Option ℕ → List ResolvedArchive → List ResolvedArchive
up_to none xs = xs
up_to (some n) xs = take n xs

abbrev pub deleted_of : Bool → List ResolvedArchive → List File
deleted_of delete rs = if delete then map (λ r. r.file) rs else []

abbrev pub WithinLimit : Option ℕ → List ResolvedArchive → Type 0
WithinLimit none rs = Unit
WithinLimit (some n) rs = length rs ≤ n

-- The deletions follow the listing, which is a first part of the stale archives within the limit.
abbrev pub IsSafe : Bool → Option ℕ → List ResolvedArchive → Pruned → Type 0
IsSafe delete limit rs p =
    (p.deleted ≡ deleted_of delete p.listed)
    × (p.listed ≡ take (length p.listed) rs)
    × WithinLimit limit p.listed

finished-IsSafe :
    (delete : Bool) (limit : Option ℕ) (rs : List ResolvedArchive) (b : Bool)
    → IsSafe delete limit rs (finished b)
finished-IsSafe true none rs b = (refl, refl, tt)
finished-IsSafe true (some n) rs b = (refl, refl, omega arith)
finished-IsSafe false none rs b = (refl, refl, tt)
finished-IsSafe false (some n) rs b = (refl, refl, omega arith)

prune_one-IsSafe :
    (delete : Bool) (limit : Option ℕ) (rs : List ResolvedArchive) (r : ResolvedArchive)
    (p : Pruned)
    → exhausted limit ≡ false
    → IsSafe delete (decrement limit) rs p
    → IsSafe delete limit (r ∷ rs) (prune_one delete r p)
prune_one-IsSafe true none rs r p x (d, l, w) = (ap (◌∷◌ r.file) d, ap (◌∷◌ r) l, tt)
prune_one-IsSafe false none rs r p x (d, l, w) = (d, ap (◌∷◌ r) l, tt)
prune_one-IsSafe delete (some zero) rs r p x h = cc
prune_one-IsSafe true (some (suc n)) rs r p x (d, l, w) =
    (ap (◌∷◌ r.file) d, ap (◌∷◌ r) l, omega (arith, w))
prune_one-IsSafe false (some (suc n)) rs r p x (d, l, w) = (d, ap (◌∷◌ r) l, omega (arith, w))

module _ (resolve : ParsedArchive → Lookup ResolvedArchive) (older_than : ℕ) (delete : Bool) where
  process_archives-IsSafe :
      (limit : Option ℕ) (as_ : List ParsedArchive)
      → IsSafe delete limit
          (stale resolve older_than as_)
          (process_archives resolve older_than delete limit as_)
  unfolding process_archives
  process_archives-IsSafe limit [] = finished-IsSafe delete limit [] false
  process_archives-IsSafe limit (a ∷ as_) = elim (Bool-cases (exhausted limit)) [
    | inl x ↦ rw x (finished-IsSafe delete limit (stale resolve older_than (a ∷ as_)) false)
    | inr x ↦ rw x (
        looked_up (resolve a) x (process_archives-IsSafe limit as_)
          (process_archives-IsSafe (decrement limit) as_))
  ]
    where
      looked_up :
          (o : Lookup ResolvedArchive)
          → exhausted limit ≡ false
          → IsSafe delete limit
              (stale resolve older_than as_)
              (process_archives resolve older_than delete limit as_)
          → IsSafe delete
              (decrement limit)
              (stale resolve older_than as_)
              (process_archives resolve older_than delete (decrement limit) as_)
          → IsSafe delete limit (stale_one older_than o (stale resolve older_than as_)) (elim o [
            | raised ↦ finished true
            | missing ↦ process_archives resolve older_than delete limit as_
            | found r ↦
                if ltb r.created older_than
                then prune_one delete r
                    (process_archives resolve older_than delete (decrement limit) as_)
                else process_archives resolve older_than delete limit as_
          ])
      looked_up raised x h k = finished-IsSafe delete limit (stale resolve older_than as_) true
      looked_up missing x h k = h
      looked_up (found r) x h k = elim (Bool-cases (ltb r.created older_than)) [
        | inl y ↦ rw y (
            prune_one-IsSafe delete limit (stale resolve older_than as_) r
              (process_archives resolve older_than delete (decrement limit) as_) x k)
        | inr y ↦ rw y h
      ]

-- All of the first archives are listed, and no exception ends the run.
abbrev pub IsComplete : Option ℕ → List ResolvedArchive → Pruned → Type 0
IsComplete limit rs p = (p.listed ≡ up_to limit rs) × (p.failed ≡ false)

exhausted-IsComplete :
    (limit : Option ℕ) (rs : List ResolvedArchive)
    → exhausted limit ≡ true
    → IsComplete limit rs (finished false)
exhausted-IsComplete none rs x = cc
exhausted-IsComplete (some zero) rs x = (refl, refl)
exhausted-IsComplete (some (suc n)) rs x = cc

prune_one-IsComplete :
    (delete : Bool) (limit : Option ℕ) (rs : List ResolvedArchive) (r : ResolvedArchive)
    (p : Pruned)
    → exhausted limit ≡ false
    → IsComplete (decrement limit) rs p
    → IsComplete limit (r ∷ rs) (prune_one delete r p)
prune_one-IsComplete delete none rs r p x (l, f) = (ap (◌∷◌ r) l, f)
prune_one-IsComplete delete (some zero) rs r p x h = cc
prune_one-IsComplete delete (some (suc n)) rs r p x (l, f) = (ap (◌∷◌ r) l, f)

-- The lookup of an archive raises nothing.
abbrev pub Answered : Lookup ResolvedArchive → Type 0
Answered raised = ⊥
Answered missing = Unit
Answered (found r) = Unit

module _ (resolve : ParsedArchive → Lookup ResolvedArchive) (older_than : ℕ) (delete : Bool) where
  process_archives-IsComplete :
      (limit : Option ℕ) (as_ : List ParsedArchive)
      → All (λ a. Answered (resolve a)) as_
      → IsComplete limit
          (stale resolve older_than as_)
          (process_archives resolve older_than delete limit as_)
  unfolding process_archives
  process_archives-IsComplete none [] h = (refl, refl)
  process_archives-IsComplete (some zero) [] h = (refl, refl)
  process_archives-IsComplete (some (suc n)) [] h = (refl, refl)
  process_archives-IsComplete limit (a ∷ as_) (h, hs) = elim (Bool-cases (exhausted limit)) [
    | inl x ↦ rw x (exhausted-IsComplete limit (stale resolve older_than (a ∷ as_)) x)
    | inr x ↦ rw x (
        looked_up (resolve a) h x (process_archives-IsComplete limit as_ hs)
          (process_archives-IsComplete (decrement limit) as_ hs))
  ]
    where
      next : Pruned
      next = process_archives resolve older_than delete limit as_

      after : Pruned
      after = process_archives resolve older_than delete (decrement limit) as_

      looked_up :
          (o : Lookup ResolvedArchive)
          → Answered o
          → exhausted limit ≡ false
          → IsComplete limit (stale resolve older_than as_) next
          → IsComplete (decrement limit) (stale resolve older_than as_) after
          → IsComplete limit (stale_one older_than o (stale resolve older_than as_)) (elim o [
            | raised ↦ finished true
            | missing ↦ next
            | found r ↦ if ltb r.created older_than then prune_one delete r after else next
          ])
      looked_up raised h x k l = absurd h
      looked_up missing h x k l = k
      looked_up (found r) h x k l = elim (Bool-cases (ltb r.created older_than)) [
        | inl y ↦
            rw y (prune_one-IsComplete delete limit (stale resolve older_than as_) r after x l)
        | inr y ↦ rw y k
      ]

-- When the API answers every lookup with a request whose time can be read, or with none, the run
-- lists all stale archives, or the first ones up to the limit, and no exception ends it.
pub process_stale_archives-IsComplete :
    (api : Text → Text → Response) (parse : Text → Option ℕ) (files : List File) (older_than : ℕ)
    (delete : Bool) (limit : Option ℕ)
    → All (λ a. Answered (resolve_source_archive api parse a)) (get_parsed_source_archives files)
    → IsComplete limit
        (stale (resolve_source_archive api parse) older_than (get_parsed_source_archives files))
        (process_stale_archives api parse files older_than delete limit)
unfolding process_stale_archives
process_stale_archives-IsComplete api parse files older_than delete limit h =
    process_archives-IsComplete (resolve_source_archive api parse) older_than delete limit
      (get_parsed_source_archives files) h

-- However the API answers and wherever the run stops: the archives that are listed are the first of
-- the stale ones, no more than the limit, and the files that are deleted are exactly those of the
-- archives listed, or none at all without the option to delete.
pub process_stale_archives-IsSafe :
    (api : Text → Text → Response) (parse : Text → Option ℕ) (files : List File) (older_than : ℕ)
    (delete : Bool) (limit : Option ℕ)
    → IsSafe delete limit
        (stale (resolve_source_archive api parse) older_than (get_parsed_source_archives files))
        (process_stale_archives api parse files older_than delete limit)
unfolding process_stale_archives
process_stale_archives-IsSafe api parse files older_than delete limit =
    process_archives-IsSafe (resolve_source_archive api parse) older_than delete limit
      (get_parsed_source_archives files)
