-- ===== src/Yarn/Replaced.antt =====
-- What is replaced in a package.json is found in the new yarn.lock.
use cachito.Base.{◌≡◌, some, ◌∷◌, ◌++◌, nat_eq, list_eq}
use cachito.Base.Text.{Text}
use cachito.Base.Dict.{Dict, lookup}

abbrev dep_id : Text → Text → Text
dep_id name version = name ++ (b'@' ∷ version)

module _ {Info : Type 0} (Q : Text → Info → Type 0) where
  Holds : Dict Text Info → Type 0
  Holds d = (id : Text) (r : Info) → lookup id d ≡ some r → Q id r
