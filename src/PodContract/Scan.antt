-- ===== src/PodContract/Scan.antt =====
-- The loop that three checks of restore_pod.go share: among the entries that concern Snapshot, at
-- most one, and a good one.
use snapshot.Prelude.{
  ◌≡◌, refl, Bool, true, false, ◌||◌, Option, none, some, List, [], ◌∷◌, ◌++◌, if◌then◌else◌,
  Bool-cases, arith,
}
use snapshot.Kube.Condition.{Message}
use snapshot.PodContract.Types.{Result, ok, refused}

abbrev pub unless_bad {ℓ} : {A : Type ℓ} → Option Message → Result A → Result A
unless_bad none r = r
unless_bad (some cause) r = refused cause

module _ {A : Type 0} (concerns : A → Bool) (bad : A → Option Message) (duplicate : Message) where
  unfoldable pub at_most_one : Bool → List A → Result Bool
  at_most_one found [] = ok found
  at_most_one found (x ∷ xs) =
      let rest = at_most_one (found || concerns x) xs in
      if concerns x then if found then refused duplicate else unless_bad (bad x) rest else rest

  at_most_one-found : (xs : List A) → at_most_one true xs ≡ ok false → ⊥
  unfolding at_most_one
  at_most_one-found [] h = cc
  at_most_one-found (x ∷ xs) h = ground (arith, at_most_one-found xs)

  module _ (y : A) (c : concerns y ≡ true) (good : bad y ≡ none) where
    -- Where there is none, one good entry makes it exactly one.
    pub at_most_one-append :
        (xs : List A) → at_most_one false xs ≡ ok false → at_most_one false (xs ++ y ∷ []) ≡ ok true
    unfolding at_most_one
    at_most_one-append [] h = rw (c, good) refl
    at_most_one-append (x ∷ xs) h =
        ground (arith, at_most_one-append xs, at_most_one-found xs, Bool-cases (concerns x))

  module _ (y : A) (other : concerns y ≡ false) where
    -- An entry that does not concern Snapshot is passed over.
    pub at_most_one-other :
        (found : Bool) (xs : List A) → at_most_one found (xs ++ y ∷ []) ≡ at_most_one found xs
    unfolding at_most_one
    at_most_one-other found [] = ground (arith, other)
    at_most_one-other found (x ∷ xs) = rw (at_most_one-other (found || concerns x) xs)
