-- ===== src/Hfcache/Sorting.antt =====
-- sortStrings and sortManifests of internal/hfcache/cache.go: an insertion sort in place.
--
-- The array is split at i: the part before it stands in reverse, so that the swaps of the inner
-- loop go along a list, from s[i-1] down.
pub mod Laws
use hf_ipfs.Prelude.{List, [], ◌∷◌, Text, text_lt, if◌then◌else◌, Bool}
use hf_ipfs.Mapping.Entries.{FileManifest}

-- The elements before i, back in their order.
unfoldable pub onto {ℓ} : {A : Type ℓ} → List A → List A → List A
onto [] l = l
onto (x ∷ xs) l = onto xs (x ∷ l)

module _ {A : Type 0} (lt : A → A → Bool) where
  -- The inner loop: the new element moves down while it is less than its neighbour.
  unfoldable pub sink_down : A → List A → List A
  sink_down x [] = x ∷ []
  sink_down x (y ∷ below) =
      let rest = sink_down x below in if lt x y then y ∷ rest else x ∷ y ∷ below

  -- The outer loop, from the elements before i and those from i on.
  unfoldable pub sort_from : List A → List A → List A
  sort_from before [] = before
  sort_from before (x ∷ rest) = sort_from (sink_down x before) rest

  unfoldable pub sort : List A → List A
  sort l = onto (sort_from [] l) []

unfoldable pub sort_strings : List Text → List Text
sort_strings = sort text_lt

unfoldable pub sort_manifests : List FileManifest → List FileManifest
sort_manifests = sort (λ f g. text_lt f.path g.path)
