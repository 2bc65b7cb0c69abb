-- ===== src/Evict/Walk.antt =====
-- walk of internal/evict/evict.go: the CIDs that are reachable through the blocks of a store.
--
-- A store holds its blocks by their multihash, which several CIDs can share, while the walk compares CIDs.
-- The recursion takes fuel. Below the root, a visit goes deeper only at a link that was not seen, so two
-- more than the number of links in the blocks are enough; `Evict.Walk.Exact` shows it.
pub mod Exact
use hf_ipfs.Prelude.{
  ℕ, zero, suc, Bool, true, false, List, [], ◌∷◌, ◌++◌, Option, none, some, Text, if◌then◌else◌,
  length,
}
use hf_ipfs.Prelude.Table.{text_Eq, Eq, lookup, member}

-- merkledag.DecodeProtobuf of a block and the links of the node, the test Defined of a CID, and whether
-- the store can be read at a CID.
pub record Dag (C : Type 0) : Type 0 where
  pub decode_links : Text → Option (List C)
  pub is_defined : C → Bool
  pub is_readable : C → Bool
  -- the multihash of a CID
  pub multihash : C → Text

module _ {C : Type 0} ⦃e : Eq C⦄ (dag : Dag C) (blocks : List (Text × Text)) where
  unfoldable pub defined_links : List C → List C
  defined_links [] = []
  defined_links (c ∷ cs) =
      let rest = defined_links cs in if dag.is_defined c then c ∷ rest else rest

  -- The links of a block, none if it cannot be decoded.
  unfoldable pub links_in : Text → List C
  links_in raw = elim (dag.decode_links raw) [ none ↦ [] | some cs ↦ defined_links cs ]

  -- The CIDs that the walk goes on to: none where the block is absent or cannot be read.
  unfoldable pub links : C → List C
  links c =
      if dag.is_readable c
      then (elim (lookup (dag.multihash c) blocks) [ none ↦ [] | some raw ↦ links_in raw ])
      else []

  -- The loop over the links, with the visit of one.
  unfoldable pub walk_links : (C → List C → Option (List C)) → List C → List C → Option (List C)
  walk_links visit [] out = some out
  walk_links visit (c ∷ cs) out = elim (visit c out) [
    | none ↦ none
    | some r ↦ walk_links visit cs r
  ]

  -- walk; `none` is a want of fuel.
  unfoldable pub walk : ℕ → C → List C → Option (List C)
  walk zero c out = if member c out then some out else none
  walk (suc n) c out = elim (member c out) [
    | true ↦ some out
    | false ↦ walk_links (walk n) (links c) (c ∷ out)
  ]

  -- The links of all the blocks, and the fuel of a walk.
  abbrev pub linked : List (Text × Text) → List C
  linked [] = []
  linked ((k, raw) ∷ bs) = links_in raw ++ linked bs

  abbrev pub enough : ℕ
  enough = suc (suc (length (linked blocks)))
