-- ===== src/Pull/Leaves.antt =====
-- collectLeaves and findNode of internal/pull/pull.go: the walks over a DAG that a peer supplies.
--
-- The nodes are a parameter: what the DAG service answers for a CID. The walk of collectLeaves takes
-- fuel, an error of its own where it runs out; `Pull.Leaves.Budget` shows how much is enough.
pub mod Budget
use hf_ipfs.Prelude.{
  ℕ, zero, suc, Bool, true, false, List, [], ◌∷◌, ◌++◌, Option, none, some, Text, length, leb, ◌+◌,
  split, reverse, ◌==◌, if◌then◌else◌, Result, ok, err, ◌>>=◌,
}
use hf_ipfs.Cids.{CidLib}

pub data WalkError {ℓ} (E : Type ℓ) : Type ℓ where
  too_many_chunks : WalkError E
  node_error : E → WalkError E
  no_fuel : WalkError E

module _ {ℓ} (L : CidLib) {E : Type ℓ} (links : L.Cid → Result E (List L.Cid))
    (max_file_chunks : ℕ) where
  -- The CID of a leaf, behind the leaves so far.
  unfoldable pub add_leaf : L.Cid → List L.Cid → Result (WalkError E) (List L.Cid)
  add_leaf c out =
      if leb max_file_chunks (length out) then err too_many_chunks else ok (out ++ c ∷ [])

  -- The loop over the links of a node, with the visit of one.
  unfoldable pub collect_links :
      (L.Cid → List L.Cid → Result (WalkError E) (List L.Cid))
      → List L.Cid
      → List L.Cid
      → Result (WalkError E) (List L.Cid)
  collect_links visit [] out = ok out
  collect_links visit (c ∷ cs) out = visit c out >>= collect_links visit cs

  -- collectLeaves
  unfoldable pub collect_leaves : ℕ → L.Cid → List L.Cid → Result (WalkError E) (List L.Cid)
  collect_leaves zero c out = err no_fuel
  collect_leaves (suc n) c out = elim (L.is_raw c) [
    | true ↦ add_leaf c out
    | false ↦ elim (links c) [
      | err e ↦ err (node_error e)
      | ok cs ↦ collect_links (collect_leaves n) cs out
    ]
  ]

-- strings.Trim(s, "/") and strings.Split
unfoldable pub trim_slashes : Text → Text
trim_slashes [] = []
trim_slashes (c ∷ s) = if c == b'/' then trim_slashes s else c ∷ s

unfoldable pub path_parts : Text → List Text
unfolding trim_slashes
path_parts rel = split b'/' (reverse (trim_slashes (reverse (trim_slashes rel))))

module _ {ℓ κ} {C : Type ℓ} {E : Type κ} (child : C → Text → Result E C) where
  -- The loop of findNode; `child` reads a node as a directory and finds a name in it.
  unfoldable pub find_parts : List Text → C → Result E C
  find_parts [] cur = ok cur
  find_parts (part ∷ parts) cur = child cur part >>= find_parts parts

  -- findNode
  unfoldable pub find_node : C → Text → Result E C
  unfolding find_parts
  find_node root rel = find_parts (path_parts rel) root
