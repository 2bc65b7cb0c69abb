-- ===== src/Evict.antt =====
-- internal/evict/evict.go: the removal of a shared revision from the mapping, the blockstore, the
-- filestore and the cache.
--
-- The state is what these hold: blocks and references stand under multihashes, while the CIDs to keep and to
-- delete are compared as CIDs. The mapping is the list of its entries. The filestore is the parameter
-- of the transfer, and the other libraries and the success of each call are the record `Tools`. The order in
-- which Go goes through a map is a parameter too.
pub mod Walk
pub mod Keeps
pub mod Files
pub mod Success
use hf_ipfs.Prelude.{
  ℕ, zero, suc, Bool, true, false, not, ◌&&◌, ◌||◌, List, [], ◌∷◌, ◌++◌, Option, none, some, Text,
  codes, text_eq, has_prefix, is_empty, if◌then◌else◌, Result, ok, err, and_next,
}
use hf_ipfs.Prelude.Table.{text_Eq, Eq, lookup, remove, member}
use hf_ipfs.Cids.{CidLib}
use hf_ipfs.Mapping.Entries.{FileManifest, Entry}
use hf_ipfs.Hfcache.RepoNames.{repo_type_of}
use hf_ipfs.Hfcache.Paths.{
  Paths, new_paths, snapshot_dir, ref_path, blob_path, tree_path, clean, path_join, is_rooted,
}
use hf_ipfs.Hfcache.Refs.{current_commit}
use hf_ipfs.Hfcache.Safety.{safe_blob_name}
use hf_ipfs.Pull.Transfer.{Filestore}
use hf_ipfs.Evict.Walk.{Dag, walk, enough}

pub data EvictError : Type 0 where
  list_failed bad_actual_cid ref_not_deleted block_not_deleted query_failed blob_not_removed
        mapping_not_deleted no_such_repo :
      EvictError
  no_fuel : EvictError

-- os.RemoveAll of a directory: it removes what it can.
unfoldable pub is_below : Text → Text → Bool
is_below dir path = text_eq path dir || has_prefix (dir ++ codes "/") path

unfoldable pub remove_all : (Text → Bool) → Text → List (Text × Text) → List (Text × Text)
remove_all removable dir [] = []
remove_all removable dir ((path, content) ∷ files) =
    let rest = remove_all removable dir files in
    if is_below dir path && removable path then rest else (path, content) ∷ rest

-- mapping.DB.Delete, on the list of the entries
unfoldable pub delete_entry : Text → List Entry → List Entry
delete_entry commit [] = []
delete_entry commit (o ∷ others) =
    let rest = delete_entry commit others in if text_eq o.commit_hash commit then rest else o ∷ rest

module _ (L : CidLib) (F : Filestore) where
  pub record Tools : Type 0 where
    pub dag : Dag L.Cid
    -- the order of the keys of a map
    pub shuffle : List L.Cid → List L.Cid
    -- the entries of the filestore bucket: the path of one that can be read, and none for another
    pub query : F.Refs → Option (List (Option Text))
    pub has_ref_succeeds : L.Cid → Bool
    pub delete_ref_succeeds : L.Cid → Bool
    pub has_block_succeeds : L.Cid → Bool
    pub delete_block_succeeds : L.Cid → Bool
    pub remove_succeeds : Text → Bool
    pub list_succeeds : Bool
    pub delete_entry_succeeds : Bool

  -- Target
  pub record Held : Type 0 where
    pub shared : List Entry
    pub blocks : List (Text × Text)
    pub refs : F.Refs
    pub files : List (Text × Text)

  abbrev pub Outcome : Type 0
  Outcome = Result EvictError (Unit {0}) × Held

  module _ (tools : Tools) (hub_dir : Text) where
    -- The loop over the other entries that fills `keep`.
    unfoldable pub keep_others :
        Text → List (Text × Text) → List Entry → List L.Cid → Option (List L.Cid)
    keep_others commit blocks [] keep = some keep
    keep_others commit blocks (o ∷ others) keep =
        if text_eq o.commit_hash commit
        then keep_others commit blocks others keep
        else (elim (L.decode o.actual_cid) [
          | none ↦ keep_others commit blocks others keep
          | some oc ↦
              elim (walk ⦃e = L.cid_Eq⦄ tools.dag blocks (enough ⦃e = L.cid_Eq⦄ tools.dag blocks) oc
                keep) [ none ↦ none | some more ↦ keep_others commit blocks others more ]
        ])

    -- `has, err := fm.Has(ctx, c); err == nil && has`, and the same of the blockstore
    unfoldable pub has_ref : L.Cid → Held → Bool
    has_ref c s =
        tools.has_ref_succeeds c
        && (elim (F.get s.refs (tools.dag.multihash c)) [ none ↦ false | some ref ↦ true ])

    unfoldable pub has_block : L.Cid → Held → Bool
    has_block c s =
        tools.has_block_succeeds c
        && (elim (lookup (tools.dag.multihash c) s.blocks) [ none ↦ false | some raw ↦ true ])

    -- One round of the loop over the target CIDs.
    unfoldable pub drop_cid : List L.Cid → L.Cid → Held → Result EvictError (Unit {0}) × Held
    drop_cid keep c s =
        if member ⦃e = L.cid_Eq⦄ c keep
        then (ok tt, s)
        else if has_ref c s
        then (if tools.delete_ref_succeeds c
            then (ok tt, record s { refs = F.delete s.refs (tools.dag.multihash c) })
            else (err ref_not_deleted, s))
        else if has_block c s
        then (if tools.delete_block_succeeds c
            then (ok tt, record s { blocks = remove (tools.dag.multihash c) s.blocks })
            else (err block_not_deleted, s))
        else (ok tt, s)

    unfoldable pub drop_cids : List L.Cid → List L.Cid → Held → Result EvictError (Unit {0}) × Held
    drop_cids keep [] s = (ok tt, s)
    drop_cids keep (c ∷ cs) s = and_next (drop_cid keep c s) (drop_cids keep cs)

    -- referencedPaths, from the entries of the bucket
    unfoldable pub absolute_path : Text → Text
    absolute_path p = clean (if is_rooted p then p else path_join (hub_dir ∷ p ∷ []))

    unfoldable pub paths_of : List (Option Text) → List Text
    paths_of [] = []
    paths_of (none ∷ entries) = paths_of entries
    paths_of (some p ∷ entries) =
        let rest = paths_of entries in if is_empty p then rest else absolute_path p ∷ rest

    unfoldable pub referenced_paths : F.Refs → Option (List Text)
    referenced_paths refs = elim (tools.query refs) [
      | none ↦ none
      | some entries ↦ some (paths_of entries)
    ]

    -- os.Remove of a blob; a file that is not there is no error.
    unfoldable pub remove_blob : Text → Held → Result EvictError (Unit {0}) × Held
    remove_blob blob s =
        if tools.remove_succeeds blob
        then (ok tt, record s { files = remove blob s.files })
        else (err blob_not_removed, s)

    -- One round of the loop over the files of the entry.
    unfoldable pub drop_blob :
        Paths → List Text → FileManifest → Held → Result EvictError (Unit {0}) × Held
    drop_blob paths remaining f s =
        if not (safe_blob_name f.blob_name)
        then (ok tt, s)
        else if member (clean (blob_path paths f.blob_name)) remaining
        then (ok tt, s)
        else remove_blob (clean (blob_path paths f.blob_name)) s

    unfoldable pub drop_blobs :
        Paths → List Text → List FileManifest → Held → Result EvictError (Unit {0}) × Held
    drop_blobs paths remaining [] s = (ok tt, s)
    drop_blobs paths remaining (f ∷ fs) s =
        and_next (drop_blob paths remaining f s) (drop_blobs paths remaining fs)

    -- tgt.Mapping.Delete
    unfoldable pub drop_entry : Text → Held → Result EvictError (Unit {0}) × Held
    drop_entry commit s =
        if tools.delete_entry_succeeds
        then (ok tt, record s { shared = delete_entry commit s.shared })
        else (err mapping_not_deleted, s)

    -- os.Remove where a failure is ignored
    unfoldable pub try_remove : Text → List (Text × Text) → List (Text × Text)
    try_remove path files = if tools.remove_succeeds path then remove path files else files

    -- The snapshot, the tree document, and the ref if it names the commit.
    unfoldable pub drop_ref : Paths → Text → List (Text × Text) → List (Text × Text)
    drop_ref paths commit files = elim (current_commit files paths (codes "main")) [
      | err e ↦ files
      | ok cur ↦
          if text_eq cur commit then try_remove (ref_path paths (codes "main")) files else files
    ]

    unfoldable pub drop_plumbing : Paths → Text → List (Text × Text) → List (Text × Text)
    drop_plumbing paths commit files = drop_ref paths commit (
        try_remove (tree_path paths commit)
          (remove_all tools.remove_succeeds (snapshot_dir paths commit) files))

    abbrev pub paths_of_entry : Entry → Paths
    paths_of_entry entry = new_paths hub_dir entry.repo_id (repo_type_of entry.repo_type)

    unfoldable pub drop_cache : Entry → Held → Result EvictError (Unit {0}) × Held
    drop_cache entry s =
        (ok tt, record s { files = drop_plumbing (paths_of_entry entry) entry.commit_hash s.files })

    -- What follows the loop over the target CIDs, and first what follows referencedPaths there.
    unfoldable pub drop_rest : Entry → List Text → Held → Result EvictError (Unit {0}) × Held
    drop_rest entry remaining s =
        and_next
          (and_next (drop_blobs (paths_of_entry entry) remaining entry.files s)
            (drop_entry entry.commit_hash))
          (drop_cache entry)

    unfoldable pub drop_files : Entry → Held → Result EvictError (Unit {0}) × Held
    drop_files entry s = elim (referenced_paths s.refs) [
      | none ↦ (err query_failed, s)
      | some remaining ↦ drop_rest entry remaining s
    ]

    -- The part of Commit behind the two walks.
    unfoldable pub drop_all :
        Entry → List L.Cid → List L.Cid → Held → Result EvictError (Unit {0}) × Held
    drop_all entry keep target s =
        and_next (drop_cids keep (tools.shuffle target) s) (drop_files entry)

    -- The walk of the entry that goes, behind the one of the others.
    unfoldable pub evict_target : Entry → List L.Cid → Held → Result EvictError (Unit {0}) × Held
    evict_target entry keep s = elim (L.decode entry.actual_cid) [
      | none ↦ (err bad_actual_cid, s)
      | some root ↦
          elim (walk ⦃e = L.cid_Eq⦄ tools.dag s.blocks (enough ⦃e = L.cid_Eq⦄ tools.dag s.blocks)
            root []) [ none ↦ (err no_fuel, s) | some target ↦ drop_all entry keep target s ]
    ]

    -- Commit
    unfoldable pub evict_commit : Entry → Held → Result EvictError (Unit {0}) × Held
    evict_commit entry s =
        if not tools.list_succeeds
        then (err list_failed, s)
        else (elim (keep_others entry.commit_hash s.blocks s.shared []) [
          | none ↦ (err no_fuel, s)
          | some keep ↦ evict_target entry keep s
        ])

    -- The loop of Repo over the entries that it listed, with the number of evicted ones.
    unfoldable pub evict_entries :
        Text → List Entry → ℕ → Held → (ℕ × Result EvictError (Unit {0})) × Held
    evict_entries repo_id [] n s = ((n, ok tt), s)
    evict_entries repo_id (o ∷ entries) n s =
        if not (text_eq o.repo_id repo_id)
        then evict_entries repo_id entries n s
        else let (r, t) = evict_commit o s in
          elim r [ err e ↦ ((n, err e), t) | ok u ↦ evict_entries repo_id entries (suc n) t ]

    -- Repo: the count and the error that it returns.
    abbrev pub counted :
        (ℕ × Result EvictError (Unit {0})) × Held → (ℕ × Result EvictError (Unit {0})) × Held
    counted ((n, err e), s) = ((n, err e), s)
    counted ((zero, ok u), s) = ((0, err no_such_repo), s)
    counted ((suc n, ok u), s) = ((suc n, ok tt), s)

    unfoldable pub evict_repo : Text → Held → (ℕ × Result EvictError (Unit {0})) × Held
    evict_repo repo_id s =
        if not tools.list_succeeds
        then ((0, err list_failed), s)
        else counted (evict_entries repo_id s.shared 0 s)
