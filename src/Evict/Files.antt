-- ===== src/Evict/Files.antt =====
-- The files of the cache behind an eviction: those that it leaves, and those that it removes.
use hf_ipfs.Prelude.{
  ◌&&◌, Bool, ◌≡◌, refl, sym, subst, ap, ◌∙◌, inl, inr, true, false, List, [], ◌∷◌, none, some,
  Text, codes, text_eq, if◌then◌else◌, err, arith, Bool-cases, Option-cases, and_next_lem,
  and_next_after, and_next, Result-cases, All,
}
use hf_ipfs.Prelude.Table.{text_Eq, lookup, member, lookup-remove}
use hf_ipfs.Cids.{CidLib}
use hf_ipfs.Mapping.Entries.{Entry, FileManifest}
use hf_ipfs.Pull.Transfer.{Filestore}
use hf_ipfs.Hfcache.Paths.{Paths, snapshot_dir, ref_path, tree_path, blob_path, clean}
use hf_ipfs.Hfcache.Refs.{current_commit}
use hf_ipfs.Evict.Walk.{walk, enough}
use hf_ipfs.Evict.{
  Outcome, no_fuel, query_failed, list_failed, bad_actual_cid, Tools, Held, is_below, remove_all,
  delete_entry, keep_others, drop_cid, drop_cids, and_next, remove_blob, drop_blob, drop_blobs,
  drop_entry, try_remove, drop_ref, drop_plumbing, drop_cache, drop_rest, drop_files, drop_all,
  evict_target, evict_commit, paths_of_entry, referenced_paths,
}

pub lookup-remove_all :
    (removable : Text → Bool) (dir path : Text) (files : List (Text × Text))
    → lookup path (remove_all removable dir files)
      ≡ (if is_below dir path && removable path then none else lookup path files)
unfolding remove_all lookup
lookup-remove_all removable dir path [] = ground arith
lookup-remove_all removable dir path ((p, c) ∷ files) = ground (
  arith,
  text_Eq.beq_iff p path,
  lookup-remove_all removable dir path files,
  ap (is_below dir) {x = p} {y = path},
  ap removable {x = p} {y = path},
)

pub delete_entry_lem :
    (commit : Text) (shared : List Entry)
    → All (λ o. text_eq o.commit_hash commit ≡ false) (delete_entry commit shared)
unfolding delete_entry
delete_entry_lem commit [] = tt
delete_entry_lem commit (o ∷ shared) = elim (Bool-cases (text_eq o.commit_hash commit)) [
  | inl same ↦
      subst (All (λ o. text_eq o.commit_hash commit ≡ false)) (ground (arith, same))
        (delete_entry_lem commit shared)
  | inr other ↦
      subst (All (λ o. text_eq o.commit_hash commit ≡ false)) {x = o ∷ delete_entry commit shared}
        (ground (arith, other)) (other, delete_entry_lem commit shared)
]

module _ (L : CidLib) (F : Filestore) (tools : Tools L F) (hub_dir : Text) where
  pub lookup-try_remove :
      (path q : Text) (files : List (Text × Text))
      → lookup q (try_remove L F tools hub_dir path files)
        ≡ (if text_eq path q && tools.remove_succeeds path then none else lookup q files)
  unfolding try_remove
  lookup-try_remove path q files = ground (arith, lookup-remove path q files)

  -- The steps behind the loop over the CIDs leave the filestore alone, and a file that is in `remaining`.
  module _ (entry : Entry) (remaining : List Text) (q : Text) (s : Held L F)
      (below : is_below (snapshot_dir (paths_of_entry L F tools hub_dir entry) entry.commit_hash) q
        ≡ false)
      (not_tree : text_eq (tree_path (paths_of_entry L F tools hub_dir entry) entry.commit_hash) q
        ≡ false)
      (not_ref : text_eq (ref_path (paths_of_entry L F tools hub_dir entry) (codes "main")) q
        ≡ false) where
    IsSame : Held L F → Type 0
    IsSame t = (t.refs ≡ s.refs) × (member q remaining ≡ true → lookup q t.files ≡ lookup q s.files)

    drop_ref_lem :
        (files : List (Text × Text))
        → lookup q (
            drop_ref L F tools hub_dir
              (paths_of_entry L F tools hub_dir entry)
              entry.commit_hash
              files)
          ≡ lookup q files
    unfolding drop_ref
    drop_ref_lem files =
        let paths = paths_of_entry L F tools hub_dir entry in
        elim (Result-cases (current_commit files paths (codes "main"))) [
          | inl (cur, named) ↦
              ground
                (arith, named, not_ref, lookup-try_remove (ref_path paths (codes "main")) q files)
          | inr (e, failed) ↦ ground (arith, failed)
        ]

    drop_plumbing_lem :
        (files : List (Text × Text))
        → lookup q (
            drop_plumbing L F tools hub_dir
              (paths_of_entry L F tools hub_dir entry)
              entry.commit_hash
              files)
          ≡ lookup q files
    unfolding drop_plumbing
    drop_plumbing_lem files =
        let paths = paths_of_entry L F tools hub_dir entry in
        let fewer = remove_all tools.remove_succeeds (snapshot_dir paths entry.commit_hash) files in
        ground (
          arith,
          below,
          not_tree,
          drop_ref_lem (try_remove L F tools hub_dir (tree_path paths entry.commit_hash) fewer),
          lookup-try_remove (tree_path paths entry.commit_hash) q fewer,
          lookup-remove_all tools.remove_succeeds (snapshot_dir paths entry.commit_hash) q files,
        )

    drop_blob_lem :
        (paths : Paths) (f : FileManifest) (t : Held L F)
        → IsSame t
        → IsSame (drop_blob L F tools hub_dir paths remaining f t).1
    unfolding drop_blob remove_blob IsSame
    drop_blob_lem paths f t (refs, files) =
        let blob = clean (blob_path paths f.blob_name) in
        (
          ground (arith, refs),
          λ kept. ground (
            arith,
            files kept,
            kept,
            lookup-remove blob q t.files,
            text_Eq.beq_iff blob q,
            ap (λ (p : Text). member p remaining) {x = blob} {y = q},
          ),
        )

    drop_blobs_lem :
        (paths : Paths) (fs : List FileManifest) (t : Held L F)
        → IsSame t
        → IsSame (drop_blobs L F tools hub_dir paths remaining fs t).1
    unfolding drop_blobs
    drop_blobs_lem paths [] t k = k
    drop_blobs_lem paths (f ∷ fs) t k =
        and_next_lem IsSame (drop_blob L F tools hub_dir paths remaining f t)
          (drop_blobs L F tools hub_dir paths remaining fs) (drop_blob_lem paths f t k)
          (drop_blobs_lem paths fs)

    drop_entry_lem :
        (t : Held L F) → IsSame t → IsSame (drop_entry L F tools hub_dir entry.commit_hash t).1
    unfolding drop_entry IsSame
    drop_entry_lem t (refs, files) = (ground (arith, refs), λ kept. ground (arith, files kept))

    drop_rest_lem : IsSame (drop_rest L F tools hub_dir entry remaining s).1
    unfolding drop_rest drop_cache IsSame
    drop_rest_lem =
        let blobs =
          drop_blobs L F tools hub_dir (paths_of_entry L F tools hub_dir entry) remaining
            entry.files s in
        let forget = drop_entry L F tools hub_dir entry.commit_hash in
        and_next_lem IsSame (and_next blobs forget) (drop_cache L F tools hub_dir entry)
          (and_next_lem IsSame blobs forget
            (drop_blobs_lem (paths_of_entry L F tools hub_dir entry) entry.files s
              (refl, λ kept. refl))
            drop_entry_lem)
          (λ t (refs, files). (refs, λ kept. drop_plumbing_lem t.files ∙ files kept))

  module _ (s : Held L F) where
    SameFiles : Held L F → Type 0
    SameFiles t = t.files ≡ s.files

    drop_cids_lem :
        (keep cs : List L.Cid) (t : Held L F)
        → SameFiles t
        → SameFiles (drop_cids L F tools hub_dir keep cs t).1
    unfolding drop_cids drop_cid SameFiles
    drop_cids_lem keep [] t k = k
    drop_cids_lem keep (c ∷ cs) t k =
        and_next_lem SameFiles (drop_cid L F tools hub_dir keep c t)
          (drop_cids L F tools hub_dir keep cs) (ground (arith, k)) (drop_cids_lem keep cs)

  module _ (entry : Entry) (q : Text) (s : Held L F)
      (below : is_below (snapshot_dir (paths_of_entry L F tools hub_dir entry) entry.commit_hash) q
        ≡ false)
      (not_tree : text_eq (tree_path (paths_of_entry L F tools hub_dir entry) entry.commit_hash) q
        ≡ false)
      (not_ref : text_eq (ref_path (paths_of_entry L F tools hub_dir entry) (codes "main")) q
        ≡ false) where
    KeepsReferenced : Held L F → Type 0
    KeepsReferenced t =
        (remaining : List Text)
        → referenced_paths L F tools hub_dir t.refs ≡ some remaining
        → member q remaining ≡ true
        → lookup q t.files ≡ lookup q s.files

    same_kept : (t : Held L F) → SameFiles s t → KeepsReferenced t
    unfolding KeepsReferenced SameFiles
    same_kept t same remaining read kept = ap (lookup q) same

    along : (p r : Outcome L F) → p ≡ r → KeepsReferenced r.1 → KeepsReferenced p.1
    along p r eq k = subst (λ (o : Outcome L F). KeepsReferenced o.1) (sym eq) k

    of_rest :
        (t : Held L F)
        → SameFiles s t
        → (rest : List Text) → referenced_paths L F tools hub_dir t.refs ≡ some rest
        → KeepsReferenced (drop_rest L F tools hub_dir entry rest t).1
    unfolding KeepsReferenced SameFiles IsSame
    of_rest t same rest read remaining again kept =
        let (refs, files) = drop_rest_lem entry rest q t below not_tree not_ref in
        let equal : remaining ≡ rest =
          ground (arith, sym again ∙ ap (referenced_paths L F tools hub_dir) refs ∙ read) in
        files (subst (λ l. member q l ≡ true) equal kept) ∙ ap (lookup q) same

    drop_files_lem :
        (t : Held L F) → SameFiles s t → KeepsReferenced (drop_files L F tools hub_dir entry t).1
    unfolding drop_files
    drop_files_lem t same = elim (Option-cases (referenced_paths L F tools hub_dir t.refs)) [
      | inl failed ↦
          along (drop_files L F tools hub_dir entry t) (err query_failed, t)
            (ground (arith, failed)) (same_kept t same)
      | inr (rest, read) ↦
          along (drop_files L F tools hub_dir entry t) (drop_rest L F tools hub_dir entry rest t)
            (ground (arith, read)) (of_rest t same rest read)
    ]

    drop_all_lem :
        (keep target : List L.Cid)
        → KeepsReferenced (drop_all L F tools hub_dir entry keep target s).1
    unfolding drop_all SameFiles
    drop_all_lem keep target =
        and_next_after (SameFiles s) KeepsReferenced
          (drop_cids L F tools hub_dir keep (tools.shuffle target) s)
          (drop_files L F tools hub_dir entry) (drop_cids_lem s keep (tools.shuffle target) s refl)
          same_kept drop_files_lem

    unchanged : KeepsReferenced s
    unfolding SameFiles
    unchanged = same_kept s refl

    evict_target_lem :
        (keep : List L.Cid) → KeepsReferenced (evict_target L F tools hub_dir entry keep s).1
    unfolding evict_target
    evict_target_lem keep = elim (Option-cases (L.decode entry.actual_cid)) [
      | inl bad ↦
          along (evict_target L F tools hub_dir entry keep s) (err bad_actual_cid, s)
            (ground (arith, bad)) unchanged
      | inr (root, good) ↦
          elim (Option-cases (
            walk ⦃e = L.cid_Eq⦄ tools.dag s.blocks (enough ⦃e = L.cid_Eq⦄ tools.dag s.blocks) root
              [])) [
                | inl short ↦
                    along (evict_target L F tools hub_dir entry keep s) (err no_fuel, s)
                      (ground (arith, good, short)) unchanged
                | inr (target, done) ↦
                    along (evict_target L F tools hub_dir entry keep s)
                      (drop_all L F tools hub_dir entry keep target s) (ground (arith, good, done))
                      (drop_all_lem keep target)
              ]
    ]

    evict_commit_lem : KeepsReferenced (evict_commit L F tools hub_dir entry s).1
    unfolding evict_commit
    evict_commit_lem = elim (Bool-cases tools.list_succeeds) [
      | inr failed ↦
          along (evict_commit L F tools hub_dir entry s) (err list_failed, s)
            (ground (arith, failed)) unchanged
      | inl listed ↦
          elim (Option-cases
            (keep_others L F tools hub_dir entry.commit_hash s.blocks s.shared [])) [
              | inl short ↦
                  along (evict_commit L F tools hub_dir entry s) (err no_fuel, s)
                    (ground (arith, listed, short)) unchanged
              | inr (keep, done) ↦
                  along (evict_commit L F tools hub_dir entry s)
                    (evict_target L F tools hub_dir entry keep s) (ground (arith, listed, done))
                    (evict_target_lem keep)
            ]
    ]

  -- An eviction, whether it succeeds or fails, leaves every file alone to which the filestore still
  -- refers when it returns, unless the file is the tree document or the ref of the entry or is in the
  -- snapshot of its commit.
  pub evict_commit_keeps_referenced :
      (entry : Entry) (q : Text) (s : Held L F) (remaining : List Text)
      → is_below (snapshot_dir (paths_of_entry L F tools hub_dir entry) entry.commit_hash) q ≡ false
      → text_eq (tree_path (paths_of_entry L F tools hub_dir entry) entry.commit_hash) q ≡ false
      → text_eq (ref_path (paths_of_entry L F tools hub_dir entry) (codes "main")) q ≡ false
      → referenced_paths L F tools hub_dir (evict_commit L F tools hub_dir entry s).1.refs
        ≡ some remaining
      → member q remaining ≡ true
      → lookup q (evict_commit L F tools hub_dir entry s).1.files ≡ lookup q s.files
  unfolding KeepsReferenced
  evict_commit_keeps_referenced entry q s remaining below not_tree not_ref read kept =
      evict_commit_lem entry q s below not_tree not_ref remaining read kept
