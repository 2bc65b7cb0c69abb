-- ===== src/Evict/Success.antt =====
-- What an eviction that succeeds has removed.
use mathlib.Core.List.{Memᴰ}
use mathlib.Core.List.Memᴰ.{cases_cons}
use hf_ipfs.Prelude.{
  ◌≡◌, sym, subst, ap, ◌∙◌, inl, inr, true, false, List, [], ◌∷◌, none, some, Text, codes, text_eq,
  ok, arith, Option-cases, and_next-ok, and_next, Result-cases, All,
}
use hf_ipfs.Prelude.Table.{text_Eq, lookup, member, lookup-remove}
use hf_ipfs.Cids.{CidLib}
use hf_ipfs.Mapping.Entries.{Entry, FileManifest}
use hf_ipfs.Pull.Transfer.{Filestore}
use hf_ipfs.Hfcache.Paths.{Paths, snapshot_dir, ref_path, tree_path, blob_path, clean}
use hf_ipfs.Hfcache.Safety.{safe_blob_name}
use hf_ipfs.Hfcache.Refs.{current_commit}
use hf_ipfs.Evict.Walk.{walk, enough}
use hf_ipfs.Evict.Files.{lookup-remove_all, lookup-try_remove, delete_entry_lem}
use hf_ipfs.Evict.{
  Outcome, Tools, Held, is_below, remove_all, delete_entry, keep_others, drop_cids, remove_blob,
  drop_blob, drop_blobs, drop_entry, try_remove, drop_ref, drop_plumbing, drop_cache, drop_rest,
  drop_files, drop_all, evict_target, evict_commit, paths_of_entry, referenced_paths,
}

module _ (L : CidLib) (F : Filestore) (tools : Tools L F) (hub_dir : Text) where
  module _ (paths : Paths) (remaining : List Text) where
    blob_of : FileManifest → Text
    blob_of f = clean (blob_path paths f.blob_name)

    IsGone : FileManifest → Held L F → Type 0
    IsGone f t = lookup (blob_of f) t.files ≡ none

    -- What a step of the loop over the files leaves as it is.
    record Forgets (s t : Held L F) : Type 0 where
      same_refs : t.refs ≡ s.refs
      fewer : (p : Text) → lookup p s.files ≡ none → lookup p t.files ≡ none

    drop_blob_lem :
        (f : FileManifest) (s t : Held L F)
        → drop_blob L F tools hub_dir paths remaining f s ≡ (ok tt, t)
        → Forgets s t
    unfolding drop_blob remove_blob
    drop_blob_lem f s t h = record {
      same_refs = ground (arith, h);
      fewer = λ p absent.
          ground (arith, h, absent, lookup-remove (clean (blob_path paths f.blob_name)) p s.files);
    }

    drop_blob-IsGone :
        (f : FileManifest) (s t : Held L F)
        → safe_blob_name f.blob_name ≡ true
        → member (blob_of f) remaining ≡ false
        → drop_blob L F tools hub_dir paths remaining f s ≡ (ok tt, t)
        → IsGone f t
    unfolding drop_blob remove_blob blob_of IsGone
    drop_blob-IsGone f s t safe free h =
        let blob = clean (blob_path paths f.blob_name) in
        ground (arith, h, safe, free, text_Eq.beq_iff blob blob, lookup-remove blob blob s.files)

    drop_blobs_lem :
        (fs : List FileManifest) (s t : Held L F)
        → drop_blobs L F tools hub_dir paths remaining fs s ≡ (ok tt, t)
        → Forgets s t
    unfolding drop_blobs
    drop_blobs_lem [] s t h = record {
      same_refs = ground (arith, h);
      fewer = λ p absent. ground (arith, h, absent);
    }
    drop_blobs_lem (f ∷ fs) s t h =
        let (m, first, later) =
          and_next-ok (drop_blob L F tools hub_dir paths remaining f s)
            (drop_blobs L F tools hub_dir paths remaining fs) t h in
        let one = drop_blob_lem f s m first in
        let rest = drop_blobs_lem fs m t later in
        record {
          same_refs = rest.same_refs ∙ one.same_refs;
          fewer = λ p absent. rest.fewer p (one.fewer p absent);
        }

    drop_blobs-IsGone :
        (fs : List FileManifest) (f : FileManifest) (s t : Held L F)
        → Memᴰ f fs
        → safe_blob_name f.blob_name ≡ true
        → member (blob_of f) remaining ≡ false
        → drop_blobs L F tools hub_dir paths remaining fs s ≡ (ok tt, t)
        → IsGone f t
    unfolding drop_blobs IsGone
    drop_blobs-IsGone [] f s t there safe free h = elim there [ ]
    drop_blobs-IsGone (g ∷ fs) f s t there safe free h =
        let (m, first, later) =
          and_next-ok (drop_blob L F tools hub_dir paths remaining g s)
            (drop_blobs L F tools hub_dir paths remaining fs) t h in
        elim (cases_cons there) [
          | inl same ↦ (drop_blobs_lem fs m t later).fewer (blob_of f) (
              drop_blob-IsGone f s m safe free (
                subst (λ x. drop_blob L F tools hub_dir paths remaining x s ≡ (ok tt, m)) (sym same)
                  first))
          | inr behind ↦ drop_blobs-IsGone fs f m t behind safe free later
        ]

  drop_ref_fewer :
      (paths : Paths) (commit p : Text) (files : List (Text × Text))
      → lookup p files ≡ none
      → lookup p (drop_ref L F tools hub_dir paths commit files) ≡ none
  unfolding drop_ref
  drop_ref_fewer paths commit p files absent =
      elim (Result-cases (current_commit files paths (codes "main"))) [
        | inl (cur, named) ↦ ground (
          arith,
          named,
          absent,
          lookup-try_remove L F tools hub_dir (ref_path paths (codes "main")) p files,
        )
        | inr (e, failed) ↦ ground (arith, failed, absent)
      ]

  drop_plumbing_fewer :
      (paths : Paths) (commit p : Text) (files : List (Text × Text))
      → lookup p (remove_all tools.remove_succeeds (snapshot_dir paths commit) files) ≡ none
      → lookup p (drop_plumbing L F tools hub_dir paths commit files) ≡ none
  unfolding drop_plumbing
  drop_plumbing_fewer paths commit p files absent =
      let rest = remove_all tools.remove_succeeds (snapshot_dir paths commit) files in
      drop_ref_fewer paths commit p (try_remove L F tools hub_dir (tree_path paths commit) rest) (
        ground (arith, absent, lookup-try_remove L F tools hub_dir (tree_path paths commit) p rest))

  -- The last part of an eviction that succeeds.
  evict_commit_rest :
      (entry : Entry) (s t : Held L F)
      → evict_commit L F tools hub_dir entry s ≡ (ok tt, t)
      → (m : Held L F) × (rest : List Text) × (referenced_paths L F tools hub_dir m.refs
          ≡ some rest)
        × (drop_rest L F tools hub_dir entry rest m ≡ (ok tt, t))
  unfolding evict_commit evict_target drop_all drop_files
  evict_commit_rest entry s t h =
      elim (Option-cases (keep_others L F tools hub_dir entry.commit_hash s.blocks s.shared [])) [
        | inl short ↦ absurd (ground (arith, h, short))
        | inr (keep, kept) ↦ elim (Option-cases (L.decode entry.actual_cid)) [
          | inl bad ↦ absurd (ground (arith, h, kept, bad))
          | inr (root, good) ↦
              elim (Option-cases (
                walk ⦃e = L.cid_Eq⦄ tools.dag s.blocks (enough ⦃e = L.cid_Eq⦄ tools.dag s.blocks)
                  root [])) [
                    | inl short ↦ absurd (ground (arith, h, kept, good, short))
                    | inr (target, done) ↦
                        let (m, first, later) =
                          and_next-ok (drop_cids L F tools hub_dir keep (tools.shuffle target) s)
                            (drop_files L F tools hub_dir entry) t
                            (ground (arith, h, kept, good, done)) in
                        elim (Option-cases (referenced_paths L F tools hub_dir m.refs)) [
                          | inl failed ↦ absurd (ground (arith, later, failed))
                          | inr (rest, read) ↦ (m, rest, read, ground (arith, later, read))
                        ]
                  ]
        ]
      ]

  module _ (entry : Entry) (f : FileManifest) (p : Text) where
    abbrev paths : Paths
    paths = paths_of_entry L F tools hub_dir entry

    -- A blob, a file of the snapshot, the tree document and the entries of the commit are gone.
    pub record IsEvicted (t : Held L F) : Type 0 where
      pub no_blob : lookup (clean (blob_path paths f.blob_name)) t.files ≡ none
      pub no_snapshot_file : lookup p t.files ≡ none
      pub no_tree : lookup (tree_path paths entry.commit_hash) t.files ≡ none
      pub no_entry : All (λ o. text_eq o.commit_hash entry.commit_hash ≡ false) t.shared

    module _ (there : Memᴰ f entry.files) (safe : safe_blob_name f.blob_name ≡ true)
        (below : is_below (snapshot_dir paths entry.commit_hash) p ≡ true)
        (removable : tools.remove_succeeds p ≡ true)
        (tree_removable : tools.remove_succeeds (tree_path paths entry.commit_hash) ≡ true) where
      drop_cache_lem :
          (m t : Held L F)
          → lookup (clean (blob_path paths f.blob_name)) m.files ≡ none
          → All (λ o. text_eq o.commit_hash entry.commit_hash ≡ false) m.shared
          → drop_cache L F tools hub_dir entry m ≡ (ok tt, t)
          → IsEvicted t
      unfolding drop_cache drop_plumbing
      drop_cache_lem m t blob entries h =
          let commit = entry.commit_hash in
          let after : Held L F = record m {
            files = drop_plumbing L F tools hub_dir paths commit m.files;
          } in
          let same : after ≡ t = ap (λ (o : Outcome L F). o.1) h in
          let rest = remove_all tools.remove_succeeds (snapshot_dir paths commit) m.files in
          let absent : (x : Text) → lookup x rest ≡ none → lookup x t.files ≡ none = λ x none_left.
            ap (λ (u : Held L F). lookup x u.files) (sym same)
            ∙ drop_plumbing_fewer paths commit x m.files none_left in
          record {
            no_blob = absent (clean (blob_path paths f.blob_name)) (
                ground (
                  arith,
                  blob,
                  lookup-remove_all tools.remove_succeeds (snapshot_dir paths commit)
                      (clean (blob_path paths f.blob_name)) m.files,
                ));
            no_snapshot_file = absent p (
                ground (
                  arith,
                  below,
                  removable,
                  lookup-remove_all tools.remove_succeeds (snapshot_dir paths commit) p m.files,
                ));
            no_tree =
                ap (λ (u : Held L F). lookup (tree_path paths commit) u.files) (sym same)
                ∙ drop_ref_fewer paths commit (tree_path paths commit)
                    (try_remove L F tools hub_dir (tree_path paths commit) rest)
                    (ground (
                      arith,
                      tree_removable,
                      lookup-try_remove L F tools hub_dir (tree_path paths commit)
                          (tree_path paths commit) rest,
                      text_Eq.beq_iff (tree_path paths commit) (tree_path paths commit),
                    ));
            no_entry =
                subst (λ (u : Held L F). All (λ o. text_eq o.commit_hash commit ≡ false) u.shared)
                  same entries;
          }

      drop_rest_lem :
          (remaining : List Text) (s t : Held L F)
          → drop_rest L F tools hub_dir entry remaining s ≡ (ok tt, t)
          → (t.refs ≡ s.refs)
            × (member (clean (blob_path paths f.blob_name)) remaining ≡ false → IsEvicted t)
      unfolding drop_rest drop_cache drop_entry IsGone blob_of
      drop_rest_lem remaining s t h =
          let blobs = drop_blobs L F tools hub_dir paths remaining entry.files s in
          let forget = drop_entry L F tools hub_dir entry.commit_hash in
          let (m, both, last) =
            and_next-ok (and_next blobs forget) (drop_cache L F tools hub_dir entry) t h in
          let (n, first, middle) = and_next-ok blobs forget m both in
          let left : record n { shared = delete_entry entry.commit_hash n.shared } ≡ m =
            ground (arith, middle) in
          (
            ap (λ (o : Outcome L F). o.1.refs) (sym last)
                ∙ ap (λ (u : Held L F). u.refs) (sym left)
                ∙ (drop_blobs_lem paths remaining entry.files s n first).same_refs,
            λ free.
                drop_cache_lem m t
                  (ap (λ (u : Held L F). lookup (clean (blob_path paths f.blob_name)) u.files)
                      (sym left)
                    ∙ drop_blobs-IsGone paths remaining entry.files f s n there safe free first)
                  (subst
                    (λ (u : Held L F).
                      All (λ o. text_eq o.commit_hash entry.commit_hash ≡ false) u.shared)
                    left (delete_entry_lem entry.commit_hash n.shared))
                  last,
          )

      pub evict_commit-IsEvicted :
          (s t : Held L F) (remaining : List Text)
          → evict_commit L F tools hub_dir entry s ≡ (ok tt, t)
          → referenced_paths L F tools hub_dir t.refs ≡ some remaining
          → member (clean (blob_path paths f.blob_name)) remaining ≡ false
          → IsEvicted t
      evict_commit-IsEvicted s t remaining h read free =
          let (m, rest, before, last) = evict_commit_rest entry s t h in
          let (refs, gone) = drop_rest_lem rest m t last in
          let equal : remaining ≡ rest =
            ground (arith, sym read ∙ ap (referenced_paths L F tools hub_dir) refs ∙ before) in
          gone (subst (λ l. member (clean (blob_path paths f.blob_name)) l ≡ false) equal free)
