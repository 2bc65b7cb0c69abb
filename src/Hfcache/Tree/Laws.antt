-- ===== src/Hfcache/Tree/Laws.antt =====
-- A tree document gives back to a list of files what a walk of a snapshot cannot see.
use hf_ipfs.Prelude.{
  ◌≡◌, refl, ap, ◌∙◌, true, false, List, [], ◌∷◌, none, some, Text, text_eq, text_eq_iff, is_empty,
  ok, map, All, All-mono, arith, Option-cases, inl, inr, ◌⊎◌,
}
use hf_ipfs.Prelude.Table.{text_Eq, lookup, insert, lookup-insert}
use hf_ipfs.Mapping.Entries.{FileManifest}
use hf_ipfs.Hfcache.Tree.{
  Tree, TreeFile, TreeJson, TreeJsonLaws, kept_fields, with_lfs_fields, with_xet, tree_entry,
  merge_files, read_tree, earlier_files, write_tree, enrich_file, enrich_files, enrich_from_tree,
}

-- What a walk of the snapshot finds out about a file.
unfoldable pub walked : FileManifest → FileManifest
walked f = record f { lfs = false; xet_hash = [] }

-- A file has a Xet hash only if LFS keeps it, and LFS knows it by one of its two digests.
pub record IsKnown (f : FileManifest) : Type 0 where
  pub xet_is_lfs : is_empty f.xet_hash ≡ false → f.lfs ≡ true
  pub lfs_has_digest : f.lfs ≡ true → (is_empty f.sha256 ≡ false) ⊎ (is_empty f.xet_hash ≡ false)

-- No two files of a list have the same path.
unfoldable pub HasDistinctPaths : List FileManifest → Type 0
HasDistinctPaths [] = Unit
HasDistinctPaths (f ∷ fs) = All (λ g. text_eq f.path g.path ≡ false) fs × HasDistinctPaths fs

merge_files_ne :
    (fs : List FileManifest) (doc : List (Text × TreeFile)) (path : Text)
    → All (λ g. text_eq path g.path ≡ false) fs
    → lookup path (merge_files fs doc) ≡ lookup path doc
unfolding merge_files
merge_files_ne [] doc path h = refl
merge_files_ne (f ∷ fs) doc path (other, h) = ground (
  arith,
  merge_files_ne fs (insert f.path (tree_entry f (lookup f.path doc)) doc) path h,
  lookup-insert f.path path (tree_entry f (lookup f.path doc)) doc,
  text_eq_iff path f.path,
  text_eq_iff f.path path,
)

none_after :
    (f : FileManifest) (t : TreeFile) (doc : List (Text × TreeFile)) (fs : List FileManifest)
    → All (λ g. text_eq f.path g.path ≡ false) fs
    → All (λ g. lookup g.path doc ≡ none) fs
    → All (λ g. lookup g.path (insert f.path t doc) ≡ none) fs
none_after f t doc [] other absent = tt
none_after f t doc (g ∷ fs) (o, other) (a, absent) =
    (ground (arith, lookup-insert f.path g.path t doc, o, a), none_after f t doc fs other absent)

merge_files_found :
    (fs : List FileManifest) (doc : List (Text × TreeFile))
    → HasDistinctPaths fs
    → All (λ g. lookup g.path doc ≡ none) fs
    → All (λ g. lookup g.path (merge_files fs doc) ≡ some (tree_entry g none)) fs
unfolding merge_files HasDistinctPaths
merge_files_found [] doc h absent = tt
merge_files_found (f ∷ fs) doc (other, h) (a, absent) = (
  merge_files_ne fs (insert f.path (tree_entry f (lookup f.path doc)) doc) f.path other
      ∙ ground (
        arith,
        lookup-insert f.path f.path (tree_entry f (lookup f.path doc)) doc,
        text_eq_iff f.path f.path,
        a,
      ),
  merge_files_found fs (insert f.path (tree_entry f (lookup f.path doc)) doc) h
      (none_after f (tree_entry f (lookup f.path doc)) doc fs other absent),
)

is_empty-eq : (s : Text) → is_empty s ≡ true → s ≡ []
unfolding is_empty
is_empty-eq [] h = refl
is_empty-eq (c ∷ s) h = ground arith

enrich_file_known :
    (J : TreeJson) (f : FileManifest)
    → IsKnown f
    → enrich_file J (some (tree_entry f none)) (walked f) ≡ f
unfolding enrich_file tree_entry kept_fields with_lfs_fields with_xet walked
enrich_file_known J f known =
    ground
      (arith, is_empty-eq f.xet_hash, is_empty-eq f.sha256, known.xet_is_lfs, known.lfs_has_digest)

enrich-All :
    (J : TreeJson) (doc : List (Text × TreeFile)) (fs : List FileManifest)
    → All IsKnown fs
    → All (λ g. lookup g.path doc ≡ some (tree_entry g none)) fs
    → map (λ f. enrich_file J (lookup f.path doc) f) (map walked fs) ≡ fs
unfolding walked
enrich-All J doc [] known found = refl
enrich-All J doc (f ∷ fs) (k, known) (e, found) =
    ap (λ g. g ∷ map (λ h. enrich_file J (lookup h.path doc) h) (map walked fs))
      (ap (λ o. enrich_file J o (walked f)) e ∙ enrich_file_known J f k)
    ∙ ap (◌∷◌ f) (enrich-All J doc fs known found)

All-absent : (fs : List FileManifest) → All (λ g. lookup {V = TreeFile} g.path [] ≡ none) fs
unfolding lookup
All-absent [] = tt
All-absent (f ∷ fs) = (refl, All-absent fs)

pub enrich_from_tree-write_tree :
    (J : TreeJson) (json : TreeJsonLaws J) (fs : List FileManifest) (text : Text)
    → All IsKnown fs
    → HasDistinctPaths fs
    → write_tree J none fs ≡ ok text
    → enrich_from_tree J (some text) (map walked fs) ≡ fs
unfolding write_tree enrich_from_tree enrich_files read_tree earlier_files
enrich_from_tree-write_tree J json fs text known distinct h =
    let doc : Tree = record { format_version = 1; tree_files = merge_files fs [] } in
    elim (Option-cases (J.encode_tree doc)) [
      | inl fails ↦ absurd (ground (arith, fails))
      | inr (s, encoded) ↦
          let (read, decoded, version, same) = json.decode-encode_tree doc s encoded in
          ground (
            arith,
            encoded,
            decoded,
            enrich-All J read.tree_files fs known (
                All-mono (λ g. lookup g.path (merge_files fs []) ≡ some (tree_entry g none))
                  (λ g. lookup g.path read.tree_files ≡ some (tree_entry g none))
                  (λ g found. same g.path ∙ found) fs
                  (merge_files_found fs [] distinct (All-absent fs))),
          )
    ]
