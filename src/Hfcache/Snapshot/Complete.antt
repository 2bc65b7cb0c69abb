-- ===== src/Hfcache/Snapshot/Complete.antt =====
-- A snapshot that passes SnapshotComplete can be read.
use hf_ipfs.Prelude.{
  ◌≡◌, refl, inl, inr, Bool, true, false, not, ◌||◌, ◌&&◌, List, [], ◌∷◌, ◌++◌, Option, none, some,
  Text, Result, ok, arith, Bool-cases, Option-cases,
}
use hf_ipfs.Mapping.Entries.{FileManifest}
use hf_ipfs.Hfcache.Paths.{Paths, snapshot_dir, path_join}
use hf_ipfs.Hfcache.Paths.Parts.{path_base}
use hf_ipfs.Hfcache.Sorting.{sort_manifests}
use hf_ipfs.Hfcache.Safety.{is_inside_bookkeeping}
use hf_ipfs.Hfcache.Snapshot.{
  SnapshotError, FileInfo, Item, file, directory, Items, nil, cons, is_skipped, rel_in, hash_file,
  source_of, hashed, manifest_of, read_stat, read_file, read_item, read_items, read_snapshot,
  complete_item, complete_items, snapshot_complete,
}

module _ (open_file : Text → Option Text) (sha256_hex : Text → Text) (p : Paths)
    (commit : Text) where
  -- The bytes behind an entry can be read, if it is a regular file that the walk does not leave out.
  unfoldable pub opens_stat : Text → Text → FileInfo → Bool
  opens_stat r name info = elim info.stat as (λ o. Bool) [
    | none ↦ true
    | some st ↦
        not st.is_regular
        || (elim (open_file
              (source_of open_file sha256_hex p commit (path_join (snapshot_dir p commit ∷ r ∷ []))
                name info.link).0)
            as (λ o. Bool) [ none ↦ false | some content ↦ true ])
  ]

  -- The files of a snapshot that ReadSnapshot reads can be opened.
  unfoldable mutual
    pub opens_item : Text → Item → Bool
    opens_item dir (file name info) =
        is_inside_bookkeeping (rel_in dir name) || opens_stat (rel_in dir name) name info
    opens_item dir (directory name readable items) =
        is_skipped name || opens_items (rel_in dir name) items

    pub opens_items : Text → Items → Bool
    opens_items dir nil = true
    opens_items dir (cons item items) = opens_item dir item && opens_items dir items

  Reads : Result SnapshotError (List FileManifest) → Type 0
  Reads r = (fs : List FileManifest) × (r ≡ ok fs)

  read_file_lem :
      (r name : Text) (info : FileInfo)
      → complete_item (file name info) ≡ true
      → (is_inside_bookkeeping r || opens_stat r name info) ≡ true
      → Reads (read_file open_file sha256_hex p commit r name info)
  unfolding read_file read_stat hashed hash_file complete_item opens_stat Reads
  read_file_lem r name info h opens = elim (Bool-cases (is_inside_bookkeeping r)) [
    | inl inside ↦ ([], ground (arith, inside))
    | inr out ↦ elim (Option-cases info.stat) [
      | inl missing ↦ absurd (ground (arith, missing, h))
      | inr (st, found) ↦ elim (Bool-cases st.is_regular) [
        | inr other ↦ ([], ground (arith, out, found, other))
        | inl regular ↦
            let at =
              source_of open_file sha256_hex p commit (path_join (snapshot_dir p commit ∷ r ∷ []))
                name info.link in
            elim (Option-cases (open_file at.0)) [
              | inl shut ↦ absurd (ground (arith, out, found, regular, shut, opens))
              | inr (content, opened) ↦ (
                manifest_of open_file sha256_hex p commit r name st at (sha256_hex content) ∷ [],
                ground (arith, out, found, regular, opened),
              )
            ]
      ]
    ]
  ]

  mutual
    unfolding read_item read_items complete_item complete_items opens_item opens_items Reads

    read_item_lem :
        (dir : Text) (item : Item)
        → complete_item item ≡ true
        → opens_item dir item ≡ true
        → Reads (read_item open_file sha256_hex p commit dir item)
    read_item_lem dir (file name info) h opens = read_file_lem (rel_in dir name) name info h opens
    read_item_lem dir (directory name readable items) h opens =
        elim (Bool-cases (is_skipped name)) [
          | inl skipped ↦ ([], ground (arith, skipped))
          | inr kept ↦
              let (fs, below) =
                read_items_lem (rel_in dir name) items (ground (arith, h))
                  (ground (arith, kept, opens)) in
              (fs, ground (arith, kept, below, h))
        ]

    read_items_lem :
        (dir : Text) (items : Items)
        → complete_items items ≡ true
        → opens_items dir items ≡ true
        → Reads (read_items open_file sha256_hex p commit dir items)
    read_items_lem dir nil h opens = ([], refl)
    read_items_lem dir (cons item items) h opens =
        let (fs, first) = read_item_lem dir item (ground (arith, h)) (ground (arith, opens)) in
        let (gs, rest) = read_items_lem dir items (ground (arith, h)) (ground (arith, opens)) in
        (fs ++ gs, ground (arith, first, rest))

  -- ReadSnapshot gives a list of files for a snapshot that SnapshotComplete accepts, if the bytes behind each
  -- of its regular files that the walk does not leave out can be read.
  pub read_snapshot_complete :
      (readable : Bool) (items : Items)
      → snapshot_complete (some (readable, items)) ≡ true
      → opens_items [] items ≡ true
      → (fs : List FileManifest) × (read_snapshot open_file sha256_hex p commit
            (some (readable, items))
          ≡ ok fs)
  unfolding read_snapshot snapshot_complete complete_items Reads
  read_snapshot_complete readable nil h opens = absurd (ground (arith, h))
  read_snapshot_complete readable (cons item items) h opens =
      let (fs, below) = read_items_lem [] (cons item items) (ground (arith, h)) opens in
      elim (Bool-cases (is_skipped (path_base (snapshot_dir p commit)))) [
        | inl skipped ↦ ([], ground (arith, skipped))
        | inr kept ↦ (sort_manifests fs, ground (arith, kept, below, h))
      ]
