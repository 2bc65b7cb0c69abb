-- ===== src/Hfcache/Snapshot/Names.antt =====
-- The paths of the files that ReadSnapshot lists.
use hf_ipfs.Prelude.{
  ℕ, ◌≡◌, ◌⊎◌, refl, subst, inl, inr, Bool, true, false, not, ◌&&◌, ◌||◌, List, [], ◌∷◌, ◌++◌,
  append_assoc, Option, some, Text, codes, has_prefix, has_byte, split, push_byte, is_empty, ◌==◌,
  ok, >>=-eq-ok, arith, All, All-append, All-same_count, Bool-cases, Option-cases,
}
use hf_ipfs.Mapping.Entries.{FileManifest}
use hf_ipfs.Hfcache.Paths.{Paths, snapshot_dir, path_join}
use hf_ipfs.Hfcache.Paths.Parts.{path_base}
use hf_ipfs.Hfcache.Sorting.{sort_manifests}
use hf_ipfs.Hfcache.Sorting.Laws.{sort_manifests_lem}
use hf_ipfs.Hfcache.Safety.{
  safe_blob_name, safe_rel_path, safe_segments, backslash, is_inside_bookkeeping,
}
use hf_ipfs.Hfcache.Snapshot.{
  FileInfo, Item, file, directory, Items, nil, cons, is_skipped, rel_in, hash_file, source_of,
  manifest_of, hashed, read_stat, read_file, read_item, read_items, read_snapshot,
}

has_byte-append : (b : ℕ) (s t : Text) → has_byte b (s ++ t) ≡ (has_byte b s || has_byte b t)
unfolding has_byte
has_byte-append b [] t = refl
has_byte-append b (c ∷ s) t = ground (arith, has_byte-append b s t)

split_cons : (s : Text) → (x : Text) × (xs : List Text) × (split b'/' s ≡ x ∷ xs)
unfolding split push_byte
split_cons [] = ([], [], refl)
split_cons (c ∷ s) = elim (Bool-cases (c == b'/')) [
  | inl slash ↦ ([], split b'/' s, ground (arith, slash))
  | inr byte ↦ let (x, xs, eq) = split_cons s in (c ∷ x, xs, ground (arith, byte, eq))
]

split-append : (s t : Text) → split b'/' (s ++ b'/' ∷ t) ≡ split b'/' s ++ split b'/' t
unfolding split push_byte
split-append [] t = ground arith
split-append (c ∷ s) t = let (x, xs, eq) = split_cons s in ground (arith, split-append s t, eq)

split_name : (s : Text) → has_byte b'/' s ≡ false → split b'/' s ≡ s ∷ []
unfolding split push_byte has_byte
split_name [] h = refl
split_name (c ∷ s) h = ground (arith, h, split_name s)

safe_segments-append :
    (s t : List Text) → safe_segments (s ++ t) ≡ (safe_segments s && safe_segments t)
unfolding safe_segments
safe_segments-append [] t = refl
safe_segments-append (x ∷ s) t = ground (arith, safe_segments-append s t)

safe_rel_path-name : (name : Text) → safe_blob_name name ≡ true → safe_rel_path name ≡ true
unfolding safe_rel_path safe_blob_name safe_segments has_prefix has_byte is_empty
safe_rel_path-name [] h = absurd (ground (arith, h))
safe_rel_path-name (c ∷ s) h = ground (arith, h, split_name (c ∷ s))

has_byte_slash : (t : Text) → has_byte backslash (b'/' ∷ t) ≡ has_byte backslash t
unfolding has_byte
has_byte_slash t = refl

has_prefix_head :
    (c : ℕ) (x y : Text) → has_prefix (codes "/") (c ∷ x) ≡ has_prefix (codes "/") (c ∷ y)
unfolding has_prefix
has_prefix_head c x y = refl

safe_rel_path-append :
    (dir name : Text)
    → safe_rel_path dir ≡ true
    → safe_blob_name name ≡ true
    → safe_rel_path (dir ++ b'/' ∷ name) ≡ true
unfolding safe_rel_path safe_blob_name safe_segments is_empty
safe_rel_path-append [] name h k = absurd (ground (arith, h))
safe_rel_path-append (c ∷ s) name h k =
    let slash : has_byte backslash (b'/' ∷ name) ≡ has_byte backslash name = has_byte_slash name in
    ground (
      arith,
      h,
      k,
      slash,
      split-append (c ∷ s) name,
      split_name name,
      has_byte-append backslash (c ∷ s) (b'/' ∷ name),
      has_prefix_head c s (s ++ b'/' ∷ name),
      safe_segments-append (split b'/' (c ∷ s)) (split b'/' name),
    )

-- All names below are those of one path segment without a backslash.
unfoldable mutual
  pub safe_item : Item → Bool
  safe_item (file name info) = safe_blob_name name
  safe_item (directory name readable items) = safe_blob_name name && safe_items items

  pub safe_items : Items → Bool
  safe_items nil = true
  safe_items (cons item items) = safe_item item && safe_items items

-- A directory is the root or a safe path.
IsDir : Text → Type 0
IsDir dir = (dir ≡ []) ⊎ (safe_rel_path dir ≡ true)

rel_in_lem :
    (dir name : Text)
    → IsDir dir
    → safe_blob_name name ≡ true
    → safe_rel_path (rel_in dir name) ≡ true
unfolding rel_in is_empty IsDir
rel_in_lem [] name h k = safe_rel_path-name name k
rel_in_lem (c ∷ dir) name (inl e) k = absurd (ground (arith, e))
rel_in_lem (c ∷ dir) name (inr h) k =
    rw (append_assoc (c ∷ dir) (codes "/") name) (safe_rel_path-append (c ∷ dir) name h k)

is_listed : FileManifest → Bool
is_listed f = safe_rel_path f.path && not (is_inside_bookkeeping f.path)

module _ (open_file : Text → Option Text) (sha256_hex : Text → Text) (p : Paths)
    (commit : Text) where
  Listed : List FileManifest → Type 0
  Listed fs = All (λ f. is_listed f ≡ true) fs

  read_file_lem :
      (r name : Text) (info : FileInfo) (fs : List FileManifest)
      → safe_rel_path r ≡ true
      → read_file open_file sha256_hex p commit r name info ≡ ok fs
      → Listed fs
  unfolding read_file read_stat hashed manifest_of is_listed Listed
  read_file_lem r name info fs safe h = elim (Bool-cases (is_inside_bookkeeping r)) [
    | inl inside ↦ subst Listed {x = []} (ground (arith, inside, h)) tt
    | inr out ↦ elim (Option-cases info.stat) [
      | inl missing ↦ absurd (ground (arith, out, missing, h))
      | inr (st, found) ↦ elim (Bool-cases st.is_regular) [
        | inr other ↦ subst Listed {x = []} (ground (arith, out, found, other, h)) tt
        | inl regular ↦
            let at =
              source_of open_file sha256_hex p commit (path_join (snapshot_dir p commit ∷ r ∷ []))
                name info.link in
            elim (Option-cases (hash_file open_file sha256_hex p commit at.0)) [
              | inl closed ↦ absurd (ground (arith, out, found, regular, closed, h))
              | inr (digest, done) ↦
                  subst Listed
                    {x = manifest_of open_file sha256_hex p commit r name st at digest ∷ []}
                    (ground (arith, out, found, regular, done, h)) (ground (arith, out, safe), tt)
            ]
      ]
    ]
  ]

  mutual
    unfolding read_item read_items safe_item safe_items Listed IsDir

    read_item_lem :
        (dir : Text) (item : Item) (fs : List FileManifest)
        → IsDir dir
        → safe_item item ≡ true
        → read_item open_file sha256_hex p commit dir item ≡ ok fs
        → Listed fs
    read_item_lem dir (file name info) fs at safe h =
        read_file_lem (rel_in dir name) name info fs (rel_in_lem dir name at safe) h
    read_item_lem dir (directory name readable items) fs at safe h =
        elim (Bool-cases (is_skipped name)) [
          | inl skipped ↦ subst Listed {x = []} (ground (arith, skipped, h)) tt
          | inr kept ↦
              read_items_lem (rel_in dir name) items fs
                (inr (rel_in_lem dir name at (ground (arith, safe)))) (ground (arith, safe))
                (ground (arith, kept, h))
        ]

    read_items_lem :
        (dir : Text) (items : Items) (fs : List FileManifest)
        → IsDir dir
        → safe_items items ≡ true
        → read_items open_file sha256_hex p commit dir items ≡ ok fs
        → Listed fs
    read_items_lem dir nil fs at safe h = subst Listed {x = []} (ground (arith, h)) tt
    read_items_lem dir (cons item items) fs at safe h =
        let (one, first, later) =
          >>=-eq-ok (read_item open_file sha256_hex p commit dir item) _ h in
        let (rest, second, last) =
          >>=-eq-ok (read_items open_file sha256_hex p commit dir items) _ later in
        subst Listed {x = one ++ rest} (ground (arith, last)) (
          All-append (λ f. is_listed f ≡ true) one rest
            (read_item_lem dir item one at (ground (arith, safe)) first)
            (read_items_lem dir items rest at (ground (arith, safe)) second))

  -- Where the names of a snapshot have no separator and no backslash and none is `.` or `..`, each file
  -- that ReadSnapshot lists has a path that SafeRelPath accepts and that is not inside a bookkeeping
  -- directory.
  pub read_snapshot-All :
      (readable : Bool) (items : Items) (fs : List FileManifest)
      → safe_items items ≡ true
      → read_snapshot open_file sha256_hex p commit (some (readable, items)) ≡ ok fs
      → All (λ f. (safe_rel_path f.path && not (is_inside_bookkeeping f.path)) ≡ true) fs
  unfolding read_snapshot Listed is_listed IsDir
  read_snapshot-All readable items fs safe h =
      elim (Bool-cases (is_skipped (path_base (snapshot_dir p commit)))) [
        | inl skipped ↦ subst Listed {x = []} (ground (arith, skipped, h)) tt
        | inr kept ↦
            let (gs, read, last) =
              >>=-eq-ok (read_items open_file sha256_hex p commit [] items)
                (λ gs. ok (sort_manifests gs)) {b = fs} (ground (arith, kept, h)) in
            subst Listed {x = sort_manifests gs} (ground (arith, last)) (
              All-same_count is_listed gs (sort_manifests gs) (sort_manifests_lem gs).1
                (read_items_lem [] items gs (inl refl) safe read))
      ]
