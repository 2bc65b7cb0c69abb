-- ===== src/Hfcache/Snapshot.antt =====
-- ReadSnapshot, SnapshotComplete, under and hashFile of internal/hfcache/cache.go.
--
-- A snapshot directory is the tree that a directory walk meets: `file` stands for all that is not a
-- directory, with what Stat and Readlink answer for it. The relative path of an entry is the names on
-- the way to it, which is what filepath.Rel gives for the joined path.
pub mod Complete
pub mod Names
use hf_ipfs.Prelude.{
  ℕ, Bool, true, false, not, ◌&&◌, ◌||◌, List, [], ◌∷◌, ◌++◌, Option, none, some, Text, codes,
  text_eq, has_prefix, is_empty, if◌then◌else◌, Result, ok, err, ◌>>=◌,
}
use hf_ipfs.Prelude.Int64.{ℤ}
use hf_ipfs.Mapping.Entries.{FileManifest}
use hf_ipfs.Hfcache.Paths.{Paths, snapshot_dir, path_join, is_rooted}
use hf_ipfs.Hfcache.Paths.Parts.{path_base, path_dir, rel}
use hf_ipfs.Hfcache.Safety.{is_inside_bookkeeping}
use hf_ipfs.Hfcache.Sorting.{sort_manifests}

pub data SnapshotError : Type 0 where
  no_snapshot unreadable stat_failed hash_failed : SnapshotError

pub record Stat : Type 0 where
  pub is_regular : Bool
  pub size : ℤ
  pub perm : ℕ
  pub mtime : ℤ

pub record FileInfo : Type 0 where
  -- os.Stat, which follows a link; none is an error
  pub stat : Option Stat
  -- os.Readlink; none is an error, as it is of a file that is no link
  pub link : Option Text

mutual
  pub data Item : Type 0 where
    file : Text → FileInfo → Item
    -- a directory, whether it can be read, and its entries in order
    directory : Text → Bool → Items → Item

  pub data Items : Type 0 where
    nil : Items
    cons : Item → Items → Items

-- under
unfoldable pub under : Text → Text → Bool
under root path = elim (rel root path) [
  | none ↦ false
  | some r ↦ not (text_eq r (codes "..")) && not (has_prefix (codes "../") r)
]

-- The names of the directories that the walk skips.
unfoldable pub is_skipped : Text → Bool
is_skipped name = text_eq name (codes ".cache") || text_eq name (codes ".git")

unfoldable pub rel_in : Text → Text → Text
rel_in dir name = if is_empty dir then name else dir ++ codes "/" ++ name

-- The files on disk, and the digest of package sha256 in hexadecimal.
module _ (open_file : Text → Option Text) (sha256_hex : Text → Text) (p : Paths)
    (commit : Text) where
  -- hashFile
  unfoldable pub hash_file : Text → Option Text
  hash_file path = elim (open_file path) [ none ↦ none | some content ↦ some (sha256_hex content) ]

  -- The path of the bytes, and the name of the blob before the digest is known.
  unfoldable pub source_of : Text → Text → Option Text → Text × Text
  source_of path name none = (path, name)
  source_of path name (some lnk) =
      let resolved = if is_rooted lnk then lnk else path_join (path_dir path ∷ lnk ∷ []) in
      (resolved, if under p.blobs resolved then path_base resolved else name)

  unfoldable pub manifest_of : Text → Text → Stat → Text × Text → Text → FileManifest
  manifest_of r name st (src, blob) digest = record {
    path = r;
    blob_name = if text_eq blob name && not (under p.blobs src) then digest else blob;
    size = st.size;
    sha256 = digest;
    mode = st.perm;
    mtime = st.mtime;
    lfs = false;
    xet_hash = [];
    src_path = src;
  }

  unfoldable pub hashed :
      Text → Text → Stat → Text × Text → Result SnapshotError (List FileManifest)
  hashed r name st (src, blob) = elim (hash_file src) [
    | none ↦ err hash_failed
    | some digest ↦ ok (manifest_of r name st (src, blob) digest ∷ [])
  ]

  -- The callback at an entry that is no directory: at most one file.
  unfoldable pub read_stat : Text → Text → FileInfo → Result SnapshotError (List FileManifest)
  read_stat r name info = elim info.stat [
    | none ↦ err stat_failed
    | some st ↦
        if st.is_regular
        then hashed r name st
            (source_of (path_join (snapshot_dir p commit ∷ r ∷ [])) name info.link)
        else ok []
  ]

  unfoldable pub read_file : Text → Text → FileInfo → Result SnapshotError (List FileManifest)
  read_file r name info = if is_inside_bookkeeping r then ok [] else read_stat r name info

  unfoldable mutual
    pub read_item : Text → Item → Result SnapshotError (List FileManifest)
    read_item dir (file name info) = read_file (rel_in dir name) name info
    read_item dir (directory name readable items) =
        let below = read_items (rel_in dir name) items in
        if is_skipped name then ok [] else if readable then below else err unreadable

    pub read_items : Text → Items → Result SnapshotError (List FileManifest)
    read_items dir nil = ok []
    read_items dir (cons item items) =
        read_item dir item >>= λ fs. read_items dir items >>= λ gs. ok (fs ++ gs)

  -- ReadSnapshot; none is a directory that Stat does not find.
  unfoldable pub read_snapshot : Option (Bool × Items) → Result SnapshotError (List FileManifest)
  read_snapshot none = err no_snapshot
  read_snapshot (some (readable, items)) =
      let below = read_items [] items >>= λ fs. ok (sort_manifests fs) in
      if is_skipped (path_base (snapshot_dir p commit))
      then ok []
      else if readable
      then below
      else err unreadable

-- The walk of SnapshotComplete.
unfoldable mutual
  pub complete_item : Item → Bool
  complete_item (file name info) = elim info.stat [ none ↦ false | some st ↦ true ]
  complete_item (directory name readable items) = if readable then complete_items items else false

  pub complete_items : Items → Bool
  complete_items nil = true
  complete_items (cons item items) = if complete_item item then complete_items items else false

-- SnapshotComplete; none is a directory that cannot be read.
unfoldable pub snapshot_complete : Option (Bool × Items) → Bool
snapshot_complete none = false
snapshot_complete (some (readable, nil)) = false
snapshot_complete (some (readable, cons item items)) =
    if readable then complete_items (cons item items) else false
