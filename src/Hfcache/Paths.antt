-- ===== src/Hfcache/Paths.antt =====
-- path/filepath on Unix, as the program calls it (Clean and Join here), and the Paths of one
-- repository in internal/hfcache/cache.go and internal/hfcache/tree.go.
pub mod Segments
pub mod Parts
use hf_ipfs.Prelude.{
  ℕ, Bool, true, false, ◌&&◌, ◌||◌, List, [], ◌∷◌, ◌++◌, reverse, Text, codes, text_eq, split, join,
  is_empty, ◌==◌, if◌then◌else◌,
}
use hf_ipfs.Hfcache.RepoNames.{RepoType, repo_dir_name}

unfoldable pub is_rooted : Text → Bool
is_rooted [] = false
is_rooted (c ∷ s) = c == b'/'

-- ".." takes back the last segment, if there is one to take back.
unfoldable pub back : Bool → List Text → List Text
back true [] = []
back false [] = codes ".." ∷ []
back rooted (top ∷ below) = if text_eq top (codes "..") then codes ".." ∷ top ∷ below else below

-- One segment of filepath.Clean, over the segments so far, the last one first.
unfoldable pub clean_segment : Bool → List Text → Text → List Text
clean_segment rooted stack seg =
    if is_empty seg || text_eq seg (codes ".")
    then stack
    else if text_eq seg (codes "..")
    then back rooted stack
    else seg ∷ stack

unfoldable pub clean_segments : Bool → List Text → List Text → List Text
clean_segments rooted stack [] = stack
clean_segments rooted stack (seg ∷ segs) =
    clean_segments rooted (clean_segment rooted stack seg) segs

unfoldable pub render : Bool → List Text → Text
render true segs = b'/' ∷ join b'/' segs
render false [] = codes "."
render false (seg ∷ segs) = join b'/' (seg ∷ segs)

-- filepath.Clean
unfoldable pub clean : Text → Text
clean p = render (is_rooted p) (reverse (clean_segments (is_rooted p) [] (split b'/' p)))

-- filepath.Join: the leading empty elements are dropped.
unfoldable pub path_join : List Text → Text
path_join [] = []
path_join (e ∷ es) =
    let rest = path_join es in if is_empty e then rest else clean (join b'/' (e ∷ es))

-- Paths, with its fields Hub, RepoID and Type; the directories below are its other fields.
pub record Paths : Type 0 where
  pub hub : Text
  pub repo_id : Text
  pub repo_type : RepoType
  pub repo_dir : Text
  pub blobs : Text
  pub snapshots : Text
  pub refs : Text
  pub trees : Text

-- NewPaths
unfoldable pub new_paths : Text → Text → RepoType → Paths
new_paths hub_dir repo_id t =
    let repo_dir = path_join (hub_dir ∷ repo_dir_name repo_id t ∷ []) in
    record {
      hub = hub_dir;
      repo_id = repo_id;
      repo_type = t;
      repo_dir = repo_dir;
      blobs = path_join (repo_dir ∷ codes "blobs" ∷ []);
      snapshots = path_join (repo_dir ∷ codes "snapshots" ∷ []);
      refs = path_join (repo_dir ∷ codes "refs" ∷ []);
      trees = path_join (repo_dir ∷ codes "trees" ∷ []);
    }

-- SnapshotDir, RefPath, BlobPath and TreePath
unfoldable pub snapshot_dir : Paths → Text → Text
snapshot_dir p commit = path_join (p.snapshots ∷ commit ∷ [])

unfoldable pub ref_path : Paths → Text → Text
ref_path p ref = path_join (p.refs ∷ ref ∷ [])

unfoldable pub blob_path : Paths → Text → Text
blob_path p name = path_join (p.blobs ∷ name ∷ [])

unfoldable pub tree_path : Paths → Text → Text
tree_path p commit = path_join (p.trees ∷ (commit ++ codes ".json") ∷ [])
