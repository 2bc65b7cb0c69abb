-- ===== src/Ingest/Run.antt =====
-- Run and RunRepo of internal/ingest/ingest.go.
--
-- The snapshot of a commit is the directory tree of `Hfcache.Snapshot`, the mapping is the list of its
-- entries as they are stored, and the other state is what the DAG service has stored and what was announced.
pub mod Again
use hf_ipfs.Prelude.{
  ℕ, Bool, true, false, not, List, [], ◌∷◌, ◌++◌, Option, none, some, Text, codes, text_eq, length,
  ◌==◌, if◌then◌else◌, Result, ok, err,
}
use hf_ipfs.Prelude.Int64.{ℤ, pos, add64}
use hf_ipfs.Prelude.Table.{text_Eq, lookup}
use hf_ipfs.Cids.{CidLib}
use hf_ipfs.Dummy.{DummyError, from_commit}
use hf_ipfs.Mapping.Entries.{FileManifest, Entry, strip_entry}
use hf_ipfs.Hfcache.RepoNames.{RepoType, model, dataset, space, other}
use hf_ipfs.Hfcache.Paths.{Paths, new_paths, tree_path}
use hf_ipfs.Hfcache.Refs.{RefError, current_commit}
use hf_ipfs.Hfcache.Snapshot.{SnapshotError, Items, read_snapshot, snapshot_complete}
use hf_ipfs.Hfcache.Tree.{TreeJson, enrich_from_tree}
use hf_ipfs.Node.Announce.{provide_commit}
use hf_ipfs.Ingest.Build.{BuildError, Dags, build_tree}

pub data IngestError : Type 0 where
  bad_snapshot : SnapshotError → IngestError
  bad_dag : BuildError → IngestError
  bad_commit : DummyError → IngestError
  bad_ref : RefError → IngestError
  empty_snapshot not_recorded not_looked_up not_complete : IngestError

-- The conversion string(t).
unfoldable pub type_text : RepoType → Text
type_text model = codes "model"
type_text dataset = codes "dataset"
type_text space = codes "space"
type_text other = []

-- The loop that sums the sizes.
unfoldable pub total_of : List FileManifest → ℤ → ℤ
total_of [] total = total
total_of (f ∷ files) total = total_of files (add64 total f.size)

-- mapping.DB.Has and Put on the list of the entries
unfoldable pub has_entry : Text → List Entry → Bool
has_entry commit [] = false
has_entry commit (e ∷ entries) =
    if text_eq e.commit_hash commit then true else has_entry commit entries

unfoldable pub put_entry : Entry → List Entry → List Entry
put_entry e [] = e ∷ []
put_entry e (o ∷ entries) =
    let rest = put_entry e entries in
    if text_eq o.commit_hash e.commit_hash then e ∷ entries else o ∷ rest

module _ (L : CidLib) (D : Dags) where
  -- The node, and what it reads. `snapshots` gives the tree of a snapshot directory.
  pub record Machine : Type 0 where
    pub cid_of : D.Node → L.Cid
    pub chunk_size : ℕ
    pub hub_dir : Text
    pub files : List (Text × Text)
    pub snapshots : Paths → Text → Option (Bool × Items)
    pub open_file : Text → Option Text
    pub sha256_hex : Text → Text
    pub tree_json : TreeJson
    pub accepts : L.Cid → Bool
    pub has_succeeds : Bool
    pub put_succeeds : Bool

  pub record Home : Type 0 where
    pub shared : List Entry
    pub stored : D.Stored
    pub announced : List L.Cid

  pub record Report : Type 0 where
    pub entry : Entry
    pub chunks : ℤ

  module _ (m : Machine) where
    unfoldable pub entry_of : Text → RepoType → Text → List FileManifest → L.Cid → L.Cid → Entry
    entry_of repo_id t commit files actual dummy = record {
      repo_id = repo_id;
      repo_type = type_text t;
      commit_hash = commit;
      actual_cid = L.to_text actual;
      dummy_cid = L.to_text dummy;
      files = files;
      total_size = total_of files (pos 0);
      origin = codes "ingest";
    }

    -- From n.Mapping.Put on. A failed announcement is no error.
    unfoldable pub record_entry : Entry → L.Cid → ℤ → Home → Result IngestError Report × Home
    record_entry e actual chunks s =
        if m.put_succeeds
        then (
          ok record { entry = e; chunks = chunks },
          record s {
            shared = put_entry (strip_entry e) s.shared;
            announced = (provide_commit L m.accepts e.commit_hash actual s.announced).1;
          },
        )
        else (err not_recorded, s)

    -- From buildTree on.
    unfoldable pub share_files :
        Text → RepoType → Text → List FileManifest → Home → Result IngestError Report × Home
    share_files repo_id t commit files s = elim (build_tree D m.chunk_size files s.stored) [
      | err e ↦ (err (bad_dag e), s)
      | ok (chunks, root, stored) ↦ elim (from_commit L commit) [
        | err e ↦ (err (bad_commit e), record s { stored = stored })
        | ok dummy ↦
            record_entry (entry_of repo_id t commit files (m.cid_of root) dummy) (m.cid_of root)
              chunks (record s { stored = stored })
      ]
    ]

    -- Run
    unfoldable pub ingest_run : Text → RepoType → Text → Home → Result IngestError Report × Home
    ingest_run repo_id t commit s =
        let paths = new_paths m.hub_dir repo_id t in
        elim (read_snapshot m.open_file m.sha256_hex paths commit (m.snapshots paths commit)) [
          | err e ↦ (err (bad_snapshot e), s)
          | ok files ↦
              if length files == 0
              then (err empty_snapshot, s)
              else share_files repo_id t commit
                  (enrich_from_tree m.tree_json (lookup (tree_path paths commit) m.files) files) s
        ]

    -- RunRepo, from the commit of the ref on; the Boolean says whether Run was called.
    unfoldable pub run_at :
        Text → RepoType → Text → Home → (Bool × Result IngestError (Option Report)) × Home
    run_at repo_id t commit s =
        let paths = new_paths m.hub_dir repo_id t in
        let (r, after) = ingest_run repo_id t commit s in
        if not m.has_succeeds
        then ((false, err not_looked_up), s)
        else if has_entry commit s.shared
        then ((false, ok none), s)
        else if not (snapshot_complete (m.snapshots paths commit))
        then ((false, err not_complete), s)
        else ((true, (elim r [ err e ↦ err e | ok report ↦ ok (some report) ])), after)

    -- RunRepo
    unfoldable pub run_repo :
        Text → RepoType → Text → Home → (Bool × Result IngestError (Option Report)) × Home
    run_repo repo_id t ref s = elim (current_commit m.files (new_paths m.hub_dir repo_id t) ref) [
      | err e ↦ ((false, err (bad_ref e)), s)
      | ok commit ↦ run_at repo_id t commit s
    ]
