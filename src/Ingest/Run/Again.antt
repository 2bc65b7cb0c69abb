-- ===== src/Ingest/Run/Again.antt =====
-- An ingest that is ingest_run again.
use hf_ipfs.Prelude.{
  ◌≡◌, refl, inl, inr, true, false, List, [], ◌∷◌, none, some, Text, text_eq_refl, length, ◌==◌, ok,
  arith, Bool-cases, Result-cases,
}
use hf_ipfs.Prelude.Int64.{ℤ}
use hf_ipfs.Prelude.Table.{text_Eq, lookup}
use hf_ipfs.Cids.{CidLib}
use hf_ipfs.Dummy.{from_commit}
use hf_ipfs.Mapping.Entries.{FileManifest, Entry, strip_entry}
use hf_ipfs.Hfcache.RepoNames.{RepoType}
use hf_ipfs.Hfcache.Paths.{new_paths, tree_path}
use hf_ipfs.Hfcache.Tree.{enrich_from_tree}
use hf_ipfs.Hfcache.Refs.{current_commit}
use hf_ipfs.Hfcache.Snapshot.{read_snapshot, snapshot_complete}
use hf_ipfs.Ingest.Build.{Dags, build_tree}
use hf_ipfs.Ingest.Run.{
  Machine, Home, Report, has_entry, put_entry, entry_of, record_entry, share_files, ingest_run,
  run_at, run_repo,
}

has_entry-put_entry :
    (commit : Text) (e : Entry) (entries : List Entry)
    → e.commit_hash ≡ commit
    → has_entry commit (put_entry e entries) ≡ true
unfolding has_entry put_entry
has_entry-put_entry commit e [] h = ground (arith, h, text_eq_refl commit)
has_entry-put_entry commit e (o ∷ entries) h =
    ground (arith, h, text_eq_refl commit, has_entry-put_entry commit e entries h)

module _ (L : CidLib) (D : Dags) (m : Machine L D) where
  record_entry_has :
      (e : Entry) (actual : L.Cid) (chunks : ℤ) (s t : Home L D) (report : Report L D)
      (commit : Text)
      → e.commit_hash ≡ commit
      → record_entry L D m e actual chunks s ≡ (ok report, t)
      → has_entry commit t.shared ≡ true
  unfolding record_entry strip_entry
  record_entry_has e actual chunks s t report commit named h = elim (Bool-cases m.put_succeeds) [
    | inr failed ↦ absurd (ground (arith, failed, h))
    | inl put ↦ ground (arith, put, h, has_entry-put_entry commit (strip_entry e) s.shared named)
  ]

  share_files_has :
      (repo_id : Text) (k : RepoType) (commit : Text) (files : List FileManifest) (s t : Home L D)
      (report : Report L D)
      → share_files L D m repo_id k commit files s ≡ (ok report, t)
      → has_entry commit t.shared ≡ true
  unfolding share_files entry_of
  share_files_has repo_id k commit files s t report h =
      elim (Result-cases (build_tree D m.chunk_size files s.stored)) [
        | inr (e, failed) ↦ absurd (ground (arith, failed, h))
        | inl ((chunks, root, stored), built) ↦ elim (Result-cases (from_commit L commit)) [
          | inr (e, bad) ↦ absurd (ground (arith, built, bad, h))
          | inl (dummy, good) ↦
              record_entry_has (entry_of L D m repo_id k commit files (m.cid_of root) dummy)
                (m.cid_of root) chunks (record s { stored = stored }) t report commit refl
                (ground (arith, built, good, h))
        ]
      ]

  run_has :
      (repo_id : Text) (k : RepoType) (commit : Text) (s t : Home L D) (report : Report L D)
      → ingest_run L D m repo_id k commit s ≡ (ok report, t)
      → has_entry commit t.shared ≡ true
  unfolding ingest_run
  run_has repo_id k commit s t report h =
      let paths = new_paths m.hub_dir repo_id k in
      elim (Result-cases
        (read_snapshot m.open_file m.sha256_hex paths commit (m.snapshots paths commit))) [
          | inr (e, failed) ↦ absurd (ground (arith, failed, h))
          | inl (files, listed) ↦ elim (Bool-cases (length files == 0)) [
            | inl empty ↦ absurd (ground (arith, listed, empty, h))
            | inr some_files ↦
                share_files_has repo_id k commit
                  (enrich_from_tree m.tree_json (lookup (tree_path paths commit) m.files) files) s t
                  report (ground (arith, listed, some_files, h))
          ]
        ]

  run_at_again :
      (repo_id : Text) (k : RepoType) (commit : Text) (s t : Home L D) (report : Report L D)
      → run_at L D m repo_id k commit s ≡ ((true, ok (some report)), t)
      → run_at L D m repo_id k commit t ≡ ((false, ok none), t)
  unfolding run_at
  run_at_again repo_id k commit s t report h = elim (Bool-cases m.has_succeeds) [
    | inr failed ↦ absurd (ground (arith, failed, h))
    | inl looked ↦ elim (Bool-cases (has_entry commit s.shared)) [
      | inl shared ↦ absurd (ground (arith, looked, shared, h))
      | inr new ↦
          elim (Bool-cases
            (snapshot_complete (m.snapshots (new_paths m.hub_dir repo_id k) commit))) [
              | inr partial ↦ absurd (ground (arith, looked, new, partial, h))
              | inl complete ↦ elim (Result-cases (ingest_run L D m repo_id k commit s).0) [
                | inr (e, failed) ↦ absurd (ground (arith, looked, new, complete, failed, h))
                | inl (r, done) ↦
                    let after : (ingest_run L D m repo_id k commit s).1 ≡ t =
                      ground (arith, looked, new, complete, done, h) in
                    let both : ingest_run L D m repo_id k commit s ≡ (ok r, t) =
                      ground (arith, done, after) in
                    ground (arith, looked, run_has repo_id k commit s t r both)
              ]
            ]
    ]
  ]

  -- RunRepo behind a RunRepo of the same ref that ingested something, with the same files on disk, ingests
  -- nothing, returns no error and changes nothing.
  pub run_repo_again :
      (repo_id : Text) (k : RepoType) (ref : Text) (s t : Home L D) (report : Report L D)
      → run_repo L D m repo_id k ref s ≡ ((true, ok (some report)), t)
      → run_repo L D m repo_id k ref t ≡ ((false, ok none), t)
  unfolding run_repo
  run_repo_again repo_id k ref s t report h =
      elim (Result-cases (current_commit m.files (new_paths m.hub_dir repo_id k) ref)) [
        | inr (e, bad) ↦ absurd (ground (arith, bad, h))
        | inl (commit, named) ↦
            ground
              (arith, named, run_at_again repo_id k commit s t report (ground (arith, named, h)))
      ]
