-- ===== src/Tests/Daemon.antt =====
-- Announcements, commands, writes of the cache and events of the watcher at concrete inputs.
use hf_ipfs.Hfcache.RepoNames.{dir_prefix, repo_dir_name, slashes_to_dashes, model}
use hf_ipfs.Prelude.{
  Bool, join, is_empty, split, ℕ, ◌-◌, ◌≡◌, ◌≢◌, refl, true, false, List, [], ◌∷◌, ◌++◌, none, some,
  Text, codes, text_eq, count, ok, err, if◌then◌else◌, leb,
}
use hf_ipfs.Hfcache.Paths.{
  render, tree_path, path_join, snapshot_dir, is_rooted, clean, clean_segment, clean_segments,
  Paths, new_paths, ref_path,
}
use hf_ipfs.Dummy.{hex_value, hex_decode, from_commit}
use hf_ipfs.Prelude.Int64.{pos}
use hf_ipfs.Prelude.Table.{text_Eq, lookup, member}
use hf_ipfs.Cids.Concrete.{plain_cids}
use hf_ipfs.Mapping.Entries.{Entry, FileManifest}
use hf_ipfs.Hfcache.Tree.{TreeJson}
use hf_ipfs.Hfcache.Write.{CacheDisk, Os, write_snapshot}
use hf_ipfs.Hfcache.Write.Atomic.{is_ok}
use hf_ipfs.Hfcache.Write.RefLast.{write_snapshot_ref_last}
use hf_ipfs.Node.Announce.{reprovide_all}
use hf_ipfs.Node.Announce.Laws.{is_announced, announced_for, announced_for_all, reprovide_all_lem}
use hf_ipfs.Controls.{Request, done, progress, Ops, handle, call, closed_early}
use hf_ipfs.Controls.Answers.{is_answer, runs_pull, call-handle}
use hf_ipfs.Watch
use hf_ipfs.Watch.{try_all, flush, debounce_window}
use hf_ipfs.Watch.Debounce.{is_distinct, kept_time, flush_lem}

abbrev hex_commit : Text
hex_commit = codes "0123456789012345678901234567890123456789"

abbrev hex_bytes : Text
hex_bytes = 1 ∷ 35 ∷ 69 ∷ 103 ∷ 137 ∷ []

abbrev hex_dummy : Text
hex_dummy = 0x70 ∷ 0 ∷ 20 ∷ hex_bytes ++ hex_bytes ++ hex_bytes ++ hex_bytes

abbrev shared_entry : Entry
shared_entry = record {
  repo_id = codes "m";
  repo_type = codes "model";
  commit_hash = hex_commit;
  actual_cid = codes "R";
  dummy_cid = hex_dummy;
  files = [];
  total_size = pos 0;
  origin = [];
}

reprovide_all_lem_example :
    ((reprovide_all plain_cids (λ c. true) {E = Unit {0}} 3 (ok (shared_entry ∷ [])) []).0
      ≡ ok (count (is_announced plain_cids (λ c. true)) (shared_entry ∷ [])))
    × ((reprovide_all plain_cids (λ c. true) {E = Unit {0}} 3 (ok (shared_entry ∷ [])) []).1
        ≡ codes "R" ∷ hex_dummy ∷ [])
unfolding announced_for_all announced_for from_commit hex_decode hex_value text_eq
reprovide_all_lem_example = reprovide_all_lem plain_cids (λ c. true) 2 (shared_entry ∷ []) []

-- A daemon whose pulls send one line and end.
abbrev toy_ops : Ops (Unit {0})
toy_ops = record {
  pull_run = λ req t src s. ((progress (codes "pulling") ∷ done (codes "pulled") ∷ [], none), s);
  current_commit = λ t repo_id ref s. ok hex_commit;
  ingest_run = λ repo_id t commit s. (([], ok (codes "shared")), s);
  list = λ s. ok (shared_entry ∷ []);
  get = λ commit s. ok none;
  evict_commit = λ e s. (([], none), s);
  evict_repo = λ repo_id s. (([], err (codes "no shared revision")), s);
  close_shutdown = λ s. s;
  status_line = λ s. codes "up";
  listed_line = λ e. e.repo_id;
  listed_count = λ es. codes "1";
  evicted_line = λ e. e.repo_id;
  type_error = λ t. t;
  source_error = λ e. codes "source";
}

abbrev list_request : Request
list_request = record {
  cmd = codes "list";
  repo_id = [];
  repo_type = [];
  commit = [];
  ref = [];
  peers = [];
  connect = [];
  force = false;
  sources = [];
  token = [];
}

call-handle_example :
    (is_answer (handle toy_ops (ok list_request) tt).0 ≡ true)
    × (call (λ e. none) (handle toy_ops (ok list_request) tt).0 ≢ err closed_early)
unfolding runs_pull text_eq
call-handle_example = call-handle toy_ops (ok list_request) tt refl

abbrev one_json : TreeJson
one_json = record { encode_tree = λ t. some (codes "tree"); decode_tree = λ s. none }

abbrev easy_os : Os
easy_os = record {
  temp_name = λ p. p ++ codes ".tmp-1";
  mkdir_succeeds = λ p. true;
  create_succeeds = λ p. true;
  write_succeeds = λ p. true;
  chmod_succeeds = λ p. true;
  close_succeeds = λ p. true;
  rename_succeeds = λ p. true;
  remove_succeeds = λ p. true;
  symlink_succeeds = λ p. true;
}

abbrev cached_file : FileManifest
cached_file = record {
  path = codes "w";
  blob_name = codes "ab";
  size = pos 2;
  sha256 = [];
  mode = 420;
  mtime = pos 0;
  lfs = false;
  xet_hash = [];
  src_path = [];
}

abbrev cache_paths : Paths
cache_paths = new_paths (codes "/h") (codes "m") model

abbrev cache_disk : CacheDisk
cache_disk = record { files = (codes "/h/models--m/blobs/ab", codes "hi") ∷ []; links = [] }

write_snapshot_ref_last_example :
    lookup
      (ref_path cache_paths (codes "main"))
      (write_snapshot easy_os cache_paths hex_commit one_json
        (cached_file ∷ [])
        (codes "main")
        cache_disk).1.files
    ≡ (if is_ok (
          write_snapshot easy_os cache_paths hex_commit one_json
            (cached_file ∷ [])
            (codes "main")
            cache_disk)
        then some (hex_commit ++ codes "\n")
        else lookup (ref_path cache_paths (codes "main")) cache_disk.files)
unfolding clean clean_segment clean_segments dir_prefix is_empty is_rooted join new_paths path_join
    ref_path render repo_dir_name slashes_to_dashes snapshot_dir split text_eq tree_path
write_snapshot_ref_last_example =
    write_snapshot_ref_last easy_os cache_paths hex_commit one_json (codes "main")
      (cached_file ∷ []) cache_disk refl (refl, tt) refl refl refl

abbrev waiting : List (Text × ℕ)
waiting = (codes "m", 0) ∷ (codes "n", 2000000000) ∷ []

-- A watcher that sees nothing on disk.
abbrev still_ops : Watch.Ops (Unit {0})
still_ops = record {
  is_dir = λ path s. false;
  current_commit = λ repo_id t s. none;
  complete = λ repo_id t commit s. false;
  mapping_get = λ commit s. none;
  mapping_list = λ s. none;
  list_repos = λ s. none;
  evict = λ e s. s;
  ingest = λ repo_id t commit s. s;
  shuffle = λ l. l;
}

flush_lem_example :
    (due : List Text) × ((flush still_ops (codes "/h") 2500000000 (waiting, tt)).1
      ≡ try_all still_ops (codes "/h") due tt)
    × ((r : Text)
        → (member r due ≡ (elim (lookup r waiting) as (λ o. Bool) [
          | none ↦ false
          | some at ↦ leb debounce_window (2500000000 - at)
        ])))
    × ((r : Text)
        → (lookup r (flush still_ops (codes "/h") 2500000000 (waiting, tt)).0
            ≡ kept_time 2500000000 (lookup r waiting)))
unfolding is_distinct lookup text_eq
flush_lem_example = flush_lem still_ops (codes "/h") 2500000000 waiting tt (λ r l. refl) refl
