-- ===== src/Tests/Sharing.antt =====
-- Snapshots and ingests at concrete inputs.
use hf_ipfs.Hfcache.Tree.{enrich_file, enrich_files, read_tree, enrich_from_tree, TreeJson}
use hf_ipfs.Ingest.Build.{
  link_files, add_files, chunk_count, add_file_nocopy, quotient, store_directory, build_root,
  link_subs, longest, Dags, build_dir, build_tree, out_of_fuel,
}
use hf_ipfs.Ingest.Run.{
  total_of, entry_of, share_files, record_entry, type_text, put_entry, run_at, ingest_run,
  has_entry, IngestError, Machine, Home, Report, run_repo,
}
use hf_ipfs.Dummy.{from_commit, join_nibbles, hex_decode, hex_value}
use hf_ipfs.Prelude.Int64.{add64, pattern_of, signed, pos}
use hf_ipfs.Mapping.Entries.{strip_src, strip_entry, FileManifest}
use hf_ipfs.Node.Announce.{provide, provide_commit, provide_both}
use hf_ipfs.Ingest.Dirs.{subs_of, files_in, add_file, dir_of, keys_below}
use hf_ipfs.Hfcache.Sorting.{sort_strings, onto, sort_manifests, sort_from, sink_down, sort}
use hf_ipfs.Prelude.{
  is_space, trim_left, trim_space, has_byte, join, has_prefix, push_byte, is_empty, text_lt, split,
  ◌≡◌, ◌≢◌, refl, Bool, true, false, not, ◌&&◌, List, [], ◌∷◌, ◌++◌, Option, none, some, Text,
  codes, All, Result, ok, err, arith, text_eq, if◌then◌else◌,
}
use hf_ipfs.Hfcache.Refs.{commit_of_ref, current_commit}
use hf_ipfs.Hfcache.Safety.{safe_blob_name, inside_one_of, safe_rel_path, is_inside_bookkeeping}
use hf_ipfs.Hfcache.Paths.Parts.{
  path_dir, drop_slashes, after_slash, path_base, rel, rel_segments, segments_of, up_to_slash,
}
use hf_ipfs.Hfcache.Snapshot.{
  hashed, source_of, read_stat, under, rel_in, read_items, manifest_of, read_file, hash_file,
  is_skipped, Stat, FileInfo, file, directory, Items, nil, cons, read_snapshot, snapshot_complete,
  complete_items, complete_item,
}
use hf_ipfs.Hfcache.Paths.{
  snapshot_dir, clean_segment, back, clean_segments, is_rooted, clean, render, path_join, Paths,
  new_paths, ref_path, tree_path,
}
use hf_ipfs.Hfcache.RepoNames.{repo_dir_name, dir_prefix, slashes_to_dashes, model}
use hf_ipfs.Prelude.Table.{text_Eq, lookup, insert}
use hf_ipfs.Cids.Concrete.{plain_cids}
use hf_ipfs.Hfcache.Snapshot.Complete.{opens_stat, opens_item, opens_items, read_snapshot_complete}
use hf_ipfs.Hfcache.Snapshot.Names.{safe_items, safe_item, read_snapshot-All}
use hf_ipfs.Ingest.Build.Total.{build_tree_total}
use hf_ipfs.Ingest.Build.Lost.{by_dir_of, build_dir_ignores}
use hf_ipfs.Ingest.Run.Again.{run_repo_again}

abbrev toy_stat : Stat
toy_stat = record { is_regular = true; size = pos 2; perm = 420; mtime = pos 7 }

abbrev toy_info : Text → FileInfo
toy_info link = record { stat = some toy_stat; link = some link }

-- A file in a directory, and one at the top.
abbrev toy_items : Items
toy_items =
    cons
      (directory (codes "d") true
        (cons (file (codes "x") (toy_info (codes "../../../blobs/ab"))) nil))
      (cons (file (codes "w") (toy_info (codes "../../blobs/ab"))) nil)

abbrev toy_paths : Paths
toy_paths = new_paths (codes "/h") (codes "m") model

abbrev toy_commit : Text
toy_commit = codes "0123456789012345678901234567890123456789"

abbrev toy_open : Text → Option Text
toy_open path = if text_eq path (codes "/h/models--m/blobs/ab") then some (codes "hi") else none

toy_opens : opens_items toy_open (λ s. s) toy_paths toy_commit [] toy_items ≡ true
unfolding opens_items opens_item opens_stat is_skipped is_inside_bookkeeping inside_one_of rel_in
    text_eq is_empty has_prefix source_of is_rooted path_join path_dir clean render up_to_slash
    snapshot_dir new_paths join has_byte clean_segments split repo_dir_name dir_prefix after_slash
    drop_slashes path_base rel rel_segments segments_of back clean_segment slashes_to_dashes under
    push_byte
toy_opens = refl

read_snapshot_complete_example :
    (fs : List FileManifest) × (read_snapshot toy_open
        (λ s. s)
        toy_paths
        toy_commit
        (some (true, toy_items))
      ≡ ok fs)
unfolding snapshot_complete complete_items complete_item
read_snapshot_complete_example =
    read_snapshot_complete toy_open (λ s. s) toy_paths toy_commit true toy_items refl toy_opens

abbrev toy_manifest : Text → FileManifest
toy_manifest path = record {
  path = path;
  blob_name = codes "ab";
  size = pos 2;
  sha256 = codes "hi";
  mode = 420;
  mtime = pos 7;
  lfs = false;
  xet_hash = [];
  src_path = codes "/h/models--m/blobs/ab";
}

toy_read :
    read_snapshot toy_open (λ s. s) toy_paths toy_commit (some (true, toy_items))
    ≡ ok (toy_manifest (codes "d/x") ∷ toy_manifest (codes "w") ∷ [])
unfolding after_slash back clean clean_segment clean_segments dir_prefix drop_slashes has_byte
    has_prefix hash_file hashed inside_one_of is_empty is_inside_bookkeeping is_rooted is_skipped
    join manifest_of new_paths onto path_base path_dir path_join push_byte read_file read_items
    read_snapshot read_stat rel rel_in rel_segments render repo_dir_name segments_of sink_down
    slashes_to_dashes snapshot_dir sort sort_from sort_manifests source_of split text_eq text_lt
    under up_to_slash
toy_read = refl

-- A node is the text of what it holds.
abbrev toy_dags : Dags
toy_dags = record {
  Node = Text;
  Directory = Text;
  Stored = List Text;
  opens = λ p. true;
  size_of = λ p. some (pos 2);
  layout = λ st p. some (p, p ∷ st);
  new_directory = λ st. some [];
  add_child = λ st d name node. some (d ++ name ++ codes "=" ++ node, st);
  get_node = λ d. some d;
  add = λ st node. some (node ∷ st);
}

abbrev toy_files : List FileManifest
toy_files = toy_manifest (codes "a/b/x") ∷ toy_manifest (codes "w") ∷ []

build_tree_total_example : build_tree toy_dags 256 toy_files [] ≢ err out_of_fuel
build_tree_total_example = build_tree_total toy_dags 256 toy_files []

abbrev toy_leaves : List (Text × Text)
toy_leaves = (codes "a/b/x", codes "X") ∷ (codes "w", codes "W") ∷ []

-- The directory "a" holds no file itself, and "a/b" is not visited.
build_dir_ignores_example :
    build_dir toy_dags
      (by_dir_of toy_files [])
      (insert (codes "a/b/x") (codes "Y") toy_leaves)
      6
      []
      []
    ≡ build_dir toy_dags (by_dir_of toy_files []) toy_leaves 6 [] []
unfolding clean clean_segment clean_segments dir_of has_byte is_empty is_rooted join path_dir render
    split text_eq up_to_slash
build_dir_ignores_example =
    build_dir_ignores toy_dags toy_files toy_leaves (codes "a/b/x") (codes "Y") 6 []
      (λ eq. absurd (ground (arith, eq))) (λ eq. absurd (ground (arith, eq)))
      (λ eq. absurd (ground (arith, eq)), (λ eq. absurd (ground (arith, eq)), tt))

toy_safe : safe_items toy_items ≡ true
unfolding has_byte is_empty safe_blob_name safe_item safe_items text_eq
toy_safe = refl

read_snapshot-All_example :
    All
      (λ f. (safe_rel_path f.path && not (is_inside_bookkeeping f.path)) ≡ true)
      (toy_manifest (codes "d/x") ∷ toy_manifest (codes "w") ∷ [])
read_snapshot-All_example =
    read_snapshot-All toy_open (λ s. s) toy_paths toy_commit true toy_items
      (toy_manifest (codes "d/x") ∷ toy_manifest (codes "w") ∷ []) toy_safe toy_read

abbrev plain_json : TreeJson
plain_json = record { encode_tree = λ t. some []; decode_tree = λ s. none }

abbrev toy_machine : Machine plain_cids toy_dags
toy_machine = record {
  cid_of = λ n. n;
  chunk_size = 256;
  hub_dir = codes "/h";
  files = (codes "/h/models--m/refs/main", toy_commit ++ codes "\n") ∷ [];
  snapshots = λ p c. some (true, toy_items);
  open_file = toy_open;
  sha256_hex = λ s. s;
  tree_json = plain_json;
  accepts = λ c. true;
  has_succeeds = true;
  put_succeeds = true;
}

abbrev toy_home : Home plain_cids toy_dags
toy_home = record { shared = []; stored = []; announced = [] }

abbrev toy_outcome :
    (Bool × Result IngestError (Option (Report plain_cids toy_dags))) × Home plain_cids toy_dags
toy_outcome = run_repo plain_cids toy_dags toy_machine (codes "m") model [] toy_home

abbrev five_bytes : Text
five_bytes = 1 ∷ 35 ∷ 69 ∷ 103 ∷ 137 ∷ []

abbrev toy_report : Report plain_cids toy_dags
toy_report = record {
  entry = record {
    repo_id = codes "m";
    repo_type = codes "model";
    commit_hash = toy_commit;
    actual_cid = codes "d=x=/h/models--m/blobs/abw=/h/models--m/blobs/ab";
    dummy_cid = 0x70 ∷ 0 ∷ 20 ∷ five_bytes ++ five_bytes ++ five_bytes ++ five_bytes;
    files = toy_manifest (codes "d/x") ∷ toy_manifest (codes "w") ∷ [];
    total_size = pos 4;
    origin = codes "ingest";
  };
  chunks = pos 2;
}

toy_ran : toy_outcome ≡ ((true, ok (some toy_report)), toy_outcome.1)
unfolding add64 add_file add_file_nocopy add_files after_slash back build_dir build_root build_tree
    chunk_count clean clean_segment clean_segments commit_of_ref complete_items current_commit
    dir_of dir_prefix drop_slashes enrich_file enrich_files enrich_from_tree entry_of files_in
    from_commit has_byte has_entry has_prefix hash_file hashed hex_decode hex_value ingest_run
    insert inside_one_of is_empty is_inside_bookkeeping is_rooted is_skipped is_space join
    join_nibbles keys_below link_files link_subs longest lookup manifest_of new_paths onto path_base
    path_dir path_join pattern_of provide provide_both provide_commit push_byte put_entry quotient
    read_file read_items read_snapshot read_stat read_tree record_entry ref_path rel rel_in
    rel_segments render repo_dir_name run_at run_repo segments_of share_files signed sink_down
    slashes_to_dashes snapshot_complete snapshot_dir sort sort_from sort_manifests sort_strings
    source_of split store_directory strip_entry strip_src subs_of text_eq text_lt total_of tree_path
    trim_left trim_space type_text under up_to_slash
toy_ran = refl

run_repo_again_example :
    run_repo plain_cids toy_dags toy_machine (codes "m") model [] toy_outcome.1
    ≡ ((false, ok none), toy_outcome.1)
run_repo_again_example =
    run_repo_again plain_cids toy_dags toy_machine (codes "m") model [] toy_home toy_outcome.1
      toy_report toy_ran
