-- ===== src/Tests/Evictions.antt =====
-- Evictions at concrete inputs.
use hf_ipfs.Prelude.{
  ◌≡◌, ◌↔◌, refl, true, false, List, [], ◌∷◌, Option, none, some, Text, codes, ok, arith, has_byte,
  has_prefix, is_empty, is_space, join, push_byte, split, trim_left, trim_space, text_eq, map,
  if◌then◌else◌,
}
use hf_ipfs.Prelude.Int64.{pos}
use hf_ipfs.Prelude.Table.{text_Eq, lookup, insert, remove, member, lookup-insert, lookup-remove}
use hf_ipfs.Cids.Concrete.{plain_cids}
use hf_ipfs.Mapping.Entries.{FileManifest, Entry}
use hf_ipfs.Pull.Transfer.{Ref, Filestore, FilestoreLaws}
use hf_ipfs.Hfcache.Paths.{
  back, blob_path, clean, clean_segment, clean_segments, is_rooted, new_paths, path_join, ref_path,
  render, snapshot_dir, tree_path,
}
use hf_ipfs.Hfcache.RepoNames.{dir_prefix, repo_dir_name, repo_type_of, slashes_to_dashes}
use hf_ipfs.Hfcache.Refs.{commit_of_ref, current_commit}
use hf_ipfs.Hfcache.Safety.{safe_blob_name}
use hf_ipfs.Dummy.{hex_decode, hex_value, join_nibbles}
use hf_ipfs.Evict.Walk.{Dag, enough, walk, walk_links, links, links_in, defined_links}
use hf_ipfs.Evict.Walk.Exact.{Reach, here, next, walk_exact}
use hf_ipfs.Evict.{
  Tools, Held, keep_others, evict_commit, evict_target, drop_all, drop_cids, drop_cid, has_ref,
  has_block, drop_files, referenced_paths, absolute_path, delete_entry, drop_blob, drop_blobs,
  drop_cache, drop_entry, drop_plumbing, try_remove, drop_ref, drop_rest, is_below, paths_of,
  remove_all, remove_blob,
}
use hf_ipfs.Evict.Keeps.{IsKept, evict_commit_keeps_others}
use hf_ipfs.Evict.Files.{evict_commit_keeps_referenced}
use hf_ipfs.Evict.Success.{IsEvicted, evict_commit-IsEvicted}
use mathlib.Core.List.Memᴰ

-- A filestore whose references name paths in the cache.
abbrev path_store : Filestore
path_store = record {
  Refs = List (Text × Ref);
  put = λ r c v. some (insert c v r);
  delete = λ r c. remove c r;
  get = λ r c. lookup c r;
}

path_store-FilestoreLaws : FilestoreLaws path_store
path_store-FilestoreLaws = record {
  get-delete = λ r c d. lookup-remove c d r;
  get-put_ne = λ r s c d v h ne. ground (arith, lookup-insert c d v r);
}

-- The root "R" links to "a" and "b", and the root "Q" to "b" and "c".
abbrev links_of_block : Text → Option (List Text)
links_of_block s =
    if text_eq s (codes "r")
    then some (codes "a" ∷ codes "b" ∷ [])
    else if text_eq s (codes "q")
    then some (codes "b" ∷ codes "c" ∷ [])
    else none

abbrev toy_dag : Dag Text
toy_dag = record {
  decode_links = links_of_block;
  is_defined = λ c. true;
  is_readable = λ c. true;
  multihash = λ c. c;
}

abbrev toy_blocks : List (Text × Text)
toy_blocks = (codes "R", codes "r") ∷ (codes "Q", codes "q") ∷ []

walk_exact_example :
    (r : List Text) × (walk toy_dag toy_blocks (enough toy_dag toy_blocks) (codes "R") [] ≡ some r)
    × ((x : Text) → (member x r ≡ true) ↔ Reach toy_dag toy_blocks (codes "R") x)
walk_exact_example = walk_exact toy_dag toy_blocks (codes "R")

abbrev toy_file : Text → FileManifest
toy_file blob = record {
  path = codes "w";
  blob_name = blob;
  size = pos 1;
  sha256 = [];
  mode = 420;
  mtime = pos 0;
  lfs = false;
  xet_hash = [];
  src_path = [];
}

abbrev toy_entry : Text → Text → Text → Entry
toy_entry commit root blob = record {
  repo_id = codes "m";
  repo_type = codes "model";
  commit_hash = commit;
  actual_cid = root;
  dummy_cid = [];
  files = toy_file blob ∷ [];
  total_size = pos 1;
  origin = [];
}

abbrev toy_ref : Text → Ref
toy_ref p = record { full_path = p; offset = 0; len = 1 }

abbrev toy_tools : Tools plain_cids path_store
toy_tools = record {
  dag = toy_dag;
  shuffle = λ l. l;
  query = λ refs. some (map (λ r. some r.1.full_path) refs);
  has_ref_succeeds = λ c. true;
  delete_ref_succeeds = λ c. true;
  has_block_succeeds = λ c. true;
  delete_block_succeeds = λ c. true;
  remove_succeeds = λ p. true;
  list_succeeds = true;
  delete_entry_succeeds = true;
}

abbrev blob_a : Text
blob_a = codes "/h/models--m/blobs/A"

abbrev blob_b : Text
blob_b = codes "/h/models--m/blobs/B"

abbrev going : Entry
going = toy_entry (codes "1") (codes "R") (codes "A")

abbrev staying : Entry
staying = toy_entry (codes "2") (codes "Q") (codes "B")

abbrev toy_held : Held plain_cids path_store
toy_held = record {
  shared = going ∷ staying ∷ [];
  blocks = toy_blocks;
  refs =
      (codes "a", toy_ref blob_a) ∷ (codes "b", toy_ref blob_b) ∷ (codes "c", toy_ref blob_b) ∷ [];
  files =
      (blob_a, codes "x")
      ∷ (blob_b, codes "y")
      ∷ (codes "/h/models--m/snapshots/1/w", codes "x")
      ∷ [];
}

abbrev toy_after : Held plain_cids path_store
toy_after = record {
  shared = staying ∷ [];
  blocks = (codes "Q", codes "q") ∷ [];
  refs = (codes "b", toy_ref blob_b) ∷ (codes "c", toy_ref blob_b) ∷ [];
  files = (blob_b, codes "y") ∷ [];
}

evicted_lem :
    evict_commit plain_cids path_store toy_tools (codes "/h") going toy_held ≡ (ok tt, toy_after)
unfolding keep_others evict_commit evict_target drop_all drop_cids drop_cid has_ref has_block
    drop_files referenced_paths absolute_path delete_entry drop_blob drop_blobs drop_cache
    drop_entry drop_plumbing try_remove drop_ref drop_rest is_below paths_of remove_all remove_blob
    back blob_path clean clean_segment clean_segments is_rooted new_paths path_join ref_path render
    snapshot_dir tree_path dir_prefix repo_dir_name repo_type_of slashes_to_dashes has_byte
    has_prefix is_empty is_space join push_byte split trim_left trim_space text_eq walk walk_links
    links links_in defined_links lookup remove hex_decode hex_value join_nibbles commit_of_ref
    current_commit safe_blob_name
evicted_lem = refl

evict_commit_keeps_others_example :
    IsKept plain_cids path_store path_store-FilestoreLaws toy_tools
      (codes "/h")
      (codes "b")
      toy_held
      (evict_commit plain_cids path_store toy_tools (codes "/h") going toy_held).1
unfolding text_eq links lookup links_in defined_links
evict_commit_keeps_others_example =
    evict_commit_keeps_others plain_cids path_store path_store-FilestoreLaws toy_tools (codes "/h")
      going toy_held staying (codes "Q") (codes "b") (λ c l h. h) (λ root c d p same. same)
      (Memᴰ.tail (Memᴰ.head refl)) refl refl (next here refl)

evict_commit_keeps_referenced_example :
    lookup blob_b (evict_commit plain_cids path_store toy_tools (codes "/h") going toy_held).1.files
    ≡ lookup blob_b toy_held.files
unfolding keep_others evict_commit evict_target drop_all drop_cids drop_cid has_ref has_block
    drop_files referenced_paths absolute_path delete_entry drop_blob drop_blobs drop_cache
    drop_entry drop_plumbing try_remove drop_ref drop_rest is_below paths_of remove_all remove_blob
    back blob_path clean clean_segment clean_segments is_rooted new_paths path_join ref_path render
    snapshot_dir tree_path dir_prefix repo_dir_name repo_type_of slashes_to_dashes has_byte
    has_prefix is_empty is_space join push_byte split trim_left trim_space text_eq walk walk_links
    links links_in defined_links lookup remove hex_decode hex_value join_nibbles commit_of_ref
    current_commit safe_blob_name
evict_commit_keeps_referenced_example =
    evict_commit_keeps_referenced plain_cids path_store toy_tools (codes "/h") going blob_b toy_held
      (blob_b ∷ blob_b ∷ []) refl refl refl refl refl

evict_commit-IsEvicted_example :
    IsEvicted plain_cids path_store toy_tools
      (codes "/h")
      going
      (toy_file (codes "A"))
      (codes "/h/models--m/snapshots/1/w")
      toy_after
unfolding keep_others evict_commit evict_target drop_all drop_cids drop_cid has_ref has_block
    drop_files referenced_paths absolute_path delete_entry drop_blob drop_blobs drop_cache
    drop_entry drop_plumbing try_remove drop_ref drop_rest is_below paths_of remove_all remove_blob
    back blob_path clean clean_segment clean_segments is_rooted new_paths path_join ref_path render
    snapshot_dir tree_path dir_prefix repo_dir_name repo_type_of slashes_to_dashes has_byte
    has_prefix is_empty is_space join push_byte split trim_left trim_space text_eq walk walk_links
    links links_in defined_links lookup remove hex_decode hex_value join_nibbles commit_of_ref
    current_commit safe_blob_name
evict_commit-IsEvicted_example =
    evict_commit-IsEvicted plain_cids path_store toy_tools (codes "/h") going (toy_file (codes "A"))
      (codes "/h/models--m/snapshots/1/w") (Memᴰ.head refl) refl refl refl refl toy_held toy_after
      (blob_b ∷ blob_b ∷ []) evicted_lem refl refl
