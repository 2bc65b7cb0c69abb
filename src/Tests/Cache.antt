-- ===== src/Tests/Cache.antt =====
-- Names, paths, the tree document, sorted lists, sources and addresses, at concrete inputs.
use hf_ipfs.Tests.Codings.{tree_json, tree_json-TreeJsonLaws}
use hf_ipfs.Prelude.{
  ◌≡◌, refl, inr, true, false, List, [], ◌∷◌, ◌++◌, none, some, Text, codes, All, ◌||◌, ok, err,
  text_eq, has_byte, split, push_byte, is_empty, lower, to_lower, trim_space, trim_left, is_space,
  has_prefix,
}
use hf_ipfs.Prelude.Int64.{pos}
use hf_ipfs.Mapping.Entries.{FileManifest}
use hf_ipfs.Hfcache.RepoNames.{model, dataset, repo_dir_name, repo_from_dir_name}
use hf_ipfs.Hfcache.RepoNames.Laws.{plain_from, repo_from_dir_name-repo_dir_name}
use hf_ipfs.Hfcache.Paths.{path_join, new_paths, blob_path}
use hf_ipfs.Hfcache.Paths.Segments.{abs_path, IsSegment}
use hf_ipfs.Hfcache.Safety.{safe_rel_path, safe_segments, safe_blob_name, is_inside_bookkeeping}
use hf_ipfs.Hfcache.Safety.Containment.{path_join-safe_rel_path, blob_path-new_paths}
use hf_ipfs.Hfcache.Safety.Bookkeeping.{first_segment, is_inside_bookkeeping_exact}
use hf_ipfs.Hfcache.Tree.{write_tree, enrich_from_tree}
use hf_ipfs.Hfcache.Tree.Laws.{IsKnown, HasDistinctPaths, walked, enrich_from_tree-write_tree}
use hf_ipfs.Pull.Sources.{
  parse_sources, word, is_p2p_word, is_hf_word, parse_tokens, require_source,
}
use hf_ipfs.Pull.Sources.Laws.{Known, any, parse_sources_exact}

abbrev hub_dir : List Text
hub_dir = codes "data" ∷ codes "hub" ∷ []

hub_dir-IsSegment : All IsSegment hub_dir
unfolding is_empty text_eq has_byte
hub_dir-IsSegment = ((refl, refl), ((refl, refl), tt))

nested_path_safe : safe_rel_path (codes "a/b.txt") ≡ true
unfolding safe_rel_path safe_segments split push_byte has_byte is_empty text_eq has_prefix
nested_path_safe = refl

blob_name_safe : safe_blob_name (codes "abc") ≡ true
unfolding safe_blob_name has_byte is_empty text_eq
blob_name_safe = refl

path_join-safe_rel_path_example :
    (path_join (abs_path hub_dir ∷ codes "a/b.txt" ∷ [])
      ≡ abs_path (hub_dir ++ split b'/' (codes "a/b.txt")))
    × (path_join (abs_path hub_dir ∷ codes "a/b.txt" ∷ []) ≡ codes "/data/hub/a/b.txt")
path_join-safe_rel_path_example =
    path_join-safe_rel_path hub_dir (codes "a/b.txt") (λ p. cc) hub_dir-IsSegment nested_path_safe

blob_path-new_paths_example :
    ((new_paths (codes "/data/hub") (codes "../../etc") model).repo_dir
      ≡ abs_path (hub_dir ++ repo_dir_name (codes "../../etc") model ∷ []))
    × (blob_path (new_paths (codes "/data/hub") (codes "../../etc") model) (codes "abc")
        ≡ abs_path (
            (hub_dir ++ repo_dir_name (codes "../../etc") model ∷ [])
            ++ codes "blobs" ∷ codes "abc" ∷ []))
blob_path-new_paths_example =
    blob_path-new_paths hub_dir (codes "../../etc") model (codes "abc") (λ p. cc) hub_dir-IsSegment
      blob_name_safe

is_inside_bookkeeping_exact_example : is_inside_bookkeeping (codes ".gitattributes") ≡ (
    text_eq (first_segment (split b'/' (codes ".gitattributes"))) (codes ".git")
    || text_eq (first_segment (split b'/' (codes ".gitattributes"))) (codes ".cache"))
is_inside_bookkeeping_exact_example = is_inside_bookkeeping_exact (codes ".gitattributes")

repo_from_dir_name-repo_dir_name_example :
    repo_from_dir_name (repo_dir_name (codes "org/data-set") dataset)
    ≡ some (codes "org/data-set", dataset)
unfolding plain_from
repo_from_dir_name-repo_dir_name_example =
    repo_from_dir_name-repo_dir_name (codes "org/data-set") dataset refl (λ p. cc)

abbrev lfs_file : FileManifest
lfs_file = record {
  path = codes "w";
  blob_name = codes "abc";
  size = pos 2;
  sha256 = codes "hi";
  mode = 420;
  mtime = pos 7;
  lfs = true;
  xet_hash = codes "x";
  src_path = [];
}

abbrev plain_file : FileManifest
plain_file = record lfs_file { path = codes "c"; lfs = false; xet_hash = [] }

parse_sources_exact_example :
    All Known (split b',' (codes "P2P, ipfs"))
    × (true ≡ true)
    × (true ≡ any (λ w. is_p2p_word (word w)) (split b',' (codes "P2P, ipfs")))
    × (false ≡ any (λ w. is_hf_word (word w)) (split b',' (codes "P2P, ipfs")))
unfolding parse_sources parse_tokens require_source trim_space trim_left is_space is_empty split
    push_byte word is_p2p_word is_hf_word to_lower lower text_eq
parse_sources_exact_example =
    parse_sources_exact (codes "P2P, ipfs") (record { p2p = true; hf = false }) refl refl

abbrev xet_file : FileManifest
xet_file = record lfs_file { blob_name = []; sha256 = [] }

xet_file-IsKnown : IsKnown xet_file
unfolding is_empty
xet_file-IsKnown = record { xet_is_lfs = λ h. refl; lfs_has_digest = λ h. inr refl }

abbrev second_file : FileManifest
second_file = record xet_file { path = codes "v/x" }

second_file-IsKnown : IsKnown second_file
unfolding is_empty
second_file-IsKnown = record { xet_is_lfs = λ h. refl; lfs_has_digest = λ h. inr refl }

distinct : HasDistinctPaths (xet_file ∷ second_file ∷ [])
unfolding HasDistinctPaths text_eq
distinct = ((refl, tt), (tt, tt))

abbrev tree_text : Text
tree_text = elim (write_tree tree_json none (xet_file ∷ second_file ∷ [])) [
  | ok text ↦ text
  | err e ↦ []
]

tree_written : write_tree tree_json none (xet_file ∷ second_file ∷ []) ≡ ok tree_text
unfolding write_tree
tree_written = refl

enrich_from_tree-write_tree_example :
    enrich_from_tree tree_json (some tree_text) (walked xet_file ∷ walked second_file ∷ [])
    ≡ xet_file ∷ second_file ∷ []
enrich_from_tree-write_tree_example =
    enrich_from_tree-write_tree tree_json tree_json-TreeJsonLaws (xet_file ∷ second_file ∷ [])
      tree_text (xet_file-IsKnown, (second_file-IsKnown, tt)) distinct tree_written
