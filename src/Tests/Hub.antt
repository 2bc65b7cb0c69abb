-- ===== src/Tests/Hub.antt =====
-- The Hub and the reads through a peer, at concrete inputs.
use hf_ipfs.Prelude.{
  trim_space, trim_left, is_space, ℕ, ◌≡◌, ◌⊎◌, refl, inl, true, false, ◌||◌, [], ◌∷◌, ◌++◌, Option,
  none, some, Text, codes, length, map, All, if◌then◌else◌, ok, err, arith, text_eq, is_empty,
  has_byte, split, push_byte, has_prefix, ◌==◌,
}
use hf_ipfs.Prelude.Int64.{pos, add64, signed, is_negative}
use hf_ipfs.Prelude.Table.{text_Eq, lookup}
use hf_ipfs.Cids.Concrete.{plain_cids}
use hf_ipfs.Dummy.{from_commit, hex_decode, hex_value, join_nibbles}
use hf_ipfs.Mapping.Entries.{FileManifest}
use hf_ipfs.Hfcache.RepoNames.{model}
use hf_ipfs.Hfcache.Safety.{safe_rel_path, safe_segments, safe_blob_name}
use hf_ipfs.Pull.HfFallback.{
  Sibling, Hub, Response, Disk, DownloadError, tmp_not_created, has_size, fetch_blob,
  manifest_from_revision, manifests_from, sibling_manifest, has_negative_lfs, with_lfs, xet_of,
}
use hf_ipfs.Pull.HfFallback.Laws.{
  IsWritable, IsDownloaded, sum_from, manifest_from_revision_sound, fetch_blob_verified,
}
use hf_ipfs.Pull.Sources.{resolve}
use hf_ipfs.Pull.Run.{
  Options, Steps, pulls_from_hub, run, run_commit, local_or_transfer, transfer, try_hub, IsFallback,
  run-IsFallback,
}
use hf_ipfs.Hfapi.{
  RepoInfo, Reply, escape_segment, escape_path, latest_commit, sha_of, repo_info_at, check_sha,
  accept_reply,
}
use hf_ipfs.Hfapi.Laws.{IsLiteral, PathEscapeLaws, escape_path-IsLiteral}

abbrev hub_file : Sibling
hub_file = record {
  rfilename = codes "w";
  file_size = pos 3;
  blob_id = codes "abc";
  lfs_info = some (record { lfs_sha256 = codes "hi!"; lfs_size = pos 3 });
}

abbrev hub_manifest : FileManifest
hub_manifest = record {
  path = codes "w";
  blob_name = codes "abc";
  size = pos 3;
  sha256 = codes "hi!";
  mode = 420;
  mtime = pos 0;
  lfs = true;
  xet_hash = [];
  src_path = [];
}

manifest_made : manifest_from_revision (hub_file ∷ []) [] ≡ ok (hub_manifest ∷ [], pos 3)
unfolding manifest_from_revision manifests_from sibling_manifest has_negative_lfs with_lfs xet_of
    safe_rel_path safe_segments safe_blob_name is_negative add64 signed is_empty split push_byte
    has_byte has_prefix text_eq lookup
manifest_made = refl

manifest_from_revision_sound_example :
    All IsWritable (hub_manifest ∷ [])
    × (pos 3 ≡ sum_from (pos 0) (hub_manifest ∷ []))
    × (codes "w" ∷ [] ≡ codes "w" ∷ [])
manifest_from_revision_sound_example =
    manifest_from_revision_sound (hub_file ∷ []) [] (hub_manifest ∷ []) (pos 3) manifest_made

abbrev toy_hub : Hub
toy_hub = record {
  hash256 = λ s. s;
  hash1 = λ s. s;
  decimal = λ n. [];
  can_create = true;
  can_close = true;
  can_rename = true;
  can_remove = true;
}

abbrev hub_answer : Option Response
hub_answer = some (record { body = codes "hi!"; complete = true })

abbrev new_disk : Disk
new_disk = record { on_disk = []; bytes_done = pos 0 }

fetch_blob_verified_example :
    ((f' : FileManifest)
      → (fetch_blob toy_hub hub_manifest (codes "b") (codes "t") hub_answer new_disk).0 ≡ ok f'
      → (content : Text) × (lookup
            (codes "b")
            (fetch_blob toy_hub hub_manifest (codes "b") (codes "t") hub_answer new_disk).1.on_disk
          ≡ some content)
        × (((has_size toy_hub hub_manifest (lookup (codes "b") new_disk.on_disk) ≡ true)
              × (pos (length content) ≡ pos 3))
            ⊎ IsDownloaded toy_hub hub_manifest f' content))
    × ((e : DownloadError)
        → (fetch_blob toy_hub hub_manifest (codes "b") (codes "t") hub_answer new_disk).0 ≡ err e
        → (lookup
              (codes "b")
              (fetch_blob toy_hub hub_manifest
                (codes "b")
                (codes "t")
                hub_answer
                new_disk).1.on_disk
            ≡ lookup (codes "b") new_disk.on_disk)
          × ((lookup
                  (codes "t")
                  (fetch_blob toy_hub hub_manifest
                    (codes "b")
                    (codes "t")
                    hub_answer
                    new_disk).1.on_disk
                ≡ none)
              ⊎ ((e ≡ tmp_not_created) ⊎ (toy_hub.can_remove ≡ false))))
fetch_blob_verified_example =
    fetch_blob_verified toy_hub hub_manifest (codes "b") (codes "t") hub_answer new_disk
      (λ p. ground arith)

-- An escaping of slashes and dots only.
abbrev escape_byte : ℕ → Text
escape_byte c = if c == b'/' then codes "%2F" else if c == b'.' then codes "%2E" else c ∷ []

abbrev toy_escape : Text → Text
toy_escape [] = []
toy_escape (c ∷ s) = escape_byte c ++ toy_escape s

has_byte-append : (x : ℕ) (s t : Text) → has_byte x (s ++ t) ≡ (has_byte x s || has_byte x t)
unfolding has_byte
has_byte-append x [] t = refl
has_byte-append x (c ∷ s) t = ground (arith, has_byte-append x s t)

toy_escape-no_slash : (s : Text) → has_byte b'/' (toy_escape s) ≡ false
unfolding has_byte
toy_escape-no_slash [] = refl
toy_escape-no_slash (c ∷ s) = ground (arith, toy_escape-no_slash s)

toy_escape-escaped : (s : Text) → (toy_escape s ≡ s) ⊎ (has_byte b'%' (toy_escape s) ≡ true)
unfolding has_byte
toy_escape-escaped [] = inl refl
toy_escape-escaped (c ∷ s) = ground (arith, toy_escape-escaped s)

toy_escape-PathEscapeLaws : PathEscapeLaws toy_escape
toy_escape-PathEscapeLaws = record { no_slash = toy_escape-no_slash; escaped = toy_escape-escaped }

escape_path-IsLiteral_example :
    All IsLiteral (split b'/' (escape_path toy_escape (codes "org/../x.y")))
    × (split b'/' (escape_path toy_escape (codes "org/../x.y"))
        ≡ map (escape_segment toy_escape) (split b'/' (codes "org/../x.y")))
escape_path-IsLiteral_example =
    escape_path-IsLiteral toy_escape toy_escape-PathEscapeLaws (codes "org/../x.y")

abbrev hub_sha : Text
hub_sha = codes "00112233445566778899aabbccddeeff00112233"

abbrev hub_get : Text → Option Reply
hub_get url = some (record { status = 200; content = hub_sha })

abbrev info_of : Text → Option RepoInfo
info_of s = some (record { info_id = []; sha = s; siblings = [] })

hub_commit : latest_commit [] toy_escape hub_get info_of (codes "gpt") model ≡ ok hub_sha
unfolding latest_commit sha_of repo_info_at check_sha accept_reply hex_decode hex_value join_nibbles
hub_commit = refl

-- A pull whose commit the Hub names, and whose peers fail.
abbrev lonely_steps : Steps (Unit {0})
lonely_steps = record {
  latest = ok hub_sha;
  mapping_get = λ commit. ok none;
  snapshot_complete = λ commit. false;
  write_snapshot = λ commit files ref. ok tt;
  pull_from_peers = λ commit ref. err tt;
  pull_from_hub = λ commit ref. ok tt;
}

abbrev lonely_pull : Options
lonely_pull = record {
  repo_id = codes "gpt";
  pinned = [];
  ref = [];
  force = false;
  sources = record { p2p = false; hf = false };
}

hub_asked :
    pulls_from_hub plain_cids lonely_steps (run plain_cids lonely_steps lonely_pull).1 ≡ true
unfolding run run_commit local_or_transfer transfer try_hub pulls_from_hub is_empty trim_space
    trim_left is_space from_commit hex_decode hex_value join_nibbles resolve
hub_asked = refl

run-IsFallback_example :
    IsFallback plain_cids lonely_steps lonely_pull (run plain_cids lonely_steps lonely_pull).1
run-IsFallback_example = run-IsFallback plain_cids lonely_steps lonely_pull hub_asked
