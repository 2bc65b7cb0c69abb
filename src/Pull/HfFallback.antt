-- ===== src/Pull/HfFallback.antt =====
-- internal/pull/hffallback.go: the manifest that is made from the file list of the Hub, and the
-- download of one blob. Its body comes through Download of internal/hfapi/hfapi.go.
--
-- SHA-256, SHA-1 and the decimal text of a size are parameters, as is the answer of the HTTP server.
pub mod Laws
use hf_ipfs.Prelude.{
  ℕ, suc, Bool, true, false, not, ◌&&◌, ◌||◌, List, [], ◌∷◌, ◌++◌, Option, none, some, Text, codes,
  text_eq, length, take, is_empty, if◌then◌else◌, Result, ok, err, ◌>>=◌, ◌>>◌, guard,
}
use hf_ipfs.Prelude.Int64.{ℤ, pos, negsuc, add64, int_eq, is_negative}
use hf_ipfs.Prelude.Table.{text_Eq, lookup, insert, remove, moved}
use hf_ipfs.Mapping.Entries.{FileManifest}
use hf_ipfs.Hfcache.Safety.{safe_blob_name, safe_rel_path}

-- LFSInfo and Sibling of internal/hfapi/hfapi.go
pub record LfsInfo : Type 0 where
  pub lfs_sha256 : Text
  pub lfs_size : ℤ

pub record Sibling : Type 0 where
  pub rfilename : Text
  pub file_size : ℤ
  pub blob_id : Text
  pub lfs_info : Option LfsInfo

pub data ManifestError : Type 0 where
  no_blob_id unsafe_name negative_size : ManifestError

-- `xetByPath[path]`: the empty string where there is no entry.
unfoldable pub xet_of : List (Text × Text) → Text → Text
xet_of xets path = elim (lookup path xets) [ none ↦ [] | some hash ↦ hash ]

-- `s.LFS != nil && s.LFS.Size < 0`
unfoldable pub has_negative_lfs : Option LfsInfo → Bool
has_negative_lfs none = false
has_negative_lfs (some lfs) = is_negative lfs.lfs_size

unfoldable pub with_lfs : Option LfsInfo → FileManifest → FileManifest
with_lfs none f = f
with_lfs (some i) f = record f { lfs = true; size = i.lfs_size; sha256 = i.lfs_sha256 }

-- One round of the loop of manifestFromRevision.
unfoldable pub sibling_manifest : List (Text × Text) → Sibling → Result ManifestError FileManifest
sibling_manifest xets s =
    if is_empty s.blob_id
    then err no_blob_id
    else if not (safe_blob_name s.blob_id) || not (safe_rel_path s.rfilename)
    then err unsafe_name
    else if is_negative s.file_size || has_negative_lfs s.lfs_info
    then err negative_size
    else ok (
        with_lfs s.lfs_info (record {
          path = s.rfilename;
          blob_name = s.blob_id;
          size = s.file_size;
          sha256 = [];
          mode = 420;
          mtime = pos 0;
          lfs = false;
          xet_hash = xet_of xets s.rfilename;
          src_path = [];
        }))

-- The loop, with the files and the total so far.
unfoldable pub manifests_from :
    List (Text × Text)
    → List Sibling
    → List FileManifest
    → ℤ
    → Result ManifestError (List FileManifest × ℤ)
manifests_from xets [] files total = ok (files, total)
manifests_from xets (s ∷ siblings) files total = sibling_manifest xets s >>= λ f.
    manifests_from xets siblings (files ++ f ∷ []) (add64 total f.size)

unfoldable pub manifest_from_revision :
    List Sibling → List (Text × Text) → Result ManifestError (List FileManifest × ℤ)
manifest_from_revision siblings xets = manifests_from xets siblings [] (pos 0)

-- What the server sends for a file: its body, and whether the body ends without an error.
pub record Response : Type 0 where
  pub body : Text
  pub complete : Bool

-- io.LimitReader(resp.Body, maxBytes+1), where maxBytes is not negative
unfoldable pub limited : ℤ → Text → Text
limited (pos n) s = take (suc n) s
limited (negsuc n) s = s

-- Download: what it writes, and whether it returns without an error; `none` is a request that fails
-- or a status that is not 200.
unfoldable pub download : Option Response → ℤ → Text × Bool
download none max_bytes = ([], false)
download (some r) max_bytes = (limited max_bytes r.body, r.complete)

pub data DownloadError : Type 0 where
  tmp_not_created not_downloaded tmp_not_closed wrong_length wrong_sha256 wrong_blob_id not_placed :
      DownloadError

-- The files on disk, and the bytes done.
pub record Disk : Type 0 where
  pub on_disk : List (Text × Text)
  pub bytes_done : ℤ

-- resolveToken
unfoldable pub resolve_token : Text → Text → Text
resolve_token override configured = if not (is_empty override) then override else configured

pub record Hub : Type 0 where
  pub hash256 : Text → Text
  pub hash1 : Text → Text
  pub decimal : ℤ → Text
  pub can_create : Bool
  pub can_close : Bool
  pub can_rename : Bool
  -- os.Remove of the temporary file
  pub can_remove : Bool

module _ (hub : Hub) where
  -- SHA-1 over "blob <size>\0" and the content
  unfoldable pub git_blob_id : ℤ → Text → Text
  git_blob_id size content = hub.hash1 (codes "blob " ++ hub.decimal size ++ 0 ∷ content)

  -- The switch: an LFS file against its digest, a plain one against its name.
  unfoldable pub check_digest : FileManifest → Text → Result DownloadError FileManifest
  check_digest f content =
      if is_empty f.sha256
      then (if text_eq (git_blob_id f.size content) f.blob_name
          then ok (record f { sha256 = hub.hash256 content })
          else err wrong_blob_id)
      else if text_eq (hub.hash256 content) f.sha256
      then ok f
      else err wrong_sha256

  -- The tests between the download and the rename, in order.
  unfoldable pub check_download : FileManifest → Text → Bool → Result DownloadError FileManifest
  check_download f content complete =
      guard complete not_downloaded
      >> (guard hub.can_close tmp_not_closed
          >> (guard (int_eq (pos (length content)) f.size) wrong_length >> check_digest f content))

  -- os.Remove(tmp), whose failure is ignored
  unfoldable pub discard : Text → Disk → Disk
  discard tmp d = if hub.can_remove then record d { on_disk = remove tmp d.on_disk } else d

  -- os.Rename(tmp, blobPath) for a download that passed, and os.Remove(tmp) in every other case; `n` is
  -- the number of the bytes that Download wrote.
  unfoldable pub place :
      Text
      → Text
      → ℕ
      → Result DownloadError FileManifest
      → Disk
      → Result DownloadError FileManifest × Disk
  place blob tmp n (err e) d = (err e, discard tmp d)
  place blob tmp n (ok f) d =
      if hub.can_rename
      then (
        ok f,
        record { on_disk = moved tmp blob d.on_disk; bytes_done = add64 d.bytes_done (pos n) },
      )
      else (err not_placed, discard tmp d)

  -- os.Stat of the blob, and its size
  unfoldable pub has_size : FileManifest → Option Text → Bool
  has_size f none = false
  has_size f (some content) = int_eq (pos (length content)) f.size

  -- fetchBlob, with the manifest as the call leaves it.
  unfoldable pub fetch_blob :
      FileManifest → Text → Text → Option Response → Disk → Result DownloadError FileManifest × Disk
  fetch_blob f blob tmp r d =
      if has_size f (lookup blob d.on_disk)
      then (ok f, record d { bytes_done = add64 d.bytes_done f.size })
      else if not hub.can_create
      then (err tmp_not_created, d)
      else let got = download r f.size in
        place blob tmp (length got.0) (check_download f got.0 got.1)
          (record d { on_disk = insert tmp got.0 d.on_disk })
