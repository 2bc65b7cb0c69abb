-- ===== src/Hfapi.antt =====
-- internal/hfapi/hfapi.go: the requests to the Hub and the checks on what it answers. The HTTP client,
-- JSON and url.PathEscape are parameters.
pub mod Laws
use hf_ipfs.Prelude.{
  ℕ, ◌+◌, ◌*◌, ◌^◌, Bool, true, false, not, List, [], ◌∷◌, ◌++◌, Option, none, some, Text, codes,
  text_eq, length, take, ◌==◌, is_empty, split, join, map, if◌then◌else◌, Result, ok, err,
}
use hf_ipfs.Dummy.{hex_decode}
use hf_ipfs.Hfcache.RepoNames.{RepoType, model, dataset, space, other, api_path}
use hf_ipfs.Pull.HfFallback.{Sibling}

pub record RepoInfo : Type 0 where
  pub info_id : Text
  pub sha : Text
  pub siblings : List Sibling

pub record TreeEntry : Type 0 where
  pub entry_path : Text
  pub entry_type : Text
  pub entry_xet_hash : Text

pub data ApiError : Type 0 where
  request_failed bad_status bad_body unusable_sha sha_not_hex : ApiError

-- What an HTTP request returns: a status and a body, or none.
pub record Reply : Type 0 where
  pub status : ℕ
  pub content : Text

-- The switch of escapePath.
unfoldable pub escape_segment : (Text → Text) → Text → Text
escape_segment path_escape s =
    if text_eq s (codes ".")
    then codes "%2E"
    else if text_eq s (codes "..")
    then codes "%2E%2E"
    else path_escape s

-- escapePath
unfoldable pub escape_path : (Text → Text) → Text → Text
escape_path path_escape p = join b'/' (map (escape_segment path_escape) (split b'/' p))

-- `t != hfcache.Model`
unfoldable pub resolve_prefix : RepoType → Text
resolve_prefix model = []
resolve_prefix dataset = codes "datasets/"
resolve_prefix space = codes "spaces/"
resolve_prefix other = codes "models/"

-- The error of a status that is not 200, and the decoded body of one that is.
unfoldable pub accept_reply :
    {A : Type 0} → ℕ → (Text → Option A) → Option Reply → Result ApiError A
accept_reply limit decode none = err request_failed
accept_reply limit decode (some r) =
    if r.status == 200
    then (elim (decode (take limit r.content)) [ none ↦ err bad_body | some a ↦ ok a ])
    else err bad_status

-- The checks on the commit hash of an answer.
unfoldable pub check_sha : Result ApiError RepoInfo → Result ApiError RepoInfo
check_sha (err e) = err e
check_sha (ok info) =
    if length info.sha == 40
    then (elim (hex_decode info.sha) [ none ↦ err sha_not_hex | some raw ↦ ok info ])
    else err unusable_sha

unfoldable pub without_directories : List TreeEntry → List TreeEntry
without_directories [] = []
without_directories (e ∷ es) =
    let rest = without_directories es in
    if text_eq e.entry_type (codes "directory") then rest else e ∷ rest

unfoldable pub entries_of : Result ApiError (List TreeEntry) → Result ApiError (List TreeEntry)
entries_of (err e) = err e
entries_of (ok es) = ok (without_directories es)

module _ (endpoint : Text) (path_escape : Text → Text) (http_get : Text → Option Reply) where
  -- ResolveURL
  unfoldable pub resolve_url : Text → RepoType → Text → Text → Text
  resolve_url repo_id t revision path =
      endpoint
      ++ codes "/"
      ++ resolve_prefix t
      ++ escape_path path_escape repo_id
      ++ codes "/resolve/"
      ++ escape_path path_escape revision
      ++ codes "/"
      ++ escape_path path_escape path

  -- The URL of RepoInfoAt.
  unfoldable pub repo_info_url : Text → RepoType → Text → Bool → Text
  repo_info_url repo_id t revision blobs =
      let base =
        endpoint ++ codes "/api/" ++ api_path t ++ codes "/" ++ escape_path path_escape repo_id in
      let query = if blobs then codes "?blobs=true" else codes "?blobs=false" in
      if not (is_empty revision)
      then base ++ codes "/revision/" ++ escape_path path_escape revision ++ query
      else base ++ query

  -- RepoInfoAt: a body of at most 8 MiB is read.
  unfoldable pub repo_info_at :
      (Text → Option RepoInfo) → Text → RepoType → Text → Bool → Result ApiError RepoInfo
  repo_info_at decode repo_id t revision blobs =
      check_sha
        (accept_reply (8 * 2 ^ 20) decode (http_get (repo_info_url repo_id t revision blobs)))

  unfoldable pub sha_of : Result ApiError RepoInfo → Result ApiError Text
  sha_of (err e) = err e
  sha_of (ok info) = ok info.sha

  -- LatestCommit, through RepoInfo
  unfoldable pub latest_commit : (Text → Option RepoInfo) → Text → RepoType → Result ApiError Text
  latest_commit decode repo_id t = sha_of (repo_info_at decode repo_id t [] false)

  -- TreeAt: a body of at most 32 MiB is read.
  unfoldable pub tree_at :
      (Text → Option (List TreeEntry)) → Text → RepoType → Text → Result ApiError (List TreeEntry)
  tree_at decode repo_id t revision = entries_of (
      accept_reply (32 * 2 ^ 20) decode (
        http_get (
          endpoint
          ++ codes "/api/"
          ++ api_path t
          ++ codes "/"
          ++ escape_path path_escape repo_id
          ++ codes "/tree/"
          ++ escape_path path_escape revision
          ++ codes "?recursive=true")))
