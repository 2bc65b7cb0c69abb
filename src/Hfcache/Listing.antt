-- ===== src/Hfcache/Listing.antt =====
-- ListRepos of internal/hfcache/cache.go, from the entries that ReadDir gives, each with the test IsDir.
use hf_ipfs.Prelude.{
  ◌≡◌, Bool, not, List, [], ◌∷◌, Option, none, some, Text, codes, has_prefix, trim_prefix,
  if◌then◌else◌, Result, ok, err, arith,
}
use hf_ipfs.Hfcache.RepoNames.{dir_prefix, dashes_to_slashes, first_prefix, repo_from_dir_name}
use hf_ipfs.Hfcache.Sorting.{sort_strings}

pub data ListError : Type 0 where
  not_exist other_error : ListError

-- The switch on the name, and the id behind the prefix.
unfoldable pub repo_id_of : Text → Option Text
repo_id_of name =
    if has_prefix (codes "models--") name
    then some (dashes_to_slashes (trim_prefix (codes "models--") name))
    else if has_prefix (codes "datasets--") name
    then some (dashes_to_slashes (trim_prefix (codes "datasets--") name))
    else if has_prefix (codes "spaces--") name
    then some (dashes_to_slashes (trim_prefix (codes "spaces--") name))
    else none

-- The loop over the entries.
unfoldable pub repo_ids : List (Bool × Text) → List Text
repo_ids [] = []
repo_ids ((is_dir, name) ∷ entries) =
    let rest = repo_ids entries in
    if not is_dir
    then rest
    else (elim (repo_id_of name) [ none ↦ rest | some repo_id ↦ repo_id ∷ rest ])

-- ListRepos
unfoldable pub list_repos : Result ListError (List (Bool × Text)) → Result ListError (List Text)
list_repos (err not_exist) = ok []
list_repos (err other_error) = err other_error
list_repos (ok entries) = ok (sort_strings (repo_ids entries))

-- The id that is listed for a directory is the one that RepoFromDirName gives.
pub repo_id_of_lem :
    (name : Text)
    → repo_id_of name ≡ (elim (repo_from_dir_name name) as (λ o. Option Text) [
      | none ↦ none
      | some (repo_id, t) ↦ some repo_id
    ])
unfolding repo_id_of repo_from_dir_name first_prefix dir_prefix
repo_id_of_lem name = ground arith
