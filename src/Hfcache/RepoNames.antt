-- ===== src/Hfcache/RepoNames.antt =====
-- internal/hfcache/cache.go: RepoType, and the directory names of repositories.
pub mod Laws
use hf_ipfs.Prelude.{
  ℕ, Bool, true, false, ◌&&◌, ◌||◌, List, [], ◌∷◌, ◌++◌, Option, none, some, Text, codes, text_eq,
  has_prefix, trim_prefix, to_lower, trim_space, ◌==◌, if◌then◌else◌, Result, ok, err,
}

-- `other` is a RepoType with none of the three values, such as the empty one.
pub data RepoType : Type 0 where
  model dataset space other : RepoType

-- The conversion RepoType(s).
unfoldable pub repo_type_of : Text → RepoType
repo_type_of s =
    if text_eq s (codes "model")
    then model
    else if text_eq s (codes "dataset")
    then dataset
    else if text_eq s (codes "space")
    then space
    else other

-- DirPrefix
unfoldable pub dir_prefix : RepoType → Text
dir_prefix model = codes "models--"
dir_prefix dataset = codes "datasets--"
dir_prefix space = codes "spaces--"
dir_prefix other = codes "models--"

-- APIPath
unfoldable pub api_path : RepoType → Text
api_path model = codes "models"
api_path dataset = codes "datasets"
api_path space = codes "spaces"
api_path other = codes "models"

-- ParseRepoType; the error holds the text.
unfoldable pub parse_repo_type : Text → Result Text RepoType
parse_repo_type s =
    let w = to_lower (trim_space s) in
    if text_eq w [] || text_eq w (codes "model") || text_eq w (codes "models")
    then ok model
    else if text_eq w (codes "dataset") || text_eq w (codes "datasets")
    then ok dataset
    else if text_eq w (codes "space") || text_eq w (codes "spaces")
    then ok space
    else err s

-- strings.ReplaceAll(s, "/", "--")
unfoldable pub slashes_to_dashes : Text → Text
slashes_to_dashes [] = []
slashes_to_dashes (c ∷ s) =
    if c == b'/' then b'-' ∷ b'-' ∷ slashes_to_dashes s else c ∷ slashes_to_dashes s

-- What a text becomes after one dash, which ReplaceAll has not yet copied.
unfoldable pub dashes_from : Bool → Text → Text
dashes_from true [] = b'-' ∷ []
dashes_from false [] = []
dashes_from true (c ∷ s) =
    let pair = b'/' ∷ dashes_from false s in
    let single = b'-' ∷ c ∷ dashes_from false s in if c == b'-' then pair else single
dashes_from false (c ∷ s) =
    let wait = dashes_from true s in
    let copy = c ∷ dashes_from false s in if c == b'-' then wait else copy

-- strings.ReplaceAll(s, "--", "/"): from the left, and pairs do not overlap.
unfoldable pub dashes_to_slashes : Text → Text
unfolding dashes_from
dashes_to_slashes s = dashes_from false s

-- RepoDirName
unfoldable pub repo_dir_name : Text → RepoType → Text
repo_dir_name repo_id t = dir_prefix t ++ slashes_to_dashes repo_id

-- The loop of RepoFromDirName over the types.
unfoldable pub first_prefix : List RepoType → Text → Option (Text × RepoType)
first_prefix [] name = none
first_prefix (t ∷ ts) name =
    if has_prefix (dir_prefix t) name
    then some (dashes_to_slashes (trim_prefix (dir_prefix t) name), t)
    else first_prefix ts name

-- RepoFromDirName
unfoldable pub repo_from_dir_name : Text → Option (Text × RepoType)
repo_from_dir_name name = first_prefix (model ∷ dataset ∷ space ∷ []) name
