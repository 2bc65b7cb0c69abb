-- ===== src/Hfcache/RepoNames/Laws.antt =====
-- A repository is recovered from the name of its directory, where no dash of its id stands before a
-- dash or a slash.
use hf_ipfs.Prelude.{
  ◌≡◌, refl, Bool, true, false, not, ◌&&◌, ◌||◌, [], ◌∷◌, some, Text, ◌==◌, if◌then◌else◌,
  has_prefix, trim_prefix, ◌≢◌, arith,
}
use hf_ipfs.Hfcache.RepoNames.{
  RepoType, model, dataset, space, other, dir_prefix, slashes_to_dashes, dashes_from,
  dashes_to_slashes, repo_dir_name, first_prefix, repo_from_dir_name,
}

-- No dash stands before a dash or a slash, given whether the byte before the text is a dash.
unfoldable pub plain_from : Bool → Text → Bool
plain_from p [] = true
plain_from p (c ∷ s) = not (p && (c == b'-' || c == b'/')) && plain_from (c == b'-') s

dashes_from-slashes_to_dashes :
    (p : Bool) (s : Text)
    → plain_from p s ≡ true
    → dashes_from p (slashes_to_dashes s) ≡ (if p then b'-' ∷ s else s)
unfolding plain_from dashes_from slashes_to_dashes
dashes_from-slashes_to_dashes true [] h = refl
dashes_from-slashes_to_dashes false [] h = refl
dashes_from-slashes_to_dashes true (c ∷ s) h =
    ground (arith, dashes_from-slashes_to_dashes (c == b'-') s)
dashes_from-slashes_to_dashes false (c ∷ s) h =
    ground (arith, dashes_from-slashes_to_dashes (c == b'-') s)

pub dashes_to_slashes-slashes_to_dashes :
    (s : Text) → plain_from false s ≡ true → dashes_to_slashes (slashes_to_dashes s) ≡ s
unfolding dashes_to_slashes
dashes_to_slashes-slashes_to_dashes s h = dashes_from-slashes_to_dashes false s h

-- The directory name of a repository of one of the three types is read back as its id and its type,
-- if no dash of the id stands before a dash or a slash.
pub repo_from_dir_name-repo_dir_name :
    (repo_id : Text) (t : RepoType)
    → plain_from false repo_id ≡ true
    → t ≢ other
    → repo_from_dir_name (repo_dir_name repo_id t) ≡ some (repo_id, t)
unfolding repo_from_dir_name first_prefix repo_dir_name dir_prefix trim_prefix has_prefix
repo_from_dir_name-repo_dir_name s model h known = rw (dashes_to_slashes-slashes_to_dashes s h)
repo_from_dir_name-repo_dir_name s dataset h known = rw (dashes_to_slashes-slashes_to_dashes s h)
repo_from_dir_name-repo_dir_name s space h known = rw (dashes_to_slashes-slashes_to_dashes s h)
repo_from_dir_name-repo_dir_name s other h known = absurd (known refl)
