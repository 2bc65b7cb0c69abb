-- ===== src/Hfcache/Safety/Containment.antt =====
-- A name that passes the tests stays below the directory that it is joined to.
use hf_ipfs.Prelude.{
  ℕ, ◌≡◌, ◌≢◌, refl, ap, sym, ◌∙◌, true, false, List, [], ◌∷◌, ◌++◌, append_assoc, append-nil, Text,
  codes, text_eq, has_byte, split, push_byte, join, is_empty, ◌==◌, arith, All, All-append,
  Bool-cases, inl, inr, ==_iff,
}
use hf_ipfs.Hfcache.RepoNames.{
  RepoType, model, dataset, space, other, dir_prefix, slashes_to_dashes, repo_dir_name,
}
use hf_ipfs.Hfcache.Paths.{clean, path_join, new_paths, blob_path}
use hf_ipfs.Hfcache.Paths.Segments.{abs_path, IsSegment, abs_path-append, clean-abs_path}
use hf_ipfs.Hfcache.Safety.{safe_blob_name, safe_segments, safe_rel_path}

push_byte-has_byte :
    (c : ℕ) (parts : List Text)
    → (c == b'/') ≡ false
    → All (λ part. has_byte b'/' part ≡ false) parts
    → All (λ part. has_byte b'/' part ≡ false) (push_byte c parts)
unfolding push_byte has_byte
push_byte-has_byte c [] h _ = (ground arith, tt)
push_byte-has_byte c (p ∷ ps) h (hp, hps) = (ground arith, hps)

abs_path-push_byte :
    (c : ℕ) (parts : List Text) (s : Text)
    → abs_path parts ≡ b'/' ∷ s
    → abs_path (push_byte c parts) ≡ b'/' ∷ c ∷ s
unfolding push_byte
abs_path-push_byte c [] s h = cc
abs_path-push_byte c (p ∷ ps) s h = cc

-- The parts of a split hold no separator, and joined behind slashes they give the text back.
split-has_byte : (s : Text) → All (λ part. has_byte b'/' part ≡ false) (split b'/' s)
unfolding split has_byte
split-has_byte [] = (refl, tt)
split-has_byte (c ∷ s) = elim (Bool-cases (c == b'/')) [
  | inl slash ↦ rw slash (refl, split-has_byte s)
  | inr other_byte ↦
      rw other_byte (push_byte-has_byte c (split b'/' s) other_byte (split-has_byte s))
]

abs_path-split : (s : Text) → abs_path (split b'/' s) ≡ b'/' ∷ s
unfolding split
abs_path-split [] = refl
abs_path-split (c ∷ s) = elim (Bool-cases (c == b'/')) [
  | inl slash ↦
      let same : c ≡ b'/' = (==_iff c b'/').0 slash in rw slash (cc (abs_path-split s, same))
  | inr other_byte ↦ rw other_byte (abs_path-push_byte c (split b'/' s) s (abs_path-split s))
]

safe_segments-All :
    (segs : List Text)
    → All (λ part. has_byte b'/' part ≡ false) segs
    → safe_segments segs ≡ true
    → All IsSegment segs
unfolding safe_segments
safe_segments-All [] _ h = tt
safe_segments-All (s ∷ segs) (hs, hss) h =
    ((ground arith, hs), safe_segments-All segs hss (ground arith))

pub split-IsSegment : (rel : Text) → safe_rel_path rel ≡ true → All IsSegment (split b'/' rel)
unfolding safe_rel_path
split-IsSegment rel h = safe_segments-All (split b'/' rel) (split-has_byte rel) (ground arith)

-- Two names are joined by a slash, and cleaned.
path_join_abs :
    (dir names : List Text) (rel : Text)
    → dir ≢ []
    → All IsSegment (dir ++ names)
    → abs_path names ≡ b'/' ∷ rel
    → path_join (abs_path dir ∷ rel ∷ []) ≡ abs_path (dir ++ names)
unfolding path_join join is_empty
path_join_abs [] names rel ne h e = absurd (ne refl)
path_join_abs (d ∷ dir) names rel ne h e =
    ap clean (sym (abs_path-append (d ∷ dir) names ∙ ap (λ (s : Text). abs_path (d ∷ dir) ++ s) e))
    ∙ clean-abs_path ((d ∷ dir) ++ names) (λ p. cc) h

-- Joining a safe relative path to an absolute directory appends its segments: nothing is cleaned
-- away, and the result lies below the directory.
pub path_join-safe_rel_path :
    (dir : List Text) (rel : Text)
    → dir ≢ []
    → All IsSegment dir
    → safe_rel_path rel ≡ true
    → (path_join (abs_path dir ∷ rel ∷ []) ≡ abs_path (dir ++ split b'/' rel))
      × (path_join (abs_path dir ∷ rel ∷ []) ≡ abs_path dir ++ b'/' ∷ rel)
path_join-safe_rel_path dir rel ne names safe =
    let below =
      path_join_abs dir (split b'/' rel) rel ne
        (All-append IsSegment dir (split b'/' rel) names (split-IsSegment rel safe))
        (abs_path-split rel) in
    (
      below,
      below
          ∙ abs_path-append dir (split b'/' rel)
          ∙ ap (λ (s : Text). abs_path dir ++ s) (abs_path-split rel),
    )

safe_blob_name-IsSegment : (name : Text) → safe_blob_name name ≡ true → IsSegment name
unfolding safe_blob_name
safe_blob_name-IsSegment name h = ground arith

-- One name joined to an absolute directory.
path_join-IsSegment :
    (dir : List Text) (name : Text)
    → dir ≢ []
    → All IsSegment dir
    → IsSegment name
    → path_join (abs_path dir ∷ name ∷ []) ≡ abs_path (dir ++ name ∷ [])
path_join-IsSegment dir name ne names h =
    path_join_abs dir (name ∷ []) name ne (All-append IsSegment dir (name ∷ []) names (h, tt))
      (rw append-nil)

-- The directory name of a repository holds no slash, whatever its id.
slashes_to_dashes-has_byte : (s : Text) → has_byte b'/' (slashes_to_dashes s) ≡ false
unfolding slashes_to_dashes has_byte
slashes_to_dashes-has_byte [] = refl
slashes_to_dashes-has_byte (c ∷ s) = ground (arith, slashes_to_dashes-has_byte s)

repo_dir_name-IsSegment : (repo_id : Text) (t : RepoType) → IsSegment (repo_dir_name repo_id t)
unfolding repo_dir_name dir_prefix has_byte is_empty text_eq
repo_dir_name-IsSegment s model = (refl, slashes_to_dashes-has_byte s)
repo_dir_name-IsSegment s dataset = (refl, slashes_to_dashes-has_byte s)
repo_dir_name-IsSegment s space = (refl, slashes_to_dashes-has_byte s)
repo_dir_name-IsSegment s other = (refl, slashes_to_dashes-has_byte s)

append-ne-nil : (xs : List Text) (x : Text) → xs ++ x ∷ [] ≢ []
append-ne-nil [] x e = cc
append-ne-nil (y ∷ xs) x e = cc

module _ (hub : List Text) (ne : hub ≢ []) (names : All IsSegment hub) (repo_id : Text)
    (t : RepoType) where
  abbrev repo_segments : List Text
  repo_segments = hub ++ repo_dir_name repo_id t ∷ []

  repo_dir_lem : (new_paths (abs_path hub) repo_id t).repo_dir ≡ abs_path repo_segments
  unfolding new_paths
  repo_dir_lem =
      path_join-IsSegment hub (repo_dir_name repo_id t) ne names (repo_dir_name-IsSegment repo_id t)

  -- A directory of the repository, by its name.
  sub_dir_lem :
      (name : Text)
      → IsSegment name
      → path_join ((new_paths (abs_path hub) repo_id t).repo_dir ∷ name ∷ [])
        ≡ abs_path (repo_segments ++ name ∷ [])
  sub_dir_lem name h = rw repo_dir_lem (
      path_join-IsSegment repo_segments name (append-ne-nil hub (repo_dir_name repo_id t))
        (All-append IsSegment hub (repo_dir_name repo_id t ∷ []) names
          (repo_dir_name-IsSegment repo_id t, tt))
        h)

  repo_segments-IsSegment : All IsSegment repo_segments
  repo_segments-IsSegment =
      All-append IsSegment hub (repo_dir_name repo_id t ∷ []) names
        (repo_dir_name-IsSegment repo_id t, tt)

  -- A name in a directory of the repository.
  below_sub_dir :
      (sub name : Text)
      → IsSegment sub
      → IsSegment name
      → path_join (path_join ((new_paths (abs_path hub) repo_id t).repo_dir ∷ sub ∷ []) ∷ name ∷ [])
        ≡ abs_path (repo_segments ++ sub ∷ name ∷ [])
  below_sub_dir sub name hsub hname = rw (sub_dir_lem sub hsub) (
      path_join-IsSegment (repo_segments ++ sub ∷ []) name (append-ne-nil repo_segments sub)
        (All-append IsSegment repo_segments (sub ∷ []) repo_segments-IsSegment (hsub, tt)) hname
      ∙ ap abs_path (append_assoc repo_segments (sub ∷ []) (name ∷ [])))

blobs-IsSegment : IsSegment (codes "blobs")
unfolding is_empty text_eq has_byte
blobs-IsSegment = (refl, refl)

-- Under an absolute hub directory, the repository of any id, hostile or not, lies directly below the
-- hub, and its blobs, by safe names, lie directly in the `blobs` directory below that.
pub blob_path-new_paths :
    (hub : List Text) (repo_id : Text) (t : RepoType) (name : Text)
    → hub ≢ []
    → All IsSegment hub
    → safe_blob_name name ≡ true
    → ((new_paths (abs_path hub) repo_id t).repo_dir
        ≡ abs_path (hub ++ repo_dir_name repo_id t ∷ []))
      × (blob_path (new_paths (abs_path hub) repo_id t) name
          ≡ abs_path ((hub ++ repo_dir_name repo_id t ∷ []) ++ codes "blobs" ∷ name ∷ []))
unfolding blob_path new_paths
blob_path-new_paths hub repo_id t name ne names safe = (
  repo_dir_lem hub ne names repo_id t,
  below_sub_dir hub ne names repo_id t (codes "blobs") name blobs-IsSegment
      (safe_blob_name-IsSegment name safe),
)
