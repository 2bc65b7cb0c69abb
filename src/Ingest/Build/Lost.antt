-- ===== src/Ingest/Build/Lost.antt =====
-- The files that an ingest leaves out of its DAG.
use hf_ipfs.Prelude.{
  ℕ, zero, suc, ◌≡◌, ◌≢◌, refl, sym, subst, ap, ◌∙◌, inl, inr, true, List, [], ◌∷◌, ◌++◌, none, ◌⊎◌,
  Text, text_eq, All, All-mono, All-append, Result, ok, err, ◌>>=◌, arith, Bool-cases,
  text_eq_sound, text_eq_refl,
}
use hf_ipfs.Prelude.Table.{text_Eq, lookup, insert, lookup-insert, member}
use hf_ipfs.Mapping.Entries.{FileManifest}
use hf_ipfs.Hfcache.Paths.Parts.{path_base}
use hf_ipfs.Ingest.Dirs.{ByDir, dir_of, add_file, files_in, keys_below, subs_of}
use hf_ipfs.Ingest.Build.{
  missing_leaf, link_failed, no_directory, Dags, or_fail, Built, link_subs, link_files, build_dir,
}
use hf_ipfs.Ingest.Build.Total.{All-sort_strings}

-- The directories that buildDir comes to.
data Visited (by_dir : ByDir) : Text → Type 0 where
  top : Visited by_dir []
  below :
      {dir k : Text}
      → Visited by_dir dir
      → member k (keys_below dir by_dir) ≡ true
      → Visited by_dir k

-- The map byDir of a list of files.
unfoldable pub by_dir_of : List FileManifest → ByDir → ByDir
by_dir_of [] by_dir = by_dir
by_dir_of (f ∷ fs) by_dir = by_dir_of fs (add_file f by_dir)

IsGrouped : ByDir → Type 0
IsGrouped by_dir = (dir : Text) → All (λ f. dir_of f.path ≡ dir) (files_in dir by_dir)

add_file-IsGrouped :
    (f : FileManifest) (by_dir : ByDir) → IsGrouped by_dir → IsGrouped (add_file f by_dir)
unfolding IsGrouped add_file files_in
add_file-IsGrouped f by_dir grouped dir =
    let key = dir_of f.path in
    let before = files_in key by_dir in
    let now = lookup-insert key dir (before ++ f ∷ []) by_dir in
    elim (Bool-cases (text_eq key dir)) [
      | inl same ↦
          let eq : key ≡ dir = text_eq_sound key dir same in
          subst (All (λ g. dir_of g.path ≡ dir)) {x = before ++ f ∷ []} (ground (arith, now, same))
            (All-append (λ g. dir_of g.path ≡ dir) before (f ∷ [])
              (subst (λ k. All (λ g. dir_of g.path ≡ k) before) eq (grouped key)) (eq, tt))
      | inr apart ↦
          subst (All (λ g. dir_of g.path ≡ dir)) {x = files_in dir by_dir}
            (ground (arith, now, apart)) (grouped dir)
    ]

by_dir_of-IsGrouped :
    (fs : List FileManifest) (by_dir : ByDir) → IsGrouped by_dir → IsGrouped (by_dir_of fs by_dir)
unfolding by_dir_of
by_dir_of-IsGrouped [] by_dir grouped = grouped
by_dir_of-IsGrouped (f ∷ fs) by_dir grouped =
    by_dir_of-IsGrouped fs (add_file f by_dir) (add_file-IsGrouped f by_dir grouped)

member_all : (l : List Text) → All (λ k. member k l ≡ true) l
member_all [] = tt
member_all (k ∷ l) = (
  ground (arith, text_eq_refl k),
  All-mono (λ x. member x l ≡ true) (λ x. member x (k ∷ l) ≡ true) (λ x h. ground (arith, h)) l
      (member_all l),
)

bind_same {ℓ κ} :
    {E : Type 0} {A : Type ℓ} {B : Type κ} (m n : Result E A) (f g : A → Result E B)
    → m ≡ n
    → ((a : A) → f a ≡ g a)
    → (m >>= f) ≡ (n >>= g)
bind_same m (err e) f g eq step = ap (λ x. x >>= f) eq
bind_same m (ok a) f g eq step = ap (λ x. x >>= f) eq ∙ step a

module _ (D : Dags) (by_dir : ByDir) (leaves : List (Text × D.Node)) (path : Text)
    (other : D.Node) where
  abbrev changed : List (Text × D.Node)
  changed = insert path other leaves

  link_files_lem :
      (dir : Text)
      → dir_of path ≢ dir
      → (fs : List FileManifest) → All (λ f. dir_of f.path ≡ dir) fs
      → (at : D.Directory × D.Stored)
      → link_files D by_dir changed fs at ≡ link_files D by_dir leaves fs at
  unfolding link_files
  link_files_lem dir apart [] all at = refl
  link_files_lem dir apart (f ∷ fs) (here, all) (d, st) =
      bind_same (or_fail missing_leaf (lookup f.path changed))
        (or_fail missing_leaf (lookup f.path leaves)) _ _ (ap (or_fail missing_leaf) leaf_same)
        (λ leaf.
          bind_same (or_fail link_failed (D.add_child st d (path_base f.path) leaf)) _ _ _ refl
            (link_files_lem dir apart fs all))
    where
      leaf_same : lookup f.path changed ≡ lookup f.path leaves
      leaf_same = elim (Bool-cases (text_eq path f.path)) [
        | inl same ↦ absurd (apart (ap dir_of (text_eq_sound path f.path same) ∙ here))
        | inr differs ↦ ground (arith, differs, lookup-insert path f.path other leaves)
      ]

  link_subs_lem :
      (u v : Text → D.Stored → Built D) (subs : List Text)
      → All (λ k. (st : D.Stored) → u k st ≡ v k st) subs
      → (at : D.Directory × D.Stored)
      → link_subs D by_dir changed u subs at ≡ link_subs D by_dir leaves v subs at
  unfolding link_subs
  link_subs_lem u v [] all at = refl
  link_subs_lem u v (sub ∷ subs) (here, all) (d, st) =
      bind_same (u sub st) (v sub st) _ _ (here st) (λ (child, after).
        bind_same (or_fail link_failed (D.add_child after d (path_base sub) child)) _ _ _ refl
          (link_subs_lem u v subs all))

  build_dir_lem :
      IsGrouped by_dir
      → ¬ Visited by_dir (dir_of path)
      → (n : ℕ) (dir : Text) → Visited by_dir dir
      → (st : D.Stored) → build_dir D by_dir changed n dir st ≡ build_dir D by_dir leaves n dir st
  unfolding build_dir subs_of IsGrouped
  build_dir_lem grouped lost zero dir seen st = refl
  build_dir_lem grouped lost (suc n) dir seen st =
      let keys = keys_below dir by_dir in
      let apart : dir_of path ≢ dir = λ eq. lost (subst (Visited by_dir) (sym eq) seen) in
      let visits =
        All-mono (λ k. member k keys ≡ true)
          (λ k.
            (at : D.Stored) → build_dir D by_dir changed n k at ≡ build_dir D by_dir leaves n k at)
          (λ k h. build_dir_lem grouped lost n k (below seen h)) (subs_of dir by_dir)
          (All-sort_strings (λ k. member k keys) keys (member_all keys)) in
      bind_same (or_fail no_directory (D.new_directory st)) _ _ _ refl (λ d.
        bind_same
          (link_subs D by_dir changed (build_dir D by_dir changed n) (subs_of dir by_dir) (d, st)
            >>= link_files D by_dir changed (files_in dir by_dir))
          (link_subs D by_dir leaves (build_dir D by_dir leaves n) (subs_of dir by_dir) (d, st)
            >>= link_files D by_dir leaves (files_in dir by_dir))
          _ _
          (bind_same _ _ (link_files D by_dir changed (files_in dir by_dir))
            (link_files D by_dir leaves (files_in dir by_dir))
            (link_subs_lem (build_dir D by_dir changed n) (build_dir D by_dir leaves n)
              (subs_of dir by_dir) visits (d, st))
            (link_files_lem dir apart (files_in dir by_dir) (grouped dir)))
          (λ at. refl))

Visited-cases :
    (by_dir : ByDir) (k : Text)
    → Visited by_dir k
    → (k ≡ []) ⊎ ((dir : Text) × Visited by_dir dir × (member k (keys_below dir by_dir) ≡ true))
Visited-cases by_dir k top = inl refl
Visited-cases by_dir k (below {dir = dir} seen h) = inr (dir, seen, h)

-- A key below a directory is a key, and that directory is its parent.
member-keys_below :
    (k dir : Text) (by_dir : ByDir)
    → member k (keys_below dir by_dir) ≡ true
    → (dir_of k ≡ dir) × (lookup k by_dir ≢ none)
unfolding keys_below lookup
member-keys_below k dir [] h = absurd (ground (arith, h))
member-keys_below k dir ((o, fs) ∷ by_dir) h = elim (Bool-cases (text_eq o k)) [
  | inl same ↦
      let eq = text_eq_sound o k same in
      elim (Bool-cases (text_eq (dir_of o) dir)) [
        | inl parent ↦ (
          subst (λ (x : Text). dir_of x ≡ dir) {x = o} eq (text_eq_sound (dir_of o) dir parent),
          λ missing. ground (arith, same, missing),
        )
        | inr other ↦ (
          (member-keys_below k dir by_dir (ground (arith, h, other))).0,
          λ missing. ground (arith, same, missing),
        )
      ]
  | inr differs ↦
      let (parent, found) = member-keys_below k dir by_dir (ground (arith, h, differs)) in
      (parent, λ missing. found (ground (arith, differs, missing)))
]

lookup-by_dir_of :
    (files : List FileManifest) (dir : Text) (by_dir : ByDir)
    → All (λ f. dir_of f.path ≢ dir) files
    → lookup dir (by_dir_of files by_dir) ≡ lookup dir by_dir
unfolding by_dir_of add_file
lookup-by_dir_of [] dir by_dir none_there = refl
lookup-by_dir_of (f ∷ files) dir by_dir (elsewhere, none_there) =
    lookup-by_dir_of files dir (add_file f by_dir) none_there
    ∙ (elim (Bool-cases (text_eq (dir_of f.path) dir)) [
      | inl same ↦ absurd (elsewhere (text_eq_sound (dir_of f.path) dir same))
      | inr differs ↦ ground (
        arith,
        differs,
        lookup-insert (dir_of f.path) dir (files_in (dir_of f.path) by_dir ++ f ∷ []) by_dir,
      )
    ])

-- A directory is not visited if its parent is not the top and is no key.
not-Visited :
    (by_dir : ByDir) (dir : Text)
    → dir ≢ []
    → dir_of dir ≢ []
    → lookup (dir_of dir) by_dir ≡ none
    → ¬ Visited by_dir dir
not-Visited by_dir dir proper deep missing seen = elim (Visited-cases by_dir dir seen) [
  | inl at_top ↦ proper at_top
  | inr (parent, above, h) ↦
      let (eq, found) = member-keys_below dir parent by_dir h in
      elim (Visited-cases by_dir parent above) [
        | inl at_top ↦ deep (eq ∙ at_top)
        | inr (higher, further, held) ↦
            (member-keys_below parent higher by_dir held).1
              (subst (λ (x : Text). lookup x by_dir ≡ none) {x = dir_of dir} eq missing)
      ]
]

-- A directory without a file directly in it, other than the top, cuts off the directories directly in it:
-- the root that buildDir gives for a list of files does not depend on the leaf of a file in one of them.
pub build_dir_ignores :
    (D : Dags) (files : List FileManifest) (leaves : List (Text × D.Node)) (path : Text)
    (other : D.Node) (n : ℕ) (st : D.Stored)
    → dir_of path ≢ []
    → dir_of (dir_of path) ≢ []
    → All (λ f. dir_of f.path ≢ dir_of (dir_of path)) files
    → build_dir D (by_dir_of files []) (insert path other leaves) n [] st
      ≡ build_dir D (by_dir_of files []) leaves n [] st
unfolding IsGrouped files_in lookup
build_dir_ignores D files leaves path other n st proper deep none_there =
    build_dir_lem D (by_dir_of files []) leaves path other
      (by_dir_of-IsGrouped files [] (λ dir. tt))
      (not-Visited (by_dir_of files []) (dir_of path) proper deep
        (lookup-by_dir_of files (dir_of (dir_of path)) [] none_there))
      n [] top st
