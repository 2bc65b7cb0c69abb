-- ===== src/Ingest/Build/Total.antt =====
-- The directories of an ingest are built with the fuel that they get.
use hf_ipfs.Prelude.{
  ℕ, zero, suc, ◌+◌, ◌≤◌, ◌<◌, ◌≡◌, ◌≢◌, sym, subst, inl, inr, Bool, true, false, not, ◌&&◌, List,
  [], ◌∷◌, Option, none, some, Text, text_eq, length, is_empty, ltb, leb, All, All-same_count,
  Result, ok, err, ◌>>=◌, arith, Bool-cases, text_eq_sound,
}
use hf_ipfs.Prelude.Table.{text_Eq, lookup, insert}
use hf_ipfs.Prelude.Int64.{ℤ, pos, add64}
use hf_ipfs.Mapping.Entries.{FileManifest}
use hf_ipfs.Hfcache.Sorting.{sort_strings}
use hf_ipfs.Hfcache.Sorting.Laws.{sort_strings_lem}
use hf_ipfs.Hfcache.Paths.Parts.{path_base}
use hf_ipfs.Ingest.Dirs.{ByDir, dir_of, add_file, files_in, keys_below, subs_of}
use hf_ipfs.Ingest.Dirs.Depth.{length-dir_of}
use hf_ipfs.Ingest.Build.{
  BuildError, out_of_fuel, missing_leaf, link_failed, not_built, not_added, no_directory, Dags,
  or_fail, Built, add_file_nocopy, link_subs, link_files, store_directory, build_dir, longest,
  add_files, build_root, build_tree,
}

pub All-sort_strings :
    (p : Text → Bool) (l : List Text)
    → All (λ k. p k ≡ true) l
    → All (λ k. p k ≡ true) (sort_strings l)
All-sort_strings p l = All-same_count p l (sort_strings l) (sort_strings_lem l).1

-- A result that is not for want of fuel.
abbrev HasFuel {ℓ} : {A : Type ℓ} → Result BuildError A → Type ℓ
HasFuel r = r ≢ err out_of_fuel

bind_lem {ℓ κ} :
    {A : Type ℓ} {B : Type κ} (m : Result BuildError A) (f : A → Result BuildError B)
    → HasFuel m
    → ((a : A) → HasFuel (f a))
    → HasFuel (m >>= f)
bind_lem (err e) f first step h = first (ground (arith, h))
bind_lem (ok a) f first step h = step a h

or_fail_lem {ℓ} :
    {A : Type ℓ} (e : BuildError) (o : Option A) → e ≢ out_of_fuel → HasFuel (or_fail e o)
or_fail_lem e none other h = other (ground (arith, h))
or_fail_lem e (some a) other h = absurd (ground (arith, h))

-- A directory below another has a longer path, and no path is longer than the longest.
is_deeper : ℕ → ℕ → Text → Bool
is_deeper least most k = ltb least (length k) && leb (length k) most

deeper_lem :
    (n least most : ℕ) (k : Text)
    → most < suc n + least
    → is_deeper least most k ≡ true
    → (most < n + length k) × (length k ≤ most)
unfolding is_deeper
deeper_lem n least most k enough h = (ground (arith, h, enough), ground (arith, h))

module _ (D : Dags) where
  keys_below_lem :
      (dir : Text) (most : ℕ) (by_dir : ByDir)
      → longest D by_dir ≤ most
      → All (λ k. is_deeper (length dir) most k ≡ true) (keys_below dir by_dir)
  unfolding keys_below longest is_deeper
  keys_below_lem dir most [] h = tt
  keys_below_lem dir most ((k, fs) ∷ by_dir) h =
      let rest = keys_below_lem dir most by_dir (ground (arith, h)) in
      elim (Bool-cases (not (text_eq k dir) && text_eq (dir_of k) dir)) [
        | inr other ↦
            subst (All (λ x. is_deeper (length dir) most x ≡ true)) (ground (arith, other)) rest
        | inl below ↦
            subst (All (λ x. is_deeper (length dir) most x ≡ true)) {x = k ∷ keys_below dir by_dir}
              (ground (arith, below)) (ground (arith, h, deeper k below), rest)
      ]
    where
      deeper :
          (k : Text)
          → (not (text_eq k dir) && text_eq (dir_of k) dir) ≡ true
          → length dir < length k
      deeper k below =
          let same = text_eq_sound (dir_of k) dir (ground (arith, below)) in
          subst (λ d. length d < length k) same
            (length-dir_of k (subst (λ d. text_eq k d ≡ false) (sym same) (ground (arith, below))))

  module _ (by_dir : ByDir) (leaves : List (Text × D.Node)) where
    link_files_lem :
        (fs : List FileManifest) (at : D.Directory × D.Stored)
        → HasFuel (link_files D by_dir leaves fs at)
    unfolding link_files
    link_files_lem [] at = λ h. absurd (ground (arith, h))
    link_files_lem (f ∷ fs) (d, st) =
        bind_lem (or_fail missing_leaf (lookup f.path leaves)) _
          (or_fail_lem missing_leaf (lookup f.path leaves) (λ h. ground (arith, h)))
          (λ leaf.
            bind_lem (or_fail link_failed (D.add_child st d (path_base f.path) leaf))
              (link_files D by_dir leaves fs)
              (or_fail_lem link_failed (D.add_child st d (path_base f.path) leaf)
                (λ h. ground (arith, h)))
              (link_files_lem fs))

    store_lem : (at : D.Directory × D.Stored) → HasFuel (store_directory D at)
    unfolding store_directory
    store_lem (d, st) =
        bind_lem (or_fail not_built (D.get_node d)) _
          (or_fail_lem not_built (D.get_node d) (λ h. ground (arith, h)))
          (λ root.
            bind_lem (or_fail not_added (D.add st root)) _
              (or_fail_lem not_added (D.add st root) (λ h. ground (arith, h)))
              (λ after h. absurd (ground (arith, h))))

    link_subs_lem :
        (visit : Text → D.Stored → Built D) (p : Text → Bool)
        → ((k : Text) → p k ≡ true → (st : D.Stored) → HasFuel (visit k st))
        → (subs : List Text) → All (λ k. p k ≡ true) subs
        → (at : D.Directory × D.Stored) → HasFuel (link_subs D by_dir leaves visit subs at)
    unfolding link_subs
    link_subs_lem visit p each [] all at = λ h. absurd (ground (arith, h))
    link_subs_lem visit p each (sub ∷ subs) (here, all) (d, st) =
        bind_lem (visit sub st) _ (each sub here st) (λ (child, after).
          bind_lem (or_fail link_failed (D.add_child after d (path_base sub) child))
            (link_subs D by_dir leaves visit subs)
            (or_fail_lem link_failed (D.add_child after d (path_base sub) child)
              (λ h. ground (arith, h)))
            (link_subs_lem visit p each subs all))

    build_dir_lem :
        (n : ℕ) (dir : Text) (st : D.Stored)
        → longest D by_dir < n + length dir
        → length dir ≤ longest D by_dir
        → HasFuel (build_dir D by_dir leaves n dir st)
    unfolding build_dir subs_of
    build_dir_lem zero dir st enough top = absurd (omega arith)
    build_dir_lem (suc n) dir st enough top =
        let subs = subs_of dir by_dir in
        bind_lem (or_fail no_directory (D.new_directory st)) _
          (or_fail_lem no_directory (D.new_directory st) (λ h. ground (arith, h)))
          (λ d.
            bind_lem
              (link_subs D by_dir leaves (build_dir D by_dir leaves n) subs (d, st)
                >>= link_files D by_dir leaves (files_in dir by_dir))
              (store_directory D)
              (bind_lem (link_subs D by_dir leaves (build_dir D by_dir leaves n) subs (d, st))
                (link_files D by_dir leaves (files_in dir by_dir))
                (link_subs_lem (build_dir D by_dir leaves n)
                  (is_deeper (length dir) (longest D by_dir))
                  (λ k h below.
                    let (more, bound) = deeper_lem n (length dir) (longest D by_dir) k enough h in
                    build_dir_lem n k below more bound)
                  subs
                  (All-sort_strings (is_deeper (length dir) (longest D by_dir))
                    (keys_below dir by_dir)
                    (keys_below_lem dir (longest D by_dir) by_dir (omega arith)))
                  (d, st))
                (link_files_lem (files_in dir by_dir)))
              store_lem)

  add_files_lem :
      (chunk : ℕ) (fs : List FileManifest) (at : List (Text × D.Node) × ByDir × ℤ × D.Stored)
      → HasFuel (add_files D chunk fs at)
  unfolding add_files add_file_nocopy
  add_files_lem chunk [] at = λ h. absurd (ground (arith, h))
  add_files_lem chunk (f ∷ fs) (leaves, by_dir, chunks, st) =
      bind_lem (add_file_nocopy D chunk st f) _
        (elim (Bool-cases (is_empty f.src_path)) [
          | inl none_given ↦ λ h. absurd (ground (arith, none_given, h))
          | inr given ↦ elim (Bool-cases (D.opens f.src_path)) [
            | inr closed ↦ λ h. absurd (ground (arith, given, closed, h))
            | inl opened ↦ λ h. absurd (ground (arith, given, opened, h))
          ]
        ])
        (λ (n, leaf, after).
          add_files_lem chunk fs
            (insert f.path leaf leaves, add_file f by_dir, add64 chunks n, after))

  -- buildTree never runs out of the fuel for its directories.
  pub build_tree_total :
      (chunk : ℕ) (files : List FileManifest) (st : D.Stored)
      → build_tree D chunk files st ≢ err out_of_fuel
  unfolding build_tree build_root
  build_tree_total chunk files st =
      bind_lem (add_files D chunk files ([], [], pos 0, st)) (build_root D)
        (add_files_lem chunk files ([], [], pos 0, st))
        (λ (leaves, by_dir, chunks, after).
          bind_lem (build_dir D by_dir leaves (suc (longest D by_dir)) [] after) _
            (build_dir_lem by_dir leaves (suc (longest D by_dir)) [] after (ground arith)
              (omega arith))
            (λ found h. absurd (ground (arith, h))))
