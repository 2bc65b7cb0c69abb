-- ===== src/Hfcache/Write/RefLast.antt =====
-- The ref is the last thing that WriteSnapshot writes.
use hf_ipfs.Prelude.{
  ◌≡◌, refl, ap, subst, inl, inr, false, not, ◌||◌, List, [], ◌∷◌, ◌++◌, some, Text, codes, text_eq,
  text_eq_refl, is_empty, if◌then◌else◌, ok, err, and_next, and_next_lem, arith, All, Bool-cases,
  Option-cases, Result-cases,
}
use hf_ipfs.Prelude.Table.{text_Eq, lookup, lookup-remove}
use hf_ipfs.Mapping.Entries.{FileManifest}
use hf_ipfs.Hfcache.Paths.{Paths, snapshot_dir, ref_path, blob_path, tree_path}
use hf_ipfs.Hfcache.Paths.Parts.{path_dir, rel}
use hf_ipfs.Hfcache.Safety.{safe_rel_path, safe_blob_name}
use hf_ipfs.Hfcache.Tree.{TreeJson, write_tree}
use hf_ipfs.Hfcache.Write.{
  CacheDisk, Os, Outcome, mkdir_all, write_atomic, write_ref, place_link, clear_place, relink_place,
  link_path, link_blob, link_file, link_all, put_tree, write_snapshot,
}
use hf_ipfs.Hfcache.Write.Atomic.{is_ok, write_atomic_lem}

module _ (os : Os) (p : Paths) (commit : Text) (q : Text) where
  Same : CacheDisk → CacheDisk → Type 0
  Same s t = lookup q t.files ≡ lookup q s.files

  module _ (s : CacheDisk) where
    relink_place_lem :
        (link target : Text) (t : CacheDisk)
        → text_eq link q ≡ false
        → Same s t
        → Same s (relink_place os p commit link target t).1
    unfolding relink_place clear_place place_link Same
    relink_place_lem link target t apart same = elim (Option-cases (lookup link t.links)) [
      | inl none_there ↦ elim (Option-cases (lookup link t.files)) [
        | inl free ↦ ground (arith, none_there, free, same)
        | inr (content, plain) ↦
            ground (arith, none_there, plain, same, apart, lookup-remove link q t.files)
      ]
      | inr (existing, linked) ↦ ground (arith, linked, same, apart, lookup-remove link q t.files)
    ]

    link_blob_lem :
        (f : FileManifest) (t : CacheDisk)
        → text_eq (link_path os p commit f) q ≡ false
        → Same s t
        → Same s (link_blob os p commit f t).1
    unfolding link_blob
    link_blob_lem f t apart same = elim (Option-cases (lookup (blob_path p f.blob_name) t.files)) [
      | inl missing ↦ subst (Same s) (ground (arith, missing)) same
      | inr (content, there) ↦
          elim (Option-cases (rel (path_dir (link_path os p commit f)) (blob_path p f.blob_name))) [
            | inl unrelated ↦ subst (Same s) (ground (arith, there, unrelated)) same
            | inr (target, found) ↦
                subst (Same s) (ground (arith, there, found))
                  (relink_place_lem (link_path os p commit f) target t apart same)
          ]
    ]

    link_file_lem :
        (f : FileManifest) (t : CacheDisk)
        → text_eq (link_path os p commit f) q ≡ false
        → Same s t
        → Same s (link_file os p commit f t).1
    unfolding link_file
    link_file_lem f t apart same =
        elim (Bool-cases (not (safe_rel_path f.path) || not (safe_blob_name f.blob_name))) [
          | inl unsafe ↦ subst (Same s) (ground (arith, unsafe)) same
          | inr safe ↦ subst (Same s) (ground (arith, safe)) (
              and_next_lem (Same s) (mkdir_all os (path_dir (link_path os p commit f)) t)
                (link_blob os p commit f) same (λ u k. link_blob_lem f u apart k))
        ]

    link_all_lem :
        (fs : List FileManifest) (t : CacheDisk)
        → All (λ f. text_eq (link_path os p commit f) q ≡ false) fs
        → Same s t
        → Same s (link_all os p commit fs t).1
    unfolding link_all
    link_all_lem [] t apart same = same
    link_all_lem (f ∷ fs) t (here, apart) same =
        and_next_lem (Same s) (link_file os p commit f t) (link_all os p commit fs)
          (link_file_lem f t here same) (λ u k. link_all_lem fs u apart k)

    put_tree_lem :
        (J : TreeJson) (fs : List FileManifest) (t : CacheDisk)
        → text_eq (tree_path p commit) q ≡ false
        → text_eq (os.temp_name (tree_path p commit)) q ≡ false
        → Same s t
        → Same s (put_tree os p commit J fs t).1
    unfolding put_tree Same
    put_tree_lem J fs t apart temp same =
        elim (Result-cases (write_tree J (lookup (tree_path p commit) t.files) fs)) [
          | inr (e, bad) ↦ ground (arith, bad, same)
          | inl (text, encoded) ↦
              ground (
                arith,
                encoded,
                same,
                apart,
                write_atomic_lem os (tree_path p commit) text q t temp,
              )
        ]

    -- The content of the file at q behind the whole: a new one exactly if there was no error.
    Written : Text → Outcome → Type 0
    Written content out =
        lookup q out.1.files ≡ (if is_ok out then some content else lookup q s.files)

    and_next-Written :
        (content : Text) (first : Outcome) (f : CacheDisk → Outcome)
        → Same s first.1
        → ((t : CacheDisk) → Same s t → Written content (f t))
        → Written content (and_next first f)
    unfolding Written is_ok Same
    and_next-Written content (err e, t) f same step = same
    and_next-Written content (ok u, t) f same step = step t same

  write_atomic-Written :
      (ref content : Text) (s u : CacheDisk)
      → ref_path p ref ≡ q
      → text_eq (os.temp_name (ref_path p ref)) q ≡ false
      → Same s u
      → Written s content (write_atomic os (ref_path p ref) content u)
  unfolding Written Same
  write_atomic-Written ref content s u named temp same = ground (
    arith,
    same,
    write_atomic_lem os (ref_path p ref) content q u temp,
    ap (text_eq (ref_path p ref)) named,
    text_eq_refl (ref_path p ref),
  )

  write_ref_lem :
      (ref : Text) (s t : CacheDisk)
      → ref_path p ref ≡ q
      → text_eq (os.temp_name (ref_path p ref)) q ≡ false
      → Same s t
      → Written s (commit ++ codes "\n") (write_ref os p commit ref t)
  unfolding write_ref
  write_ref_lem ref s t named temp same =
      and_next-Written s (commit ++ codes "\n") (mkdir_all os p.refs t)
        (write_atomic os (ref_path p ref) (commit ++ codes "\n")) same
        (λ u k. write_atomic-Written ref (commit ++ codes "\n") s u named temp k)

module _ (os : Os) (p : Paths) (commit : Text) (J : TreeJson) (ref : Text) where
  -- The file of a ref, behind WriteSnapshot of that ref, holds the commit and a newline if no error is
  -- returned, and what it held before if one is, provided that it is none of the links, not the tree
  -- document and not a temporary file.
  pub write_snapshot_ref_last :
      (files : List FileManifest) (s : CacheDisk)
      → is_empty ref ≡ false
      → All (λ f. text_eq (link_path os p commit f) (ref_path p ref) ≡ false) files
      → text_eq (tree_path p commit) (ref_path p ref) ≡ false
      → text_eq (os.temp_name (tree_path p commit)) (ref_path p ref) ≡ false
      → text_eq (os.temp_name (ref_path p ref)) (ref_path p ref) ≡ false
      → lookup (ref_path p ref) (write_snapshot os p commit J files ref s).1.files ≡ (
          if is_ok (write_snapshot os p commit J files ref s)
          then some (commit ++ codes "\n")
          else lookup (ref_path p ref) s.files)
  unfolding write_snapshot Written Same
  write_snapshot_ref_last files s given links tree tree_temp ref_temp =
      let q = ref_path p ref in
      let content = commit ++ codes "\n" in
      let last : (t : CacheDisk)
          → Same os p commit q s t
          → Written os p commit q s content (write_ref os p commit ref t) =
        λ t k. write_ref_lem os p commit q ref s t refl ref_temp k in
      let whole =
        and_next-Written os p commit q s content (mkdir_all os (snapshot_dir p commit) s)
          (λ a. and_next (link_all os p commit files a) (λ b.
            and_next (mkdir_all os p.trees b)
              (λ c. and_next (put_tree os p commit J files c) (write_ref os p commit ref))))
          refl
          (λ a ka.
            and_next-Written os p commit q s content (link_all os p commit files a)
              (λ b.
                and_next (mkdir_all os p.trees b)
                  (λ c. and_next (put_tree os p commit J files c) (write_ref os p commit ref)))
              (link_all_lem os p commit q s files a links ka)
              (λ b kb.
                and_next-Written os p commit q s content (mkdir_all os p.trees b)
                  (λ c. and_next (put_tree os p commit J files c) (write_ref os p commit ref)) kb
                  (λ c kc.
                    and_next-Written os p commit q s content (put_tree os p commit J files c)
                      (write_ref os p commit ref)
                      (put_tree_lem os p commit q s J files c tree tree_temp kc) last))) in
      ground (arith, given, whole)
