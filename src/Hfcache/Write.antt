-- ===== src/Hfcache/Write.antt =====
-- writeAtomic, WriteRef and WriteSnapshot of internal/hfcache/cache.go, and what WriteTree of
-- internal/hfcache/tree.go does on disk.
--
-- The disk is the table of the files and the one of the symbolic links. Whether a call of package os
-- succeeds is a parameter, and so is the name that CreateTemp picks.
pub mod Atomic
pub mod RefLast
use hf_ipfs.Prelude.{
  Bool, true, false, not, ◌&&◌, ◌||◌, List, [], ◌∷◌, ◌++◌, Option, none, some, Text, codes, text_eq,
  is_empty, if◌then◌else◌, Result, ok, err, and_next,
}
use hf_ipfs.Prelude.Table.{text_Eq, lookup, insert, remove}
use hf_ipfs.Mapping.Entries.{FileManifest}
use hf_ipfs.Hfcache.Paths.{Paths, snapshot_dir, ref_path, blob_path, tree_path, path_join}
use hf_ipfs.Hfcache.Paths.Parts.{path_dir, rel}
use hf_ipfs.Hfcache.Safety.{safe_rel_path, safe_blob_name}
use hf_ipfs.Hfcache.Tree.{TreeJson, write_tree}

pub data WriteError : Type 0 where
  mkdir_failed create_failed write_failed chmod_failed close_failed rename_failed unsafe_name
        no_blob no_rel not_removed not_linked not_encoded :
      WriteError

pub record CacheDisk : Type 0 where
  pub files : List (Text × Text)
  pub links : List (Text × Text)

pub record Os : Type 0 where
  pub temp_name : Text → Text
  pub mkdir_succeeds : Text → Bool
  pub create_succeeds : Text → Bool
  pub write_succeeds : Text → Bool
  pub chmod_succeeds : Text → Bool
  pub close_succeeds : Text → Bool
  pub rename_succeeds : Text → Bool
  pub remove_succeeds : Text → Bool
  pub symlink_succeeds : Text → Bool

abbrev pub Outcome : Type 0
Outcome = Result WriteError (Unit {0}) × CacheDisk

module _ (os : Os) where
  -- os.MkdirAll; directories are not in the tables.
  abbrev pub mkdir_all : Text → CacheDisk → Outcome
  mkdir_all dir s = (if os.mkdir_succeeds dir then ok tt else err mkdir_failed, s)

  -- The removal of the temporary file, which a failure leaves behind.
  abbrev pub drop_temp : WriteError → Text → CacheDisk → Outcome
  drop_temp e name s =
      (err e, if os.remove_succeeds name then record s { files = remove name s.files } else s)

  -- writeAtomic, behind CreateTemp; what a failed Write leaves in the temporary file is taken to be all of it.
  unfoldable pub write_temp : Text → Text → Text → CacheDisk → Outcome
  write_temp name target data_written s =
      let temp : CacheDisk = record s { files = insert name data_written s.files } in
      if not (os.write_succeeds name)
      then drop_temp write_failed name temp
      else if not (os.chmod_succeeds name)
      then drop_temp chmod_failed name temp
      else if not (os.close_succeeds name)
      then drop_temp close_failed name temp
      else if os.rename_succeeds target
      then (
        ok tt,
        record s {
          files = insert target data_written (remove name temp.files);
          links = remove target s.links;
        },
      )
      else (err rename_failed, temp)

  -- writeAtomic
  unfoldable pub write_atomic : Text → Text → CacheDisk → Outcome
  write_atomic target data_written s =
      if os.create_succeeds target
      then write_temp (os.temp_name target) target data_written s
      else (err create_failed, s)

  module _ (p : Paths) (commit : Text) where
    -- WriteRef
    unfoldable pub write_ref : Text → CacheDisk → Outcome
    write_ref ref s =
        and_next (mkdir_all p.refs s) (write_atomic (ref_path p ref) (commit ++ codes "\n"))

    -- The replacement of what stands at the place of a link.
    unfoldable pub place_link : Text → Text → CacheDisk → Outcome
    place_link link target s =
        if os.symlink_succeeds link
        then (ok tt, record s { links = insert link target s.links })
        else (err not_linked, s)

    unfoldable pub clear_place : Text → CacheDisk → Outcome
    clear_place link s =
        if os.remove_succeeds link
        then (ok tt, record s { files = remove link s.files; links = remove link s.links })
        else (err not_removed, s)

    unfoldable pub relink_place : Text → Text → CacheDisk → Outcome
    relink_place link target s = elim (lookup link s.links) [
      | some existing ↦
          if text_eq existing target
          then (ok tt, s)
          else and_next (clear_place link s) (place_link link target)
      | none ↦ elim (lookup link s.files) [
        | some content ↦ and_next (clear_place link s) (place_link link target)
        | none ↦ place_link link target s
      ]
    ]

    abbrev pub link_path : FileManifest → Text
    link_path f = path_join (snapshot_dir p commit ∷ f.path ∷ [])

    -- The round of the loop behind the creation of the directory of the link.
    unfoldable pub link_blob : FileManifest → CacheDisk → Outcome
    link_blob f s = elim (lookup (blob_path p f.blob_name) s.files) [
      | none ↦ (err no_blob, s)
      | some content ↦ elim (rel (path_dir (link_path f)) (blob_path p f.blob_name)) [
        | none ↦ (err no_rel, s)
        | some target ↦ relink_place (link_path f) target s
      ]
    ]

    -- One round of the loop of WriteSnapshot.
    unfoldable pub link_file : FileManifest → CacheDisk → Outcome
    link_file f s =
        if not (safe_rel_path f.path) || not (safe_blob_name f.blob_name)
        then (err unsafe_name, s)
        else and_next (mkdir_all (path_dir (link_path f)) s) (link_blob f)

    unfoldable pub link_all : List FileManifest → CacheDisk → Outcome
    link_all [] s = (ok tt, s)
    link_all (f ∷ fs) s = and_next (link_file f s) (link_all fs)

    -- WriteTree, with the directory and the file that it writes
    unfoldable pub put_tree : TreeJson → List FileManifest → CacheDisk → Outcome
    put_tree J files s = elim (write_tree J (lookup (tree_path p commit) s.files) files) [
      | err e ↦ (err not_encoded, s)
      | ok text ↦ write_atomic (tree_path p commit) text s
    ]

    -- WriteSnapshot
    unfoldable pub write_snapshot : TreeJson → List FileManifest → Text → CacheDisk → Outcome
    write_snapshot J files ref s =
        let name = if is_empty ref then codes "main" else ref in
        and_next (mkdir_all (snapshot_dir p commit) s) (λ a. and_next (link_all files a) (λ b.
          and_next (mkdir_all p.trees b) (λ c. and_next (put_tree J files c) (write_ref name))))
