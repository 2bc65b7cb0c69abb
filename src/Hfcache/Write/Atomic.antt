-- ===== src/Hfcache/Write/Atomic.antt =====
-- What writeAtomic does to the files on disk.
use hf_ipfs.Prelude.{
  ◌≡◌, inl, inr, Bool, true, false, ◌&&◌, some, Text, text_eq, if◌then◌else◌, ok, err, arith,
  Bool-cases,
}
use hf_ipfs.Prelude.Table.{text_Eq, lookup, insert, remove, lookup-insert, lookup-remove}
use hf_ipfs.Hfcache.Write.{CacheDisk, Os, Outcome, write_temp, write_atomic}

unfoldable pub is_ok : Outcome → Bool
is_ok (ok u, s) = true
is_ok (err e, s) = false

module _ (os : Os) where
  drop_lem :
      (name q content : Text) (s : CacheDisk)
      → text_eq name q ≡ false
      → (lookup q (remove name (insert name content s.files)) ≡ lookup q s.files)
        × (lookup q (insert name content s.files) ≡ lookup q s.files)
  drop_lem name q content s apart = (
    ground (
      arith,
      apart,
      lookup-remove name q (insert name content s.files),
      lookup-insert name q content s.files,
    ),
    ground (arith, apart, lookup-insert name q content s.files),
  )

  write_temp_lem :
      (name target content q : Text) (s : CacheDisk)
      → text_eq name q ≡ false
      → lookup q (write_temp os name target content s).1.files ≡ (
          if is_ok (write_temp os name target content s) && text_eq target q
          then some content
          else lookup q s.files)
  unfolding write_temp is_ok
  write_temp_lem name target content q s apart =
      let (dropped, left) = drop_lem name q content s apart in
      ground (
        arith,
        dropped,
        left,
        lookup-insert target q content (remove name (insert name content s.files)),
      )

  -- Every file but the temporary one has, behind writeAtomic, the content that it had before, except that
  -- the target has the new content if no error is returned.
  pub write_atomic_lem :
      (target content q : Text) (s : CacheDisk)
      → text_eq (os.temp_name target) q ≡ false
      → lookup q (write_atomic os target content s).1.files ≡ (
          if is_ok (write_atomic os target content s) && text_eq target q
          then some content
          else lookup q s.files)
  unfolding write_atomic is_ok
  write_atomic_lem target content q s apart = elim (Bool-cases (os.create_succeeds target)) [
    | inl created ↦
        ground (arith, created, write_temp_lem (os.temp_name target) target content q s apart)
    | inr failed ↦ ground (arith, failed)
  ]
