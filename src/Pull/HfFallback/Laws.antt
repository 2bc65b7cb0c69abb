-- ===== src/Pull/HfFallback/Laws.antt =====
-- What the fallback of internal/pull/hffallback.go lets through: names, sizes and contents.
use hf_ipfs.Prelude.{
  ℕ, ◌≡◌, ◌≢◌, ◌⊎◌, inl, inr, refl, sym, subst, ◌∙◌, Bool, true, false, List, [], ◌∷◌, ◌++◌,
  append-nil, Option, none, some, Text, text_eq_iff, length, map, ap, is_empty, Result, ok, err,
  All, All-append, Bool-cases, Option-cases, >>=-eq-ok, arith,
}
use hf_ipfs.Prelude.Int64.{ℤ, pos, add64, int_eq_iff, is_negative}
use hf_ipfs.Prelude.Table.{
  text_Eq, lookup, insert, lookup-moved, lookup-insert, lookup-remove, lookup-insert_self,
}
use hf_ipfs.Mapping.Entries.{FileManifest}
use hf_ipfs.Hfcache.Safety.{safe_blob_name, safe_rel_path}
use hf_ipfs.Pull.HfFallback.{
  Sibling, sibling_manifest, manifests_from, manifest_from_revision, has_negative_lfs, with_lfs,
  Hub, Response, Disk, DownloadError, check_digest, check_download, discard, place, has_size,
  fetch_blob, git_blob_id, download, tmp_not_created,
}

-- The names of a manifest stay inside the cache, and its size can be counted.
pub record IsWritable (f : FileManifest) : Type 0 where
  pub has_safe_blob : safe_blob_name f.blob_name ≡ true
  pub has_safe_path : safe_rel_path f.path ≡ true
  pub has_size_from_0 : is_negative f.size ≡ false

-- The sum of the sizes in the arithmetic of the program.
unfoldable pub sum_from : ℤ → List FileManifest → ℤ
sum_from total [] = total
sum_from total (f ∷ fs) = sum_from (add64 total f.size) fs

sum_from-append :
    (total : ℤ) (fs : List FileManifest) (f : FileManifest)
    → sum_from total (fs ++ f ∷ []) ≡ add64 (sum_from total fs) f.size
unfolding sum_from
sum_from-append total [] f = refl
sum_from-append total (g ∷ fs) f = sum_from-append (add64 total g.size) fs f

map-snoc :
    {A B : Type 0} (g : A → B) (xs : List A) (x : A) (ys : List B)
    → map g (xs ++ x ∷ []) ++ ys ≡ map g xs ++ g x ∷ ys
map-snoc g [] x ys = refl
map-snoc g (w ∷ xs) x ys = ap (◌∷◌ (g w)) (map-snoc g xs x ys)

sibling_sound :
    (xets : List (Text × Text)) (s : Sibling) (f : FileManifest)
    → sibling_manifest xets s ≡ ok f
    → IsWritable f × (f.path ≡ s.rfilename)
unfolding sibling_manifest with_lfs has_negative_lfs
sibling_sound xets s f h = elim (Option-cases s.lfs_info) [
  | inl plain ↦ (
    record {
      has_safe_blob = ground (arith, plain);
      has_safe_path = ground (arith, plain);
      has_size_from_0 = ground (arith, plain);
    },
    ground (arith, plain),
  )
  | inr (i, lfs) ↦ (
    record {
      has_safe_blob = ground (arith, lfs);
      has_safe_path = ground (arith, lfs);
      has_size_from_0 = ground (arith, lfs);
    },
    ground (arith, lfs),
  )
]

is_empty_sound : (s : Text) → is_empty s ≡ true → s ≡ []
unfolding is_empty
is_empty_sound [] h = refl
is_empty_sound (c ∷ s) h = ground arith

manifests_from_sound :
    (xets : List (Text × Text)) (siblings : List Sibling) (files fs : List FileManifest)
    (total n : ℤ)
    → All IsWritable files
    → total ≡ sum_from (pos 0) files
    → manifests_from xets siblings files total ≡ ok (fs, n)
    → All IsWritable fs
      × (n ≡ sum_from (pos 0) fs)
      × (map (λ f. f.path) fs ≡ map (λ f. f.path) files ++ map (λ s. s.rfilename) siblings)
unfolding manifests_from
manifests_from_sound xets [] files fs total n writable counted h =
    let same : files ≡ fs = ground arith in
    (
      subst (All IsWritable) same writable,
      subst (λ gs. n ≡ sum_from (pos 0) gs) same (ground (arith, counted)),
      sym (append-nil (map (λ f. f.path) files) ∙ ap (map (λ f. f.path)) same),
    )
manifests_from_sound xets (s ∷ siblings) files fs total n writable counted h =
    let (f, made, rest) =
      >>=-eq-ok (sibling_manifest xets s)
        (λ f. manifests_from xets siblings (files ++ f ∷ []) (add64 total f.size)) h in
    let (writable', counted', paths) =
      manifests_from_sound xets siblings (files ++ f ∷ []) fs (add64 total f.size) n
        (All-append IsWritable files (f ∷ []) writable ((sibling_sound xets s f made).0, tt))
        (ap (λ t. add64 t f.size) counted ∙ sym (sum_from-append (pos 0) files f)) rest in
    (
      writable',
      counted',
      paths
          ∙ (map-snoc (λ g. g.path) files f (map (λ t. t.rfilename) siblings)
              ∙ ap (λ t. map (λ g. g.path) files ++ t ∷ map (λ t. t.rfilename) siblings)
                  (sibling_sound xets s f made).1),
    )

-- A manifest made from the file list of the Hub has one entry for each file, in order and under its
-- path; every entry has a safe blob name, a safe path and a size that is not negative, and the total
-- is the sum of the sizes.
pub manifest_from_revision_sound :
    (siblings : List Sibling) (xets : List (Text × Text)) (fs : List FileManifest) (total : ℤ)
    → manifest_from_revision siblings xets ≡ ok (fs, total)
    → All IsWritable fs
      × (total ≡ sum_from (pos 0) fs)
      × (map (λ f. f.path) fs ≡ map (λ s. s.rfilename) siblings)
unfolding manifest_from_revision sum_from
manifest_from_revision_sound siblings xets fs total h =
    manifests_from_sound xets siblings [] fs (pos 0) total tt refl h

module _ (hub : Hub) where
  digest_sound :
      (f f' : FileManifest) (content : Text)
      → check_digest hub f content ≡ ok f'
      → (hub.hash256 content ≡ f'.sha256)
        × ((f.sha256 ≡ f'.sha256)
            ⊎ ((f.sha256 ≡ []) × (git_blob_id hub f.size content ≡ f.blob_name)))
  unfolding check_digest
  digest_sound f f' content h = elim (Bool-cases (is_empty f.sha256)) [
    | inl absent ↦ (
      ground (arith, absent),
      inr (
        is_empty_sound f.sha256 absent,
        ground (arith, absent, text_eq_iff (git_blob_id hub f.size content) f.blob_name),
      ),
    )
    | inr present ↦ (
      ground (arith, present, text_eq_iff (hub.hash256 content) f.sha256),
      inl (ground (arith, present)),
    )
  ]

  download_sound :
      (f f' : FileManifest) (content : Text) (complete : Bool)
      → check_download hub f content complete ≡ ok f'
      → (pos (length content) ≡ f.size) × (check_digest hub f content ≡ ok f')
  unfolding check_download
  download_sound f f' content complete h =
      (ground (arith, int_eq_iff (pos (length content)) f.size), ground arith)

  -- The blob that a successful download leaves, by what was checked of it.
  pub IsDownloaded : FileManifest → FileManifest → Text → Type 0
  IsDownloaded f f' content =
      (pos (length content) ≡ f.size)
      × (hub.hash256 content ≡ f'.sha256)
      × ((f.sha256 ≡ f'.sha256)
          ⊎ ((f.sha256 ≡ []) × (git_blob_id hub f.size content ≡ f.blob_name)))

  passed_IsDownloaded :
      (f f' : FileManifest) (content : Text) (complete : Bool)
      → check_download hub f content complete ≡ ok f'
      → IsDownloaded f f' content
  unfolding IsDownloaded
  passed_IsDownloaded f f' content complete h =
      let (sized, checked) = download_sound f f' content complete h in
      let (hashed, named) = digest_sound f f' content checked in (sized, hashed, named)

  has_size_sound :
      (f : FileManifest) (o : Option Text)
      → has_size hub f o ≡ true
      → (content : Text) × (o ≡ some content) × (pos (length content) ≡ f.size)
  unfolding has_size
  has_size_sound f none h = absurd (ground arith)
  has_size_sound f (some content) h =
      (content, refl, ground (arith, int_eq_iff (pos (length content)) f.size))

  placed :
      (f : FileManifest) (blob tmp content : Text) (n : ℕ) (r : Result DownloadError FileManifest)
      (d : Disk)
      → blob ≢ tmp
      → lookup tmp d.on_disk ≡ some content
      → (place hub blob tmp n r d).0 ≡ ok f
      → (r ≡ ok f) × (lookup blob (place hub blob tmp n r d).1.on_disk ≡ some content)
  unfolding place
  placed f blob tmp content n (err e) d apart there h = absurd (ground arith)
  placed f blob tmp content n (ok g) d apart there h = (
    ground arith,
    ground (arith, lookup-moved tmp blob content d.on_disk there, text_eq_iff tmp blob),
  )

  lookup-discard :
      (blob tmp : Text) (d : Disk)
      → blob ≢ tmp
      → (lookup blob (discard hub tmp d).on_disk ≡ lookup blob d.on_disk)
        × ((lookup tmp (discard hub tmp d).on_disk ≡ none) ⊎ (hub.can_remove ≡ false))
  unfolding discard
  lookup-discard blob tmp d apart = elim (Bool-cases hub.can_remove) [
    | inr stays ↦ (ground (arith, stays), inr stays)
    | inl done ↦ (
      ground (arith, done, lookup-remove tmp blob d.on_disk, text_eq_iff tmp blob),
      inl (ground (arith, done, lookup-remove tmp tmp d.on_disk, text_eq_iff tmp tmp)),
    )
  ]

  place_failed :
      (blob tmp : Text) (n : ℕ) (r : Result DownloadError FileManifest) (d : Disk)
      (e : DownloadError)
      → (place hub blob tmp n r d).0 ≡ err e
      → (place hub blob tmp n r d).1 ≡ discard hub tmp d
  unfolding place
  place_failed blob tmp n (err e') d e h = refl
  place_failed blob tmp n (ok f) d e h = ground arith

  fetch_blob_succeeded :
      (f : FileManifest) (blob tmp : Text) (r : Option Response) (d : Disk)
      → blob ≢ tmp
      → (f' : FileManifest) → (fetch_blob hub f blob tmp r d).0 ≡ ok f'
      → (content : Text) × (lookup blob (fetch_blob hub f blob tmp r d).1.on_disk ≡ some content)
        × (((has_size hub f (lookup blob d.on_disk) ≡ true) × (pos (length content) ≡ f.size))
            ⊎ IsDownloaded f f' content)
  unfolding fetch_blob
  fetch_blob_succeeded f blob tmp r d apart f' h =
      elim (Bool-cases (has_size hub f (lookup blob d.on_disk))) [
        | inl present ↦
            let (content, found, sized) = has_size_sound f (lookup blob d.on_disk) present in
            (content, ground (arith, present, found), inl (present, sized))
        | inr missing ↦ elim (Bool-cases hub.can_create) [
          | inr stays ↦ absurd (ground (arith, missing, stays))
          | inl created ↦
              let got = download r f.size in
              let (passed, found) =
                placed f' blob tmp got.0 (length got.0) (check_download hub f got.0 got.1)
                  (record d { on_disk = insert tmp got.0 d.on_disk }) apart
                  (lookup-insert_self tmp got.0 d.on_disk) (ground (arith, missing, created)) in
              (
                got.0,
                ground (arith, missing, created, found),
                inr (passed_IsDownloaded f f' got.0 got.1 passed),
              )
        ]
      ]

  fetch_blob_failed :
      (f : FileManifest) (blob tmp : Text) (r : Option Response) (d : Disk)
      → blob ≢ tmp
      → (e : DownloadError) → (fetch_blob hub f blob tmp r d).0 ≡ err e
      → (lookup blob (fetch_blob hub f blob tmp r d).1.on_disk ≡ lookup blob d.on_disk)
        × ((lookup tmp (fetch_blob hub f blob tmp r d).1.on_disk ≡ none)
            ⊎ ((e ≡ tmp_not_created) ⊎ (hub.can_remove ≡ false)))
  unfolding fetch_blob
  fetch_blob_failed f blob tmp r d apart e h =
      elim (Bool-cases (has_size hub f (lookup blob d.on_disk))) [
        | inl present ↦ absurd (ground (arith, present))
        | inr missing ↦ elim (Bool-cases hub.can_create) [
          | inr stays ↦ (ground (arith, missing, stays), inr (inl (ground (arith, missing, stays))))
          | inl created ↦
              let got = download r f.size in
              let with_tmp : Disk = record d { on_disk = insert tmp got.0 d.on_disk } in
              let left : (fetch_blob hub f blob tmp r d).1 ≡ discard hub tmp with_tmp = ground (
                arith,
                missing,
                created,
                h,
                place_failed blob tmp (length got.0) (check_download hub f got.0 got.1) with_tmp e,
              ) in
              let (same, gone) = lookup-discard blob tmp with_tmp apart in
              (
                ap (λ (x : Disk). lookup blob x.on_disk) left
                    ∙ same
                    ∙ ground (arith, lookup-insert tmp blob got.0 d.on_disk, text_eq_iff tmp blob),
                elim gone [
                  | inl absent ↦ inl (ap (λ (x : Disk). lookup tmp x.on_disk) left ∙ absent)
                  | inr stays ↦ inr (inr stays)
                ],
              )
        ]
      ]

  -- A download that reports success leaves a blob of the size of its manifest. Where no file of that
  -- size was there before, the manifest that it returns has the SHA-256 of the content, and this is
  -- the digest of the Hub, or for a file without one, the blob has the name that git gives it. A
  -- download that fails leaves the blob as it was, and no temporary file that it created and could remove.
  pub fetch_blob_verified :
      (f : FileManifest) (blob tmp : Text) (r : Option Response) (d : Disk)
      → blob ≢ tmp
      → ((f' : FileManifest)
          → (fetch_blob hub f blob tmp r d).0 ≡ ok f'
          → (content : Text) × (lookup blob (fetch_blob hub f blob tmp r d).1.on_disk
              ≡ some content)
            × (((has_size hub f (lookup blob d.on_disk) ≡ true) × (pos (length content) ≡ f.size))
                ⊎ IsDownloaded f f' content))
        × ((e : DownloadError)
            → (fetch_blob hub f blob tmp r d).0 ≡ err e
            → (lookup blob (fetch_blob hub f blob tmp r d).1.on_disk ≡ lookup blob d.on_disk)
              × ((lookup tmp (fetch_blob hub f blob tmp r d).1.on_disk ≡ none)
                  ⊎ ((e ≡ tmp_not_created) ⊎ (hub.can_remove ≡ false))))
  fetch_blob_verified f blob tmp r d apart =
      (fetch_blob_succeeded f blob tmp r d apart, fetch_blob_failed f blob tmp r d apart)
