-- ===== src/Pull/Transfer/Rollback.antt =====
-- What a transfer that fails leaves behind, and that the rounds of its loop never run out.
use hf_ipfs.Prelude.{
  ◌≡◌, ◌≢◌, ◌⊎◌, refl, ap, subst, Bool, false, ◌||◌, ◌&&◌, ◌∙◌, List, [], ◌∷◌, ◌++◌, Option, none,
  some, Text, text_eq, text_eq_iff, length, is_empty, if◌then◌else◌, Result, ok, err, arith,
  Option-cases, Bool-cases, inl, inr,
}
use hf_ipfs.Prelude.Int64.{pos, int_eq, add64}
use hf_ipfs.Prelude.Table.{text_Eq, lookup, lookup-insert, lookup-remove}
use hf_ipfs.Cids.{CidLib}
use hf_ipfs.Mapping.Entries.{FileManifest}
use hf_ipfs.Pull.Leaves.{WalkError}
use hf_ipfs.Pull.Transfer.{
  Filestore, FilestoreLaws, Ref, Env, Sink, Loop, TransferError, part_path, is_cached, finish,
  end_of_loop, batches, chunk, appended, chunked_file, with_leaves, start, register_ref,
  delete_refs, reconstruct_file, rollback, chmod_failed,
}
use hf_ipfs.Pull.Transfer.Verified.{part_path-ne}
use hf_ipfs.Pull.Transfer.Preserved.{Preserved, batches-Preserved}

module _ (L : CidLib) (F : Filestore) (laws : FilestoreLaws F) (env : Env L.Cid) where
  abbrev member : Text → List L.Cid → Bool
  member d [] = false
  member d (c ∷ cs) = text_eq (L.hash c) d || member d cs

  member-append :
      (d : Text) (c : L.Cid) (cs : List L.Cid)
      → member d (cs ++ c ∷ []) ≡ (member d cs || text_eq (L.hash c) d)
  member-append d c [] = ground arith
  member-append d c (b ∷ cs) = ground (arith, member-append d c cs)

  -- DeleteBlock of a list of blocks takes the references of those for which it succeeds, and no others.
  get-delete_refs :
      (d : Text) (cs : List L.Cid) (r : F.Refs)
      → F.get (delete_refs L F env cs r) d
        ≡ (if member d cs && env.delete_succeeds d then none else F.get r d)
  unfolding delete_refs
  get-delete_refs d [] r = refl
  get-delete_refs d (c ∷ cs) r = ground (
    arith,
    get-delete_refs d cs (if env.delete_succeeds (L.hash c) then F.delete r (L.hash c) else r),
    laws.get-delete r (L.hash c) d,
    text_eq_iff (L.hash c) d,
    ap (env.delete_succeeds) {x = L.hash c} {y = d},
  )

  module _ (blob tmp : Text) (apart : text_eq tmp blob ≡ false) (s : Sink L F) where
    -- The loop has touched no file but the part file, and no reference but the registered ones.
    record IsConfined (l : Loop L F) : Type 0 where
      same_blob : lookup blob l.sink.files ≡ lookup blob s.files
      same_refs : (d : Text) → member d l.registered ≡ false → F.get l.sink.refs d ≡ F.get s.refs d

    abbrev AreConfined : Result TransferError (Loop L F) × Loop L F → Type 0
    AreConfined r = Preserved L F IsConfined IsConfined r

    lookup-appended :
        (bs : Text) (files : List (Text × Text))
        → lookup blob (appended L F env tmp bs files) ≡ lookup blob files
    unfolding appended
    lookup-appended bs files = ground (
      arith,
      apart,
      lookup-insert tmp blob
          ((elim (lookup tmp files) [ none ↦ [] | some content ↦ content ]) ++ bs) files,
    )

    start-IsConfined : IsConfined (start L F env tmp s)
    start-IsConfined = record {
      same_blob = ground (arith, lookup-insert tmp blob [] s.files);
      same_refs = λ d h. refl;
    }

    abbrev ref_of : Loop L F → Text → Ref
    ref_of l bs = record { full_path = blob; offset = length l.written; len = length bs }

    -- A write to the part file.
    written_part :
        (l : Loop L F) (bs : Text)
        → IsConfined l
        → IsConfined
            (record l { sink = record l.sink { files = appended L F env tmp bs l.sink.files } })
    written_part l bs h = record {
      same_blob = lookup-appended bs l.sink.files ∙ h.same_blob;
      same_refs = h.same_refs;
    }

    -- A write to the part file and its reference.
    registered_part :
        (c : L.Cid) (bs : Text) (l : Loop L F) (refs' : F.Refs)
        → register_ref L F env c (ref_of l bs) l.sink.refs ≡ some refs'
        → IsConfined l
        → IsConfined (record {
          sink = record l.sink {
            files = appended L F env tmp bs l.sink.files;
            refs = refs';
            done = add64 l.sink.done (pos (length bs));
          };
          written = l.written ++ bs;
          registered = l.registered ++ c ∷ [];
        })
    unfolding register_ref
    registered_part c bs l refs' p h = record {
      same_blob = lookup-appended bs l.sink.files ∙ h.same_blob;
      same_refs = λ d other. ground (
        arith,
        member-append d c l.registered,
        h.same_refs d,
        laws.get-put_ne l.sink.refs refs' (L.hash c) d (ref_of l bs),
      );
    }

    chunk-AreConfined :
        (c : L.Cid) (o : Option Text) (l : Loop L F)
        → IsConfined l
        → AreConfined (chunk L F env blob tmp c o l)
    unfolding chunk
    chunk-AreConfined c none l h = h
    chunk-AreConfined c (some bs) l h = elim (Bool-cases (env.accepts bs c)) [
      | inr bad ↦ rw bad h
      | inl good ↦ elim (Bool-cases (env.write_succeeds (length l.written))) [
        | inr failed ↦ rw (good, failed) h
        | inl wrote ↦ elim (Option-cases (register_ref L F env c (ref_of l bs) l.sink.refs)) [
          | inl refused ↦ rw (good, wrote, refused) (written_part l bs h)
          | inr (refs', registered) ↦
              rw (good, wrote, registered) (registered_part c bs l refs' registered h)
        ]
      ]
    ]

    -- The blob is as it was; the part file is gone, or could not be removed; and each reference, by the
    -- multihash of its block, is as it was, or gone, or of a block that could not be deleted.
    pub record IsRolledBack (s' : Sink L F) : Type 0 where
      pub same_blob : lookup blob s'.files ≡ lookup blob s.files
      pub no_part : (lookup tmp s'.files ≡ none) ⊎ (env.remove_succeeds ≡ false)
      pub refs_kept_or_gone :
          (d : Text)
          → (F.get s'.refs d ≡ F.get s.refs d)
            ⊎ ((F.get s'.refs d ≡ none) ⊎ (env.delete_succeeds d ≡ false))

    rollback-IsRolledBack :
        (cause : TransferError) (l : Loop L F)
        → IsConfined l
        → IsRolledBack (rollback L F env tmp cause l).1
    unfolding rollback
    rollback-IsRolledBack cause l h = record {
      same_blob = ground (arith, h.same_blob, lookup-remove tmp blob l.sink.files);
      no_part = elim (Bool-cases env.remove_succeeds) [
        | inl done ↦
            inl (ground (arith, done, lookup-remove tmp tmp l.sink.files, text_eq_iff tmp tmp))
        | inr failed ↦ inr failed
      ];
      refs_kept_or_gone = λ d. elim (Bool-cases (member d l.registered)) [
        | inl listed ↦ elim (Bool-cases (env.delete_succeeds d)) [
          | inl gone ↦ inr (inl (rw (get-delete_refs d l.registered l.sink.refs, listed, gone)))
          | inr stays ↦ inr (inr stays)
        ]
        | inr kept ↦
            inl (rw (get-delete_refs d l.registered l.sink.refs, kept) (h.same_refs d kept))
      ];
    }

    rolled_back :
        (f : FileManifest) (e : TransferError) (l : Loop L F) (s' : Sink L F)
        → e ≢ chmod_failed
        → finish L F env f blob tmp l ≡ (err e, s')
        → (rollback L F env tmp e l).1 ≡ s'
    unfolding finish rollback
    rolled_back f e l s' other p = ground arith

    finish-IsRolledBack :
        (f : FileManifest) (e : TransferError) (l : Loop L F) (s' : Sink L F)
        → IsConfined l
        → e ≢ chmod_failed
        → finish L F env f blob tmp l ≡ (err e, s')
        → IsRolledBack s'
    finish-IsRolledBack f e l s' h other p =
        subst (λ (x : Sink L F). IsRolledBack x) (rolled_back f e l s' other p)
          (rollback-IsRolledBack e l h)

    end_of_loop-IsRolledBack :
        (f : FileManifest) (e : TransferError) (r : Result TransferError (Loop L F) × Loop L F)
        (s' : Sink L F)
        → AreConfined r
        → e ≢ chmod_failed
        → end_of_loop L F env f blob tmp r ≡ (err e, s')
        → IsRolledBack s'
    unfolding end_of_loop rollback
    end_of_loop-IsRolledBack f e (err cause, l) s' h other p =
        subst (λ (x : Sink L F). IsRolledBack x)
          (ap (λ (x : Result TransferError (Unit {0}) × Sink L F). x.1) p)
          (rollback-IsRolledBack cause l h)
    end_of_loop-IsRolledBack f e (ok l, l') s' h other p = finish-IsRolledBack f e l s' h other p

    module _ (fresh : lookup tmp s.files ≡ none) where
      untouched-IsRolledBack : (s' : Sink L F) → s ≡ s' → IsRolledBack s'
      untouched-IsRolledBack s' same =
          subst (λ (x : Sink L F). IsRolledBack x) same
            (record { same_blob = refl; no_part = inl fresh; refs_kept_or_gone = λ d. inl refl })

      chunked_file-IsRolledBack :
          (f : FileManifest) (leaves : List L.Cid) (e : TransferError) (s' : Sink L F)
          → e ≢ chmod_failed
          → chunked_file L F env f blob tmp leaves s ≡ (err e, s')
          → IsRolledBack s'
      unfolding chunked_file
      chunked_file-IsRolledBack f leaves e s' other p = elim (Bool-cases env.create_succeeds) [
        | inr failed ↦ untouched-IsRolledBack s' (ground arith)
        | inl created ↦
            end_of_loop-IsRolledBack f e
              (batches L F env (length leaves) blob tmp 0 leaves (start L F env tmp s)) s'
              (batches-Preserved L F IsConfined IsConfined env blob tmp (λ l h. h) chunk-AreConfined
                (length leaves) 0 leaves (start L F env tmp s) start-IsConfined)
              other (ground arith)
      ]

      with_leaves-IsRolledBack :
          {E : Type 0} (f : FileManifest) (leaves : Result (WalkError E) (List L.Cid))
          (e : TransferError) (s' : Sink L F)
          → e ≢ chmod_failed
          → with_leaves L F env f blob tmp leaves s ≡ (err e, s')
          → IsRolledBack s'
      unfolding with_leaves
      with_leaves-IsRolledBack f (err w) e s' other p = untouched-IsRolledBack s' (ground arith)
      with_leaves-IsRolledBack f (ok []) e s' other p = untouched-IsRolledBack s' (ground arith)
      with_leaves-IsRolledBack f (ok (c ∷ cs)) e s' other p =
          chunked_file-IsRolledBack f (c ∷ cs) e s' other p

  -- Where the transfer of a file that is not empty, with a fresh name for its part file, fails in any
  -- way but at the last change of mode, the blob is what it was before; no part file is left, unless it
  -- could not be removed; and every filestore reference is the one of before, or gone, or the one of a
  -- block that could not be deleted.
  pub reconstruct_file-IsRolledBack :
      {E : Type 0} (f : FileManifest) (blob suffix : Text) (c : L.Cid)
      (leaves : Result (WalkError E) (List L.Cid)) (s s' : Sink L F) (e : TransferError)
      → int_eq f.size (pos 0) ≡ false
      → lookup (part_path blob suffix) s.files ≡ none
      → e ≢ chmod_failed
      → reconstruct_file L F env f blob (part_path blob suffix) c leaves s ≡ (err e, s')
      → IsRolledBack blob (part_path blob suffix) (part_path-ne blob suffix) s s'
  unfolding reconstruct_file
  reconstruct_file-IsRolledBack f blob suffix c leaves s s' e sized fresh other p =
      let tmp = part_path blob suffix in
      let apart = part_path-ne blob suffix in
      elim (Bool-cases (is_empty f.sha256)) [
        | inl missing ↦ untouched-IsRolledBack blob tmp apart s fresh s' (ground arith)
        | inr given ↦ elim (Bool-cases (is_cached L F env f (lookup blob s.files))) [
          | inl cached ↦ absurd (ground arith)
          | inr absent ↦ elim (Bool-cases env.mkdir_succeeds) [
            | inr failed ↦ untouched-IsRolledBack blob tmp apart s fresh s' (ground arith)
            | inl made ↦
                with_leaves-IsRolledBack blob tmp apart s fresh f leaves e s' other (ground arith)
          ]
        ]
      ]
