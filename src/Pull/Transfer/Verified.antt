-- ===== src/Pull/Transfer/Verified.antt =====
-- What a transfer that succeeds leaves behind.
use hf_ipfs.Prelude.{
  ◌≡◌, ap, true, false, List, [], ◌∷◌, ◌++◌, Option, none, some, Text, codes, text_eq, text_eq_iff,
  text_eq_sound, length, is_empty, Result, ok, err, arith, Bool-cases, Option-cases, inl, inr,
  length-append,
}
use hf_ipfs.Prelude.Int64.{pos, int_eq, int_eq_iff}
use hf_ipfs.Prelude.Table.{text_Eq, lookup, lookup-insert_self, lookup-moved}
use hf_ipfs.Cids.{CidLib}
use hf_ipfs.Mapping.Entries.{FileManifest}
use hf_ipfs.Pull.Leaves.{WalkError}
use hf_ipfs.Pull.Transfer.{
  Filestore, Ref, chunk, appended, register_ref, Env, Sink, Loop, TransferError, part_path,
  is_cached, finish, end_of_loop, start, batches, chunked_file, with_leaves, reconstruct_file,
  rollback,
}
use hf_ipfs.Pull.Transfer.Preserved.{Preserved, batches-Preserved}

-- The part file is never the blob.
pub part_path-ne : (blob suffix : Text) → text_eq (part_path blob suffix) blob ≡ false
part_path-ne blob suffix = elim (Bool-cases (text_eq (part_path blob suffix) blob)) [
  | inr differs ↦ differs
  | inl same ↦ absurd (
      omega (
        arith,
        ap (λ (t : Text). length t) (text_eq_sound (part_path blob suffix) blob same),
        length-append (blob ++ codes ".part-") suffix,
        length-append blob (codes ".part-"),
      ))
]

module _ (L : CidLib) (F : Filestore) (env : Env L.Cid) (f : FileManifest) where
  -- A file with the digest and the size of the manifest.
  pub record IsVerified (blob : Text) (s : Sink L F) : Type 0 where
    pub content : Text
    pub present : lookup blob s.files ≡ some content
    pub digest : env.sha256_hex content ≡ f.sha256
    pub size : pos (length content) ≡ f.size

  module _ (blob tmp : Text) (apart : text_eq tmp blob ≡ false) where
    -- The part file holds the bytes that were hashed.
    IsWritten : Loop L F → Type 0
    IsWritten l = lookup tmp l.sink.files ≡ some l.written

    abbrev AreWritten : Result TransferError (Loop L F) × Loop L F → Type 0
    AreWritten r = Preserved L F IsWritten (λ l. Unit {0}) r

    chunk-AreWritten :
        (c : L.Cid) (o : Option Text) (l : Loop L F)
        → IsWritten l
        → AreWritten (chunk L F env blob tmp c o l)
    unfolding chunk IsWritten appended
    chunk-AreWritten c none l h = tt
    chunk-AreWritten c (some bs) l h = elim (Bool-cases (env.accepts bs c)) [
      | inr bad ↦ rw bad tt
      | inl good ↦ elim (Bool-cases (env.write_succeeds (length l.written))) [
        | inr failed ↦ rw (good, failed) tt
        | inl wrote ↦
            let ref : Ref = record {
              full_path = blob;
              offset = length l.written;
              len = length bs;
            } in
            elim (Option-cases (register_ref L F env c ref l.sink.refs)) [
              | inl refused ↦ rw (good, wrote, refused) tt
              | inr (refs', registered) ↦
                  rw (good, wrote, registered, h)
                    (lookup-insert_self tmp (l.written ++ bs) l.sink.files)
            ]
      ]
    ]

    finish_verified :
        (l : Loop L F) (s : Sink L F)
        → IsWritten l
        → finish L F env f blob tmp l ≡ (ok tt, s)
        → (lookup blob s.files ≡ some l.written)
          × (env.sha256_hex l.written ≡ f.sha256)
          × (pos (length l.written) ≡ f.size)
    unfolding finish rollback IsWritten
    finish_verified l s part h = ground (
      arith,
      lookup-moved tmp blob l.written l.sink.files part apart,
      text_eq_iff (env.sha256_hex l.written) f.sha256,
      int_eq_iff (pos (length l.written)) f.size,
    )

    end_of_loop-IsVerified :
        (r : Result TransferError (Loop L F) × Loop L F) (s : Sink L F)
        → AreWritten r
        → end_of_loop L F env f blob tmp r ≡ (ok tt, s)
        → IsVerified blob s
    unfolding end_of_loop rollback
    end_of_loop-IsVerified (err e, l) s part h = absurd (ground arith)
    end_of_loop-IsVerified (ok l, l') s part h =
        let (present, digest, size) = finish_verified l s part h in
        record { content = l.written; present = present; digest = digest; size = size }

    chunked-IsVerified :
        (leaves : List L.Cid) (s s' : Sink L F)
        → chunked_file L F env f blob tmp leaves s ≡ (ok tt, s')
        → IsVerified blob s'
    unfolding chunked_file IsWritten
    chunked-IsVerified leaves s s' h = elim (Bool-cases env.create_succeeds) [
      | inr failed ↦ absurd (ground arith)
      | inl created ↦
          let first = start L F env tmp s in
          end_of_loop-IsVerified (batches L F env (length leaves) blob tmp 0 leaves first) s'
            (batches-Preserved L F IsWritten (λ l. Unit {0}) env blob tmp (λ l h. tt)
              chunk-AreWritten (length leaves) 0 leaves first (lookup-insert_self tmp [] s.files))
            (ground arith)
    ]

    with_leaves-IsVerified :
        {E : Type 0} (leaves : Result (WalkError E) (List L.Cid)) (s s' : Sink L F)
        → with_leaves L F env f blob tmp leaves s ≡ (ok tt, s')
        → IsVerified blob s'
    unfolding with_leaves
    with_leaves-IsVerified (err e) s s' h = absurd (ground arith)
    with_leaves-IsVerified (ok []) s s' h = absurd (ground arith)
    with_leaves-IsVerified (ok (c ∷ cs)) s s' h = chunked-IsVerified (c ∷ cs) s s' h

    cached-IsVerified :
        (o : Option Text)
        → is_cached L F env f o ≡ true
        → (s : Sink L F) → lookup blob s.files ≡ o
        → IsVerified blob s
    unfolding is_cached
    cached-IsVerified none h s e = absurd (ground arith)
    cached-IsVerified (some content) h s e = record {
      content = content;
      present = e;
      digest = ground (arith, text_eq_iff (env.sha256_hex content) f.sha256);
      size = ground (arith, int_eq_iff (pos (length content)) f.size);
    }

  -- Where the transfer of a file that is not empty reports success, the blob is on disk, and it has the
  -- SHA-256 and the size that the manifest gives. That holds whatever the peer sent, and whether the
  -- blob was adopted or written.
  pub reconstruct_file-IsVerified :
      {E : Type 0} (blob suffix : Text) (c : L.Cid) (leaves : Result (WalkError E) (List L.Cid))
      (s s' : Sink L F)
      → int_eq f.size (pos 0) ≡ false
      → reconstruct_file L F env f blob (part_path blob suffix) c leaves s ≡ (ok tt, s')
      → IsVerified blob s'
  unfolding reconstruct_file
  reconstruct_file-IsVerified blob suffix c leaves s s' sized h =
      elim (Bool-cases (is_empty f.sha256)) [
        | inl missing ↦ absurd (ground arith)
        | inr given ↦ elim (Bool-cases (is_cached L F env f (lookup blob s.files))) [
          | inl cached ↦
              cached-IsVerified blob (part_path blob suffix) (part_path-ne blob suffix)
                (lookup blob s.files) cached s' (ground arith)
          | inr fresh ↦ elim (Bool-cases env.mkdir_succeeds) [
            | inr failed ↦ absurd (ground arith)
            | inl made ↦
                with_leaves-IsVerified blob (part_path blob suffix) (part_path-ne blob suffix)
                  leaves s s' (ground arith)
          ]
        ]
      ]
