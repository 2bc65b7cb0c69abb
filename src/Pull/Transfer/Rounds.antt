-- ===== src/Pull/Transfer/Rounds.antt =====
-- The fuel of the loop over the batches of internal/pull/pull.go.
use hf_ipfs.Prelude.{
  ℕ, zero, suc, ◌+◌, ◌≤◌, ◌≢◌, List, [], ◌∷◌, Option, none, some, Text, length, take, drop, Result,
  ok, err, arith, Option-cases, Result-cases, inl, inr,
}
use hf_ipfs.Cids.{CidLib}
use hf_ipfs.Pull.Transfer.{
  Filestore, Env, Loop, TransferError, out_of_rounds, batch_size, register_ref, chunk, and_then,
  batch, batches, Sink, finish, rollback, end_of_loop, store_leaf, empty_file, start, chunked_file,
  with_leaves, reconstruct_file,
}
use hf_ipfs.Prelude.Table.{text_Eq, insert}
use hf_ipfs.Mapping.Entries.{FileManifest}
use hf_ipfs.Pull.Fetch.{FetchError}
use hf_ipfs.Pull.Leaves.{WalkError}

length-drop : {A : Type 0} (n : ℕ) (xs : List A) → length (drop n xs) ≤ length xs
length-drop zero xs = ground arith
length-drop (suc n) [] = ground arith
length-drop (suc n) (x ∷ xs) = ground (arith, length-drop n xs)

module _ (L : CidLib) (F : Filestore) (env : Env L.Cid) where
  chunk_in_rounds :
      (blob tmp : Text) (c : L.Cid) (o : Option Text) (l : Loop L F)
      → (chunk L F env blob tmp c o l).0 ≢ err out_of_rounds
  unfolding chunk
  chunk_in_rounds blob tmp c none l h = ground arith
  chunk_in_rounds blob tmp c (some bs) l h =
      elim (Option-cases (
        register_ref L F env c
          (record { full_path = blob; offset = length l.written; len = length bs }) l.sink.refs)) [
            | inl refused ↦ ground (arith, refused)
            | inr (refs, taken) ↦ ground (arith, taken)
          ]

  then_in_rounds :
      (r : Result TransferError (Loop L F) × Loop L F)
      (f : Loop L F → Result TransferError (Loop L F) × Loop L F)
      → r.0 ≢ err out_of_rounds
      → ((l : Loop L F) → (f l).0 ≢ err out_of_rounds)
      → (and_then L F env r f).0 ≢ err out_of_rounds
  then_in_rounds (err e, l) f first rest h = first h
  then_in_rounds (ok l, l') f first rest h = rest l h

  batch_in_rounds :
      (blob tmp : Text) (cs : List L.Cid) (datas : List (Option Text)) (l : Loop L F)
      → (batch L F env blob tmp cs datas l).0 ≢ err out_of_rounds
  unfolding batch
  batch_in_rounds blob tmp [] datas l h = ground arith
  batch_in_rounds blob tmp (c ∷ cs) [] l h = ground arith
  batch_in_rounds blob tmp (c ∷ cs) (bs ∷ datas) l h =
      then_in_rounds (chunk L F env blob tmp c bs l) (batch L F env blob tmp cs datas)
        (chunk_in_rounds blob tmp c bs l) (batch_in_rounds blob tmp cs datas) h

  -- The loop over the batches always comes to its end: it never runs out of rounds.
  pub batches_in_rounds :
      (n : ℕ) (blob tmp : Text) (start : ℕ) (cs : List L.Cid) (l : Loop L F)
      → length cs ≤ n
      → (batches L F env n blob tmp start cs l).0 ≢ err out_of_rounds
  unfolding batches
  batches_in_rounds n blob tmp start [] l enough h = ground arith
  batches_in_rounds zero blob tmp start (c ∷ cs) l enough h = ground arith
  batches_in_rounds (suc n) blob tmp start (c ∷ cs) l enough h =
      elim (Result-cases (env.fetch start (take batch_size (c ∷ cs)))) [
        | inr (e, failed) ↦ ground (arith, failed)
        | inl (datas, fetched) ↦
            then_in_rounds (batch L F env blob tmp (take batch_size (c ∷ cs)) datas l)
              (batches L F env n blob tmp (start + batch_size) (drop batch_size (c ∷ cs)))
              (batch_in_rounds blob tmp (take batch_size (c ∷ cs)) datas l)
              (λ m.
                batches_in_rounds n blob tmp (start + batch_size) (drop batch_size (c ∷ cs)) m
                  (ground (arith, length-drop 63 cs)))
              (ground (arith, fetched))
      ]

  finish_in_rounds :
      (f : FileManifest) (blob tmp : Text) (l : Loop L F)
      → (finish L F env f blob tmp l).0 ≢ err out_of_rounds
  unfolding finish rollback
  finish_in_rounds f blob tmp l h = ground arith

  end_in_rounds :
      (f : FileManifest) (blob tmp : Text) (r : Result TransferError (Loop L F) × Loop L F)
      → r.0 ≢ err out_of_rounds
      → (end_of_loop L F env f blob tmp r).0 ≢ err out_of_rounds
  unfolding end_of_loop rollback
  end_in_rounds f blob tmp (err e, l) running h = running (ground arith)
  end_in_rounds f blob tmp (ok l, l') running h = finish_in_rounds f blob tmp l h

  store_in_rounds :
      (f : FileManifest) (c : L.Cid) (r : Result FetchError (List (Option Text))) (s : Sink L F)
      → (store_leaf L F env f c r s).0 ≢ err out_of_rounds
  unfolding store_leaf
  store_in_rounds f c (err e) s h = ground arith
  store_in_rounds f c (ok []) s h = ground arith
  store_in_rounds f c (ok (none ∷ rest)) s h = ground arith
  store_in_rounds f c (ok (some leaf ∷ [])) s h = ground arith
  store_in_rounds f c (ok (some leaf ∷ o ∷ rest)) s h = ground arith

  empty_in_rounds :
      (f : FileManifest) (blob : Text) (c : L.Cid) (s : Sink L F)
      → (empty_file L F env f blob c s).0 ≢ err out_of_rounds
  unfolding empty_file
  empty_in_rounds f blob c s h = ground (
    arith,
    store_in_rounds f c (env.fetch 0 (c ∷ [])) (record s { files = insert blob [] s.files }),
  )

  leaves_in_rounds :
      {E : Type 0} (f : FileManifest) (blob tmp : Text) (leaves : Result (WalkError E) (List L.Cid))
      (s : Sink L F)
      → (with_leaves L F env f blob tmp leaves s).0 ≢ err out_of_rounds
  unfolding with_leaves chunked_file
  leaves_in_rounds f blob tmp (err e) s h = ground arith
  leaves_in_rounds f blob tmp (ok []) s h = ground arith
  leaves_in_rounds f blob tmp (ok (c ∷ cs)) s h = ground (
    arith,
    end_in_rounds f blob tmp
        (batches L F env (length (c ∷ cs)) blob tmp 0 (c ∷ cs) (start L F env tmp s))
        (batches_in_rounds (length (c ∷ cs)) blob tmp 0 (c ∷ cs) (start L F env tmp s)
          (ground arith)),
  )

  -- The transfer of a file ends with success or with an error of the program: the fuel of its loop,
  -- the number of the leaves, is enough.
  pub reconstruct_file_in_rounds :
      {E : Type 0} (f : FileManifest) (blob tmp : Text) (c : L.Cid)
      (leaves : Result (WalkError E) (List L.Cid)) (s : Sink L F)
      → (reconstruct_file L F env f blob tmp c leaves s).0 ≢ err out_of_rounds
  unfolding reconstruct_file
  reconstruct_file_in_rounds f blob tmp c leaves s h =
      ground (arith, empty_in_rounds f blob c s, leaves_in_rounds f blob tmp leaves s)
