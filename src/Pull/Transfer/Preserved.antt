-- ===== src/Pull/Transfer/Preserved.antt =====
-- What each step of the loop over the chunks of internal/pull/pull.go preserves, the whole loop does.
use hf_ipfs.Prelude.{
  ℕ, zero, suc, ◌+◌, List, [], ◌∷◌, Option, Text, take, drop, Result, ok, err, Result-cases, inl,
  inr,
}
use hf_ipfs.Cids.{CidLib}
use hf_ipfs.Pull.Transfer.{
  Filestore, Env, Loop, TransferError, batch_size, chunk, and_then, batch, batches,
}

module _ (L : CidLib) (F : Filestore) (P Q : Loop L F → Type 0) where
  -- `P` holds after steps that succeeded, and `Q` where one failed.
  abbrev pub Preserved : Result TransferError (Loop L F) × Loop L F → Type 0
  Preserved (err e, l) = Q l
  Preserved (ok l, l') = P l

  module _ (env : Env L.Cid) (blob tmp : Text) (weaken : (l : Loop L F) → P l → Q l)
      (step : (c : L.Cid) (o : Option Text) (l : Loop L F)
        → P l
        → Preserved (chunk L F env blob tmp c o l)) where
    and_then-Preserved :
        (r : Result TransferError (Loop L F) × Loop L F)
        (k : Loop L F → Result TransferError (Loop L F) × Loop L F)
        → Preserved r
        → ((l : Loop L F) → P l → Preserved (k l))
        → Preserved (and_then L F env r k)
    and_then-Preserved (err e, l) k h g = h
    and_then-Preserved (ok l, l') k h g = g l h

    batch-Preserved :
        (cs : List L.Cid) (datas : List (Option Text)) (l : Loop L F)
        → P l
        → Preserved (batch L F env blob tmp cs datas l)
    unfolding batch
    batch-Preserved [] datas l h = h
    batch-Preserved (c ∷ cs) [] l h = weaken l h
    batch-Preserved (c ∷ cs) (o ∷ datas) l h =
        and_then-Preserved (chunk L F env blob tmp c o l) (batch L F env blob tmp cs datas)
          (step c o l h) (batch-Preserved cs datas)

    pub batches-Preserved :
        (n i : ℕ) (cs : List L.Cid) (l : Loop L F)
        → P l
        → Preserved (batches L F env n blob tmp i cs l)
    unfolding batches
    batches-Preserved n i [] l h = h
    batches-Preserved zero i (c ∷ cs) l h = weaken l h
    batches-Preserved (suc n) i (c ∷ cs) l h =
        elim (Result-cases (env.fetch i (take batch_size (c ∷ cs)))) [
          | inr (e, failed) ↦ rw (failed, batches) (weaken l h)
          | inl (datas, fetched) ↦
              rw (fetched, batches)
                (and_then-Preserved (batch L F env blob tmp (take batch_size (c ∷ cs)) datas l)
                  (batches L F env n blob tmp (i + batch_size) (drop batch_size (c ∷ cs)))
                  (batch-Preserved (take batch_size (c ∷ cs)) datas l h)
                  (batches-Preserved n (i + batch_size) (drop batch_size (c ∷ cs))))
        ]
