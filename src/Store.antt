-- ===== src/Store.antt =====
-- internal/store/bolt.go: the datastore views over the buckets of one bbolt file.
--
-- bbolt is a parameter, `Bolt`: the contents of the file, the operations of a transaction on them,
-- and what is documented of those (`BoltLaws`). Update commits what its function returns, and rolls
-- back if that is an error or the commit fails.
pub mod Batches
use hf_ipfs.Prelude.{
  ℕ, ◌≡◌, ◌≢◌, ◌⊎◌, Bool, true, false, List, [], ◌∷◌, ◌++◌, Option, none, some, Text, codes,
  trim_prefix, length, if◌then◌else◌, Result, ok, err, ◌>>=◌, map,
}

pub record Bolt : Type 1 where
  pub Contents : Type 0
  pub Fault : Type 0
  pub has_bucket : Contents → Text → Bool
  pub create_bucket : Contents → Text → Result Fault Contents
  -- Get, Put and Delete of a key in a bucket, and the pairs in key order
  pub get : Contents → Text → Text → Option Text
  pub put : Contents → Text → Text → Text → Result Fault Contents
  pub delete : Contents → Text → Text → Result Fault Contents
  pub pairs : Contents → Text → List (Text × Text)
  -- the error of the commit that would make these the contents of the file
  pub commit_fault : Contents → Option Fault

pub record BoltLaws (B : Bolt) : Type 0 where
  pub get_no_bucket : (c : B.Contents) (b k : Text) → B.has_bucket c b ≡ false → B.get c b k ≡ none
  pub has_bucket-create :
      (c d : B.Contents) (b : Text) → B.create_bucket c b ≡ ok d → B.has_bucket d b ≡ true
  pub get-create :
      (c d : B.Contents) (b a k : Text) → B.create_bucket c b ≡ ok d → B.get d a k ≡ B.get c a k
  pub has_bucket-put :
      (c d : B.Contents) (b k v a : Text)
      → B.put c b k v ≡ ok d
      → B.has_bucket d a ≡ B.has_bucket c a
  pub get-put_self : (c d : B.Contents) (b k v : Text) → B.put c b k v ≡ ok d → B.get d b k ≡ some v
  pub get-put_ne :
      (c d : B.Contents) (b k v a j : Text)
      → B.put c b k v ≡ ok d
      → (b ≢ a) ⊎ (k ≢ j)
      → B.get d a j ≡ B.get c a j
  pub has_bucket-delete :
      (c d : B.Contents) (b k a : Text)
      → B.delete c b k ≡ ok d
      → B.has_bucket d a ≡ B.has_bucket c a
  pub get-delete_self : (c d : B.Contents) (b k : Text) → B.delete c b k ≡ ok d → B.get d b k ≡ none
  pub get-delete_ne :
      (c d : B.Contents) (b k a j : Text)
      → B.delete c b k ≡ ok d
      → (b ≢ a) ⊎ (k ≢ j)
      → B.get d a j ≡ B.get c a j

-- ds.ErrNotFound, or what bbolt reports.
pub data StoreError (F : Type 0) : Type 0 where
  not_found : StoreError F
  fault : F → StoreError F

-- boltDS.raw on the text of a key
unfoldable pub raw : Text → Text
raw k = trim_prefix (codes "/") k

-- An entry of a query result: its key, its value unless only keys are asked for, and its size.
pub record QueryEntry : Type 0 where
  pub key : Text
  pub value : Option Text
  pub size : ℕ

module _ (B : Bolt) where
  open B use {Contents, Fault, has_bucket, create_bucket, get, put, delete, pairs, commit_fault}

  -- db.Update: the new contents, and the error that was returned.
  abbrev pub update :
      (Contents → Result Fault Contents)
      → Contents
      → Result (StoreError Fault) (Unit {0}) × Contents
  update f c = elim (f c) [
    | err e ↦ (err (fault e), c)
    | ok d ↦ elim (commit_fault d) [ none ↦ (ok tt, d) | some e ↦ (err (fault e), c) ]
  ]

  -- The loop of Open over the bucket names.
  unfoldable pub create_buckets : List Text → Contents → Result Fault Contents
  create_buckets [] c = ok c
  create_buckets (b ∷ bs) c = create_bucket c b >>= create_buckets bs

  -- The transaction of Open.
  unfoldable pub open_store : Contents → Result (StoreError Fault) (Unit {0}) × Contents
  open_store = update (create_buckets (codes "blocks" ∷ codes "filestore" ∷ codes "map" ∷ []))

  module _ (bucket : Text) where
    -- boltDS.Get
    unfoldable pub ds_get : Text → Contents → Result (StoreError Fault) Text
    ds_get k c =
        if has_bucket c bucket
        then (elim (get c bucket (raw k)) [ none ↦ err not_found | some v ↦ ok v ])
        else err not_found

    -- boltDS.Has
    unfoldable pub ds_has : Text → Contents → Bool
    ds_has k c =
        if has_bucket c bucket
        then (elim (get c bucket (raw k)) [ none ↦ false | some v ↦ true ])
        else false

    -- boltDS.GetSize
    unfoldable pub ds_get_size : Text → Contents → Result (StoreError Fault) ℕ
    ds_get_size k c =
        if has_bucket c bucket
        then (elim (get c bucket (raw k)) [ none ↦ err not_found | some v ↦ ok (length v) ])
        else err not_found

    -- boltDS.Put
    unfoldable pub ds_put : Text → Text → Contents → Result (StoreError Fault) (Unit {0}) × Contents
    ds_put k v = update (λ c. create_bucket c bucket >>= λ d. put d bucket (raw k) v)

    -- boltDS.Delete
    unfoldable pub ds_delete : Text → Contents → Result (StoreError Fault) (Unit {0}) × Contents
    ds_delete k = update (λ c. if has_bucket c bucket then delete c bucket (raw k) else ok c)

    -- The entries of boltDS.Query, before the naive query of go-datastore.
    unfoldable pub ds_query : Bool → Contents → List QueryEntry
    ds_query keys_only c =
        if has_bucket c bucket
        then map
            (λ p. record {
              key = codes "/" ++ p.0;
              value = if keys_only then none else some p.1;
              size = length p.1;
            })
            (pairs c bucket)
        else []

    -- The loops of boltBatch.Commit.
    unfoldable pub put_all : List (Text × Text) → Contents → Result Fault Contents
    put_all [] c = ok c
    put_all ((k, v) ∷ puts) c = put c bucket (raw k) v >>= put_all puts

    unfoldable pub delete_all : List Text → Contents → Result Fault Contents
    delete_all [] c = ok c
    delete_all (k ∷ ks) c = delete c bucket (raw k) >>= delete_all ks

    -- boltBatch.Commit: the puts in order, then the deletes, in one transaction.
    unfoldable pub batch_commit :
        List (Text × Text) → List Text → Contents → Result (StoreError Fault) (Unit {0}) × Contents
    batch_commit puts deletes =
        update (λ c. create_bucket c bucket >>= λ d. put_all puts d >>= λ e. delete_all deletes e)
