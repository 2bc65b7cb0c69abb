-- ===== src/Pull/Transfer/State.antt =====
-- The state of a transfer, the libraries and the system that it uses, and its errors.
use hf_ipfs.Prelude.{
  ℕ, ◌++◌, ◌≡◌, Bool, false, List, Option, none, some, Text, text_eq, codes, if◌then◌else◌, Result,
}
use hf_ipfs.Prelude.Int64.{ℤ}
use hf_ipfs.Cids.{CidLib}
use hf_ipfs.Pull.Fetch.{FetchError}

-- BatchSize
abbrev pub batch_size : ℕ
batch_size = 64

-- Where the bytes of a block live: a path, an offset and a length.
pub record Ref : Type 0 where
  pub full_path : Text
  pub offset : ℕ
  pub len : ℕ

-- The filestore of boxo: Put of a node with its position, DeleteBlock, and the reference it holds, by the
-- multihash of a CID, under which it stores them.
pub record Filestore : Type 1 where
  pub Refs : Type 0
  pub put : Refs → Text → Ref → Option Refs
  pub delete : Refs → Text → Refs
  pub get : Refs → Text → Option Ref

-- A deleted block has no reference, and Put and DeleteBlock of one block leave the others alone.
pub record FilestoreLaws (F : Filestore) : Type 0 where
  pub get-delete :
      (r : F.Refs) (c d : Text) → F.get (F.delete r c) d ≡ (if text_eq c d then none else F.get r d)
  pub get-put_ne :
      (r s : F.Refs) (c d : Text) (v : Ref)
      → F.put r c v ≡ some s
      → text_eq c d ≡ false
      → F.get s d ≡ F.get r d

pub data TransferError : Type 0 where
  no_sha256 mkdir_failed create_failed close_failed missing_leaf bad_leaf store_failed no_chunks
        chunks_unreadable missing_chunk bad_chunk write_failed register_failed sha256_mismatch
        size_mismatch rename_failed chmod_failed :
      TransferError
  out_of_rounds : TransferError
  fetch_failed : FetchError → TransferError

pub record Env (C : Type 0) : Type 0 where
  pub sha256_hex : Text → Text
  -- blocks.NewBlockWithCid accepts the bytes for the CID; the library compares the hash only in its
  -- debug mode, and nothing is assumed of it here
  pub accepts : Text → C → Bool
  -- Fetch of the batch that begins at an index
  pub fetch : ℕ → List C → Result FetchError (List (Option Text))
  pub read_succeeds : Bool
  pub mkdir_succeeds : Bool
  pub create_succeeds : Bool
  pub write_succeeds : ℕ → Bool
  pub close_succeeds : Bool
  pub store_succeeds : Bool
  pub rename_succeeds : Bool
  pub chmod_succeeds : Bool
  -- os.Remove of the part file
  pub remove_succeeds : Bool
  -- DeleteBlock of the filestore, by multihash
  pub delete_succeeds : Text → Bool

-- blobPath + ".part-" + randSuffix()
abbrev pub part_path : Text → Text → Text
part_path blob suffix = blob ++ codes ".part-" ++ suffix

module _ (L : CidLib) (F : Filestore) where
  pub record Sink : Type 0 where
    pub files : List (Text × Text)
    pub refs : F.Refs
    pub blocks : List (Text × Text)
    pub done : ℤ

  -- The variables of the loop over the chunks.
  pub record Loop : Type 0 where
    pub sink : Sink
    pub written : Text
    pub registered : List L.Cid
