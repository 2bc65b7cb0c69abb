-- ===== src/Wire.antt =====
-- internal/wire/wire.go: the messages of the map protocol and the status bytes of the block protocol.
use hf_ipfs.Prelude.{ℕ, Bool, false, List, [], Text, map}
use hf_ipfs.Prelude.Int64.{ℤ, pos}
use hf_ipfs.Mapping.Entries.{FileManifest, strip_src}

abbrev pub block_ok : ℕ
block_ok = 0x00

abbrev pub block_not_found : ℕ
block_not_found = 0x01

pub record MapRequest : Type 0 where
  pub commit_hash : Text
  pub repo_id : Text

-- The field OK is `served`.
pub record MapResponse : Type 0 where
  pub served : Bool
  pub error : Text
  pub commit_hash : Text
  pub repo_id : Text
  pub repo_type : Text
  pub actual_cid : Text
  pub dummy_cid : Text
  pub total_size : ℤ
  pub files : List FileManifest

-- A response with no field set but the commit hash.
abbrev pub empty_response : Text → MapResponse
empty_response commit = record {
  served = false;
  error = [];
  commit_hash = commit;
  repo_id = [];
  repo_type = [];
  actual_cid = [];
  dummy_cid = [];
  total_size = pos 0;
  files = [];
}

-- What the JSON of a response says: the source paths of its files are not sent.
unfoldable pub on_wire : MapResponse → MapResponse
on_wire r = record r { files = map strip_src r.files }
