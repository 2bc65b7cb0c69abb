-- ===== src/Node/MapHandler.antt =====
-- handleMap of internal/node/node.go, `serve_map`: what it answers, and its frames. The deadlines are left out, and so is the log.
use hf_ipfs.Prelude.{
  Bool, true, not, ◌&&◌, Option, none, some, Text, codes, if◌then◌else◌, Result, ok, err,
}
use hf_ipfs.Cids.{CidLib}
use hf_ipfs.Dummy.{from_commit}
use hf_ipfs.Mapping.Entries.{Entry}
use hf_ipfs.Protoio.{FrameError, Codec, Writer, read_json, write_json}
use hf_ipfs.Wire.{MapRequest, MapResponse, empty_response}

abbrev pub bad_commit_error : Text
bad_commit_error = codes "commit hash must be 40 hex characters"

abbrev pub relay_error : Text
relay_error =
    codes
      "peer will not stream bulk data over a circuit relay; it needs a publicly reachable address, or the seeder must run with --relay-bulk"

abbrev pub lookup_error : Text
lookup_error = codes "lookup failed"

abbrev pub unknown_error : Text
unknown_error = codes "commit not shared by this peer"

-- The switch on the result of Mapping.Get.
unfoldable pub answer {ℓ} : {E : Type ℓ} → Text → Result E (Option Entry) → MapResponse
answer commit (err e) = record (empty_response commit) { error = lookup_error }
answer commit (ok none) = record (empty_response commit) { error = unknown_error }
answer commit (ok (some entry)) = record (empty_response commit) {
  served = true;
  repo_id = entry.repo_id;
  repo_type = entry.repo_type;
  actual_cid = entry.actual_cid;
  dummy_cid = entry.dummy_cid;
  total_size = entry.total_size;
  files = entry.files;
}

module _ {ℓ} (L : CidLib) {E : Type ℓ} (mapping_get : Text → Result E (Option Entry)) where
  -- `is_relayed` is relayed(s), and `relay_bulk` the setting. There is no answer to a request that
  -- cannot be read.
  unfoldable pub handle_map : Bool → Bool → Result FrameError MapRequest → Option MapResponse
  unfolding answer
  handle_map is_relayed relay_bulk (err e) = none
  handle_map is_relayed relay_bulk (ok req) = elim (from_commit L req.commit_hash) [
    | err e ↦ some (record (empty_response req.commit_hash) { error = bad_commit_error })
    | ok c ↦
        if is_relayed && not relay_bulk
        then some (record (empty_response req.commit_hash) { error = relay_error })
        else some (answer req.commit_hash (mapping_get req.commit_hash))
  ]

  -- handleMap on a stream: what there is to read, and the writer of the answer. A failed write is logged.
  unfoldable pub serve_map :
      Codec MapRequest → Codec MapResponse → Bool → Bool → Text → Writer → Writer
  serve_map requests responses is_relayed relay_bulk s w =
      elim (handle_map is_relayed relay_bulk (read_json requests s).0) [
        | none ↦ w
        | some resp ↦ (write_json responses resp w).1
      ]
