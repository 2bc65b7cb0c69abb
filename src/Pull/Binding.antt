-- ===== src/Pull/Binding.antt =====
-- mapExchange and validateMapBinding of internal/pull/pull.go: what a puller accepts as the answer to
-- its map request. Connecting and the streams are left out: the answer that was read is an argument.
pub mod Laws
use hf_ipfs.Prelude.{
  ℕ, ◌<◌, Bool, true, false, not, ◌&&◌, ◌||◌, List, [], ◌∷◌, ◌++◌, Option, none, some, Text, codes,
  text_eq, length, take, leb, is_empty, if◌then◌else◌, Result, ok, err, ◌>>=◌, ◌>>◌, guard,
}
use hf_ipfs.Prelude.Table.{Eq}
use hf_ipfs.Cids.{CidLib}
use hf_ipfs.Dummy.{from_commit, DummyError}
use hf_ipfs.Hfcache.Safety.{safe_rel_path, safe_blob_name}
use hf_ipfs.Mapping.Entries.{FileManifest}
use hf_ipfs.Protoio.{FrameError}
use hf_ipfs.Wire.{MapResponse}

pub data MapError : Type 0 where
  unreadable : FrameError → MapError
  refused : Text → MapError
  other_commit no_dummy_cid bad_dummy_cid other_dummy_cid unsafe_manifest bad_actual_cid : MapError

abbrev pub max_peer_error_len : ℕ
max_peer_error_len = 512

-- "… (truncated)" in UTF-8
abbrev pub truncation_mark : Text
truncation_mark = 0xE2 ∷ 0x80 ∷ 0xA6 ∷ codes " (truncated)"

-- truncatePeerError
unfoldable pub truncate_peer_error : Text → Text
truncate_peer_error s =
    if leb (length s) max_peer_error_len then s else take max_peer_error_len s ++ truncation_mark

module _ (L : CidLib) where
  open L use {Cid, cid_Eq, decode}

  -- The tests of validateMapBinding on a dummy CID that is present.
  unfoldable pub check_dummy : Text → Text → Result MapError (Unit {0})
  check_dummy commit dummy = elim (from_commit L commit) [
    | err e ↦ err no_dummy_cid
    | ok want ↦ elim (decode dummy) [
      | none ↦ err bad_dummy_cid
      | some got ↦ guard (cid_Eq.beq got want) other_dummy_cid
    ]
  ]

  -- validateMapBinding
  unfoldable pub validate_map_binding : Text → MapResponse → Result MapError (Unit {0})
  unfolding check_dummy
  validate_map_binding commit resp =
      if not (text_eq resp.commit_hash commit)
      then err other_commit
      else if is_empty resp.dummy_cid
      then ok tt
      else check_dummy commit resp.dummy_cid

  -- The loop of mapExchange over the manifest.
  unfoldable pub check_files : List FileManifest → Result MapError (Unit {0})
  check_files [] = ok tt
  check_files (f ∷ fs) =
      if not (safe_rel_path f.path) || not (safe_blob_name f.blob_name)
      then err unsafe_manifest
      else check_files fs

  unfoldable pub decode_actual : MapResponse → Result MapError (Cid × MapResponse)
  decode_actual resp = elim (decode resp.actual_cid) [
    | none ↦ err bad_actual_cid
    | some actual ↦ ok (actual, resp)
  ]

  -- The tests of mapExchange on a response that reports success.
  unfoldable pub accept : Text → MapResponse → Result MapError (Cid × MapResponse)
  accept commit resp = do
    validate_map_binding commit resp
    check_files resp.files
    decode_actual resp

  -- mapExchange, from the response frame on.
  unfoldable pub map_exchange :
      Text → Result FrameError MapResponse → Result MapError (Cid × MapResponse)
  map_exchange commit (err e) = err (unreadable e)
  map_exchange commit (ok resp) =
      if not resp.served then err (refused (truncate_peer_error resp.error)) else accept commit resp
