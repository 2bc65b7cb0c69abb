-- ===== src/Node/BlockHandler.antt =====
-- handleBlocks of internal/node/node.go. The deadlines are left out: a request that is not read in
-- time ends the list of requests.
use hf_ipfs.Prelude.{
  ℕ, Bool, not, ◌&&◌, List, [], ◌∷◌, Option, none, some, Text, length, ltb, if◌then◌else◌, Result,
  ok, err,
}
use hf_ipfs.Cids.{CidLib}
use hf_ipfs.Protoio.{Writer, write_frame}
use hf_ipfs.Wire.{block_ok, block_not_found}

abbrev pub max_block_batch : ℕ
max_block_batch = 1024

-- What isNotFound tells apart in the error of Fstore.Get.
pub data LookupError : Type 0 where
  absent broken : LookupError

-- How the handling of a stream, or of a part of it, ended: it goes on, it was closed, or reset.
pub data Ending : Type 0 where
  more closed was_reset : Ending

-- The frame that answers a lookup; a block may be nil without an error.
unfoldable pub reply : Result LookupError (Option Text) → Option Text
reply (err absent) = some (block_not_found ∷ [])
reply (err broken) = none
reply (ok none) = some (block_not_found ∷ [])
reply (ok (some bs)) = some (block_ok ∷ bs)

module _ (L : CidLib) (fstore_get : L.Cid → Result LookupError (Option Text)) where
  -- The frame that answers one requested text; `none` resets the stream.
  unfoldable pub reply_to : Text → Option Text
  unfolding reply
  reply_to text = elim (L.decode text) [
    | none ↦ some (block_not_found ∷ [])
    | some c ↦ reply (fstore_get c)
  ]

  -- The loop over the CIDs of one request.
  unfoldable pub serve_cids : List Text → Writer → Ending × Writer
  serve_cids [] w = (more, w)
  serve_cids (text ∷ texts) w = elim (reply_to text) [
    | none ↦ (was_reset, w)
    | some payload ↦
        let (r, w') = write_frame payload w in
        elim r [ ok u ↦ serve_cids texts w' | err e ↦ (closed, w') ]
  ]

  unfoldable pub serve_batch : List Text → Writer → Ending × Writer
  serve_batch texts w =
      if ltb max_block_batch (length texts) then (was_reset, w) else serve_cids texts w

  -- The loop over the requests of a stream.
  unfoldable pub serve_requests : List (List Text) → Writer → Ending × Writer
  serve_requests [] w = (closed, w)
  serve_requests (texts ∷ requests) w =
      let (ending, w') = serve_batch texts w in
      elim ending [
        | more ↦ serve_requests requests w'
        | closed ↦ (closed, w')
        | was_reset ↦ (was_reset, w')
      ]

  -- handleBlocks; `is_relayed` is relayed(s), and `relay_bulk` the setting.
  unfoldable pub handle_blocks : Bool → Bool → List (List Text) → Writer → Ending × Writer
  handle_blocks is_relayed relay_bulk requests w =
      if is_relayed && not relay_bulk then (was_reset, w) else serve_requests requests w
