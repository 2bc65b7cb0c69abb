-- ===== src/Pull/Fetch.antt =====
-- blockClient.Fetch of internal/pull/pull.go: one response frame for each requested block, in order.
pub mod RoundTrip
use hf_ipfs.Prelude.{
  ℕ, zero, suc, List, [], ◌∷◌, Option, none, some, Text, length, ◌==◌, if◌then◌else◌, Result, ok,
  err, ◌>>=◌, map,
}
use hf_ipfs.Cids.{CidLib}
use hf_ipfs.Protoio.{FrameError, read_frame}
use hf_ipfs.Wire.{block_not_found}

pub data FetchError : Type 0 where
  send_failed read_failed : FrameError → FetchError
  empty_status_frame : FetchError

-- What one response frame says: its first byte is the status.
unfoldable pub block_of_frame : Result FrameError Text → Result FetchError (Option Text)
block_of_frame (err e) = err (read_failed e)
block_of_frame (ok []) = err empty_status_frame
block_of_frame (ok (status ∷ bs)) = if status == block_not_found then ok none else ok (some bs)

-- The loop of Fetch over the requested CIDs, on the stream of the peer's answers.
unfoldable pub read_blocks : ℕ → Text → Result FetchError (List (Option Text)) × Text
unfolding block_of_frame
read_blocks zero s = (ok [], s)
read_blocks (suc n) s =
    let (r, s') = read_frame s in
    let (rs, rest) = read_blocks n s' in
    elim (block_of_frame r) [ err e ↦ (err e, s') | ok b ↦ ((do bs ← rs; ok (b ∷ bs)), rest) ]

module _ (L : CidLib) where
  -- Fetch; `sent` is the result of writing the request, and nothing is asked for an empty batch.
  unfoldable pub fetch :
      List L.Cid
      → Result FrameError (Unit {0})
      → Text
      → Result FetchError (List (Option Text)) × Text
  fetch [] sent s = (ok [], s)
  fetch (c ∷ cs) (err e) s = (err (send_failed e), s)
  fetch (c ∷ cs) (ok u) s = read_blocks (length (c ∷ cs)) s

  -- The texts of the request.
  abbrev pub request : List L.Cid → List Text
  request = map L.to_text
