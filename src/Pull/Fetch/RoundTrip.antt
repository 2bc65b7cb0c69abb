-- ===== src/Pull/Fetch/RoundTrip.antt =====
-- The two ends of the block protocol.
use hf_ipfs.Prelude.{
  ◌+◌, ◌-◌, ◌≤◌, ◌<◌, ◌≡◌, refl, List, [], ◌∷◌, ◌++◌, append_assoc, append-nil, Option, none, some,
  Text, length, Result, ok, err, map, arith, All, length-append,
}
use hf_ipfs.Cids.{CidLib, CidLaws}
use hf_ipfs.Protoio.{Writer, max_frame, put_uint32}
use hf_ipfs.Protoio.Frames.{frame, write_frame_lem, read_frame-frame, length-put_uint32}
use hf_ipfs.Protoio.Streams.{frames}
use hf_ipfs.Node.BlockHandler.{
  LookupError, absent, broken, more, reply, reply_to, serve_cids, serve_batch, max_block_batch,
}
use hf_ipfs.Pull.Fetch.{block_of_frame, read_blocks, fetch, request}

-- The block that a lookup holds.
abbrev pub held : Result LookupError (Option Text) → Option Text
held (ok o) = o
held (err e) = none

-- A lookup that can be answered: the store is not broken, and the block fits into a frame behind its
-- status byte.
abbrev pub IsServable : Result LookupError (Option Text) → Type 0
IsServable (err broken) = ⊥
IsServable (ok (some bs)) = length bs < max_frame
IsServable _ = Unit

-- The payload of an answer.
abbrev payload : Option Text → Text
payload none = 1 ∷ []
payload (some bs) = 0 ∷ bs

reply-payload :
    (r : Result LookupError (Option Text))
    → IsServable r
    → (reply r ≡ some (payload (held r))) × (length (payload (held r)) ≤ max_frame)
unfolding reply
reply-payload (err absent) h = (refl, omega arith)
reply-payload (err broken) h = absurd h
reply-payload (ok none) h = (refl, omega arith)
reply-payload (ok (some bs)) h = (refl, omega arith)

block_of_frame-payload : (o : Option Text) → block_of_frame (ok (payload o)) ≡ ok o
unfolding block_of_frame
block_of_frame-payload none = refl
block_of_frame-payload (some bs) = refl

module _ (L : CidLib) (laws : CidLaws L)
    (fstore_get : L.Cid → Result LookupError (Option Text)) where
  -- The bytes of the answers to a batch.
  abbrev answers : List L.Cid → Text
  answers cs = frames (map (λ c. payload (held (fstore_get c))) cs)

  serve_cids_lem :
      (cs : List L.Cid) (w : Writer)
      → All (λ c. IsServable (fstore_get c)) cs
      → length (answers cs) ≤ w.room
      → serve_cids L fstore_get (request L cs) w
        ≡ (more, record { out = w.out ++ answers cs; room = w.room - length (answers cs) })
  unfolding serve_cids reply_to
  serve_cids_lem [] w h room = rw append-nil (ground arith)
  serve_cids_lem (c ∷ cs) w (hc, h) room =
      let bs = payload (held (fstore_get c)) in
      let w' : Writer = record { out = w.out ++ frame bs; room = w.room - (4 + length bs) } in
      let (replied, fits) = reply-payload (fstore_get c) hc in
      let size : length (answers (c ∷ cs)) ≡ 4 + length bs + length (answers cs) = omega (
        arith,
        length-append (frame bs) (answers cs),
        length-append (put_uint32 (length bs)) bs,
        length-put_uint32 (length bs),
      ) in
      ground (
        arith,
        laws.decode-to_text c,
        replied,
        write_frame_lem bs w fits (omega arith),
        serve_cids_lem cs w' h (omega arith),
        append_assoc w.out (frame bs) (answers cs),
      )

  read_blocks_lem :
      (cs : List L.Cid) (rest : Text)
      → All (λ c. IsServable (fstore_get c)) cs
      → read_blocks (length cs) (answers cs ++ rest)
        ≡ (ok (map (λ c. held (fstore_get c)) cs), rest)
  unfolding read_blocks
  read_blocks_lem [] rest h = refl
  read_blocks_lem (c ∷ cs) rest (hc, h) =
      let bs = payload (held (fstore_get c)) in
      ground (
        arith,
        append_assoc (frame bs) (answers cs) rest,
        read_frame-frame bs (answers cs ++ rest) (reply-payload (fstore_get c) hc).1,
        block_of_frame-payload (held (fstore_get c)),
        read_blocks_lem cs rest h,
      )

  -- The puller reads what the seeder holds: for a batch within the limit whose lookups can be answered
  -- and for which the stream has room, the seeder goes on to the next request, and the puller gets
  -- for each CID, in order, its block or the mark that it is absent, and stands behind the answers.
  pub fetch-serve_batch :
      (cs : List L.Cid) (w : Writer) (rest : Text)
      → length (request L cs) ≤ max_block_batch
      → All (λ c. IsServable (fstore_get c)) cs
      → length (answers cs) ≤ w.room
      → (s : Text) × (serve_batch L fstore_get (request L cs) w
          ≡ (more, record { out = w.out ++ s; room = w.room - length s }))
        × (fetch L cs (ok tt) (s ++ rest) ≡ (ok (map (λ c. held (fstore_get c)) cs), rest))
  unfolding serve_batch fetch
  fetch-serve_batch [] w rest small h room = ([], serve_cids_lem [] w h room, refl)
  fetch-serve_batch (c ∷ cs) w rest small h room = (
    answers (c ∷ cs),
    ground (arith, serve_cids_lem (c ∷ cs) w h room),
    read_blocks_lem (c ∷ cs) rest h,
  )
