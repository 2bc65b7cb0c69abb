-- ===== src/Pull/ReadThrough.antt =====
-- readThrough of internal/pull/pull.go: the blockstore that asks the peer for what this node lacks. The
-- local store is a parameter, as are the request to the peer and
-- blocks.NewBlockWithCid (`intact`), which compares the hash only in the debug mode of the library.
use hf_ipfs.Prelude.{ℕ, Bool, not, Option, none, some, Text, length, if◌then◌else◌, Result, ok, err}
use hf_ipfs.Cids.{CidLib}

pub data ReadError (E : Type 0) : Type 0 where
  peer_failed : E → ReadError E
  not_held not_intact : ReadError E

-- n.Fstore, of which Get and Put are used; a Put that fails is logged and leaves the store alone.
pub record LocalStore (C : Type 0) : Type 1 where
  pub Blocks : Type 0
  pub find : Blocks → C → Option Text
  pub store : Blocks → C → Text → Blocks

module _ {E : Type 0} (L : CidLib) (S : LocalStore L.Cid) (intact : Text → L.Cid → Bool)
    (ask : L.Cid → Result E (Option Text)) where
  -- What Get does with the answer of the peer.
  unfoldable pub admit :
      L.Cid → Result E (Option Text) → S.Blocks → Result (ReadError E) Text × S.Blocks
  admit c (err e) blocks = (err (peer_failed e), blocks)
  admit c (ok none) blocks = (err not_held, blocks)
  admit c (ok (some bytes)) blocks =
      if not (intact bytes c)
      then (err not_intact, blocks)
      else if not (L.is_raw c)
      then (ok bytes, S.store blocks c bytes)
      else (ok bytes, blocks)

  -- Get
  unfoldable pub read_through : L.Cid → S.Blocks → Result (ReadError E) Text × S.Blocks
  read_through c blocks = elim (S.find blocks c) [
    | some bytes ↦ (ok bytes, blocks)
    | none ↦ admit c (ask c) blocks
  ]

  -- GetSize
  unfoldable pub read_size : L.Cid → S.Blocks → Result (ReadError E) ℕ × S.Blocks
  read_size c blocks =
      let got = read_through c blocks in
      elim (S.find blocks c) [
        | some bytes ↦ (ok (length bytes), blocks)
        | none ↦ ((elim got.0 [ ok bytes ↦ ok (length bytes) | err e ↦ err e ]), got.1)
      ]
