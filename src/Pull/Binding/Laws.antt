-- ===== src/Pull/Binding/Laws.antt =====
-- What an accepted answer guarantees, and that an honest answer is accepted.
use hf_ipfs.Protoio.{Codec, Writer, max_frame, read_frame, read_json, write_json, decode_frame}
use hf_ipfs.Protoio.Frames.{frame, write_frame_lem, read_frame-frame}
use hf_ipfs.Prelude.{
  ℕ, ◌+◌, ◌≤◌, ◌≡◌, ◌≢◌, ◌⊎◌, inl, inr, refl, Bool, true, false, not, ◌&&◌, List, [], ◌∷◌, ◌++◌,
  Option, some, Text, ap, sym, ◌∙◌, append-nil, text_eq_iff, length, take, leb, is_empty,
  if◌then◌else◌, Result, ok, err, arith, All, map, Option-cases, Result-cases, Bool-cases,
  >>=-eq-ok, length-append,
}
use hf_ipfs.Cids.{CidLib}
use hf_ipfs.Dummy.{from_commit}
use hf_ipfs.Hfcache.Safety.{safe_rel_path, safe_blob_name}
use hf_ipfs.Mapping.Entries.{FileManifest, Entry, strip_src}
use hf_ipfs.Protoio.Frames.{length-take}
use hf_ipfs.Wire.{MapRequest, MapResponse, on_wire}
use hf_ipfs.Node.MapHandler.{handle_map, answer, serve_map}
use hf_ipfs.Pull.Binding.{
  refused, max_peer_error_len, truncation_mark, truncate_peer_error, check_dummy,
  validate_map_binding, check_files, decode_actual, accept, map_exchange,
}

abbrev pub IsSafeFile : FileManifest → Type 0
IsSafeFile f = (safe_rel_path f.path ≡ true) × (safe_blob_name f.blob_name ≡ true)

bounded_take :
    (m : ℕ) (mark s : Text)
    → length (if leb (length s) m then s else take m s ++ mark) ≤ m + length mark
bounded_take m mark s = ground (arith, length-append (take m s) mark, length-take m s)

truncate_bound :
    (s : Text) → length (truncate_peer_error s) ≤ max_peer_error_len + length truncation_mark
unfolding truncate_peer_error
truncate_bound s = bounded_take max_peer_error_len truncation_mark s

is_empty-eq : (s : Text) → is_empty s ≡ true → s ≡ []
unfolding is_empty
is_empty-eq [] h = refl
is_empty-eq (c ∷ s) h = cc

module _ (L : CidLib) where
  check_files-All : (fs : List FileManifest) → check_files L fs ≡ ok tt → All IsSafeFile fs
  unfolding check_files
  check_files-All [] h = tt
  check_files-All (f ∷ fs) h = ground (arith, check_files-All fs)

  check_files-ne-refused :
      (fs : List FileManifest) (shown : Text) → check_files L fs ≢ err (refused shown)
  unfolding check_files
  check_files-ne-refused [] shown h = cc
  check_files-ne-refused (f ∷ fs) shown h = ground (arith, check_files-ne-refused fs shown)

  check_dummy_sound :
      (commit dummy : Text)
      → check_dummy L commit dummy ≡ ok tt
      → (c : L.Cid) × (from_commit L commit ≡ ok c) × (L.decode dummy ≡ some c)
  unfolding check_dummy
  check_dummy_sound commit dummy h = elim (Result-cases (from_commit L commit)) [
    | inr (e, bad) ↦ absurd (ground arith)
    | inl (want, good) ↦ elim (Option-cases (L.decode dummy)) [
      | inl bad ↦ absurd (ground arith)
      | inr (got, decoded) ↦ (want, good, ground (arith, L.cid_Eq.beq_iff got want))
    ]
  ]

  validate_sound :
      (commit : Text) (resp : MapResponse)
      → validate_map_binding L commit resp ≡ ok tt
      → (resp.commit_hash ≡ commit)
        × ((resp.dummy_cid ≡ [])
            ⊎ ((c : L.Cid) × (from_commit L commit ≡ ok c) × (L.decode resp.dummy_cid ≡ some c)))
  unfolding validate_map_binding
  validate_sound commit resp h = elim (Bool-cases (is_empty resp.dummy_cid)) [
    | inl absent ↦ (
      ground (arith, text_eq_iff resp.commit_hash commit),
      inl (is_empty-eq resp.dummy_cid absent),
    )
    | inr present ↦ (
      ground (arith, text_eq_iff resp.commit_hash commit),
      inr (
          check_dummy_sound commit resp.dummy_cid
            (ground (arith, text_eq_iff resp.commit_hash commit))),
    )
  ]

  accept_sound :
      (commit : Text) (resp got : MapResponse) (actual : L.Cid)
      → accept L commit resp ≡ ok (actual, got)
      → (got ≡ resp)
        × (L.decode resp.actual_cid ≡ some actual)
        × ((resp.commit_hash ≡ commit)
            × ((resp.dummy_cid ≡ [])
                ⊎ ((c : L.Cid) × (from_commit L commit ≡ ok c)
                    × (L.decode resp.dummy_cid ≡ some c))))
        × All IsSafeFile resp.files
  unfolding accept decode_actual
  accept_sound commit resp got actual h =
      let (u, valid, after_valid) = >>=-eq-ok (validate_map_binding L commit resp) _ h in
      let (v, safe, after_safe) = >>=-eq-ok (check_files L resp.files) _ after_valid in
      elim (Option-cases (L.decode resp.actual_cid)) [
        | inl bad ↦ absurd (ground arith)
        | inr (c, decoded) ↦ (
          ground arith,
          ground arith,
          validate_sound commit resp valid,
          check_files-All resp.files safe,
        )
      ]

  -- A puller goes on only with an answer that the peer gave as a success, that is about the commit
  -- asked for, whose dummy CID, if there is one, is that of the commit, whose content CID can be
  -- decoded, and whose files all have a safe path and a safe blob name.
  pub map_exchange_sound :
      (commit : Text) (resp got : MapResponse) (actual : L.Cid)
      → map_exchange L commit (ok resp) ≡ ok (actual, got)
      → (got ≡ resp)
        × (resp.served ≡ true)
        × (resp.commit_hash ≡ commit)
        × ((resp.dummy_cid ≡ [])
            ⊎ ((c : L.Cid) × (from_commit L commit ≡ ok c) × (L.decode resp.dummy_cid ≡ some c)))
        × (L.decode resp.actual_cid ≡ some actual)
        × All IsSafeFile resp.files
  unfolding map_exchange
  map_exchange_sound commit resp got actual h =
      let (same, dec, binding, safe) = accept_sound commit resp got actual (ground arith) in
      (same, ground arith, binding.0, binding.1, dec, safe)

  accept-ne-refused :
      (commit : Text) (resp : MapResponse) (shown : Text)
      → accept L commit resp ≢ err (refused shown)
  unfolding accept validate_map_binding check_dummy decode_actual
  accept-ne-refused commit resp shown h = ground (arith, check_files-ne-refused resp.files shown)

  refused-eq :
      (commit : Text) (resp : MapResponse) (shown : Text)
      → map_exchange L commit (ok resp) ≡ err (refused shown)
      → shown ≡ truncate_peer_error resp.error
  unfolding map_exchange
  refused-eq commit resp shown h = ground (arith, accept-ne-refused commit resp shown)

  -- What a refusing peer can put into the puller's error is bounded, however long its text is.
  pub refused_bound :
      (commit : Text) (resp : MapResponse) (shown : Text)
      → map_exchange L commit (ok resp) ≡ err (refused shown)
      → length shown ≤ max_peer_error_len + length truncation_mark
  refused_bound commit resp shown h =
      rw (refused-eq commit resp shown h) (truncate_bound resp.error)

  validate_complete :
      (commit : Text) (resp : MapResponse) (c : L.Cid)
      → resp.commit_hash ≡ commit
      → from_commit L commit ≡ ok c
      → L.decode resp.dummy_cid ≡ some c
      → validate_map_binding L commit resp ≡ ok tt
  unfolding validate_map_binding check_dummy
  validate_complete commit resp c same known decoded =
      ground
        (arith, same, known, decoded, text_eq_iff resp.commit_hash commit, L.cid_Eq.beq_iff c c)

  check_files-strip_src :
      (fs : List FileManifest) → All IsSafeFile fs → check_files L (map strip_src fs) ≡ ok tt
  unfolding check_files strip_src
  check_files-strip_src [] h = refl
  check_files-strip_src (f ∷ fs) h = ground (arith, check_files-strip_src fs)

  accept_complete :
      (commit : Text) (resp : MapResponse) (actual : L.Cid)
      → validate_map_binding L commit resp ≡ ok tt
      → check_files L resp.files ≡ ok tt
      → L.decode resp.actual_cid ≡ some actual
      → accept L commit resp ≡ ok (actual, resp)
  unfolding accept decode_actual
  accept_complete commit resp actual valid safe decoded = ground arith

-- What Put has recorded for a commit that this node shares: an entry under its own commit hash, with
-- the dummy CID of the commit, a content CID that can be decoded, and safe names.
pub record IsShareable (L : CidLib) (commit : Text) (e : Entry) (actual : L.Cid) : Type 0 where
  pub dummy : (c : L.Cid) × (from_commit L commit ≡ ok c) × (L.decode e.dummy_cid ≡ some c)
  pub content : L.decode e.actual_cid ≡ some actual
  pub safe : All IsSafeFile e.files

-- A message that fits into a frame is read back as what its JSON says.
read_json-write_json :
    {A : Type 0} (c : Codec A) (v v' : A) (bs : Text) (room : ℕ)
    → c.marshal v ≡ some bs
    → c.unmarshal bs ≡ some v'
    → length bs ≤ max_frame
    → 4 + length bs ≤ room
    → ((write_json c v (record { out = []; room = room })).0 ≡ ok tt)
      × ((read_json c (write_json c v (record { out = []; room = room })).1.out).0 ≡ ok v')
unfolding write_json read_json decode_frame
read_json-write_json c v v' bs room written read fits space =
    let sent = write_frame_lem bs (record { out = []; room = room }) fits space in
    let back : read_frame (frame bs) ≡ (ok bs, []) =
      ap read_frame (sym (append-nil (frame bs))) ∙ read_frame-frame bs [] fits in
    (ground (arith, written, sent), ground (arith, written, sent, back, read))

module _ {ℓ} (L : CidLib) {E : Type ℓ} (mapping_get : Text → Result E (Option Entry))
    (requests : Codec MapRequest) (responses : Codec MapResponse) where
  handle_map-answer :
      (commit repo : Text) (o : Option Entry) (c : L.Cid) (is_relayed relay_bulk : Bool)
      → (is_relayed && not relay_bulk) ≡ false
      → mapping_get commit ≡ ok o
      → from_commit L commit ≡ ok c
      → handle_map L mapping_get is_relayed relay_bulk
          (ok (record { commit_hash = commit; repo_id = repo }))
        ≡ some (answer {E = E} commit (ok o))
  unfolding handle_map
  handle_map-answer commit repo o c is_relayed relay_bulk allowed found known =
      ground (arith, known, allowed, found)

  serve_map_lem :
      (is_relayed relay_bulk : Bool) (s : Text) (w : Writer) (req : MapRequest) (resp : MapResponse)
      → (read_json requests s).0 ≡ ok req
      → handle_map L mapping_get is_relayed relay_bulk (ok req) ≡ some resp
      → serve_map L mapping_get requests responses is_relayed relay_bulk s w
        ≡ (write_json responses resp w).1
  unfolding serve_map
  serve_map_lem is_relayed relay_bulk s w req resp heard handled = ground (arith, heard, handled)

  -- The two ends of the map protocol agree, for a JSON that keeps a request and drops the source paths of a
  -- response. Where the request and the answer fit into frames and the connections take them, and a node
  -- that is not asked over a relay, or allows it, shares the commit under a sound entry, the puller accepts
  -- what it reads back, with the content CID, the files without their source paths, and the size of the
  -- entry.
  pub map_exchange-handle_map :
      (commit repo : Text) (e : Entry) (actual : L.Cid) (is_relayed relay_bulk : Bool)
      (qs bs : Text) (n m : ℕ)
      → ((q : MapRequest) (s : Text) → requests.marshal q ≡ some s → requests.unmarshal s ≡ some q)
      → ((r : MapResponse) (s : Text)
          → responses.marshal r ≡ some s
          → responses.unmarshal s ≡ some (on_wire r))
      → (is_relayed && not relay_bulk) ≡ false
      → mapping_get commit ≡ ok (some e)
      → IsShareable L commit e actual
      → requests.marshal (record { commit_hash = commit; repo_id = repo }) ≡ some qs
      → responses.marshal (answer {E = E} commit (ok (some e))) ≡ some bs
      → length qs ≤ max_frame
      → 4 + length qs ≤ n
      → length bs ≤ max_frame
      → 4 + length bs ≤ m
      → (got : MapResponse) × (map_exchange L commit
            (read_json responses
              (serve_map L mapping_get requests responses is_relayed relay_bulk
                (write_json requests
                  (record { commit_hash = commit; repo_id = repo })
                  (record { out = []; room = n })).1.out
                (record { out = []; room = m })).out).0
          ≡ ok (actual, got))
        × (got.files ≡ map strip_src e.files)
        × (got.total_size ≡ e.total_size)
  unfolding answer map_exchange on_wire
  map_exchange-handle_map commit repo e actual is_relayed relay_bulk qs bs n m keeps strips allowed
        found s asked answered small enough short roomy =
      let (c, known, decoded) = s.dummy in
      let req : MapRequest = record { commit_hash = commit; repo_id = repo } in
      let resp = answer {E = E} commit (ok (some e)) in
      let (sent, heard) =
        read_json-write_json requests req req qs n asked (keeps req qs asked) small enough in
      let (replied, back) =
        read_json-write_json responses resp (on_wire resp) bs m answered (strips resp bs answered)
          short roomy in
      let accepted =
        accept_complete L commit (on_wire resp) actual
          (validate_complete L commit (on_wire resp) c refl known decoded)
          (check_files-strip_src L e.files s.safe) s.content in
      let served =
        serve_map_lem is_relayed relay_bulk
          (write_json requests req (record { out = []; room = n })).1.out
          (record { out = []; room = m }) req resp heard
          (handle_map-answer commit repo (some e) c is_relayed relay_bulk allowed found known) in
      let read = ap (λ (w : Writer). (read_json responses w.out).0) served ∙ back in
      (on_wire resp, ap (map_exchange L commit) read ∙ accepted, refl, refl)
