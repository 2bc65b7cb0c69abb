-- ===== src/Tests/Streams.antt =====
-- Frames, dummy CIDs, the two protocols and the walks of a DAG, at concrete inputs.
use hf_ipfs.Tests.Codings.{request_json, response_json, request_json_lem, response_json_lem}
use hf_ipfs.Node.MapHandler.{serve_map, answer}
use hf_ipfs.Protoio.{read_json, write_json}
use hf_ipfs.Wire.{MapRequest}
use hf_ipfs.Prelude.{
  ◌-◌, ◌≤◌, ◌≡◌, ◌⊎◌, refl, true, false, List, [], ◌∷◌, ◌++◌, Option, none, some, Text, codes,
  to_lower, length, take, map, All, Result, ok, err, arith, split, push_byte, is_empty, text_eq,
  has_byte, has_prefix,
}
use hf_ipfs.Prelude.Int64.{pos}
use hf_ipfs.Prelude.Table.{text_Eq}
use hf_ipfs.Protoio.{
  Writer, read_frame, read_payload, read_full, put_uint32, get_uint32, max_frame, unexpected_eof,
}
use hf_ipfs.Protoio.Frames.{frame}
use hf_ipfs.Protoio.Streams.{
  read_frames, write_frames, read_frames-write_frames, read_frame_sound, read_frame-truncated,
}
use hf_ipfs.Cids.Concrete.{plain_cids, plain_cids-CidLaws}
use hf_ipfs.Dummy.{from_commit, commit_of, hex_decode, hex_value, join_nibbles}
use hf_ipfs.Dummy.RoundTrip.{commit_of-from_commit}
use hf_ipfs.Hfcache.Safety.{safe_rel_path, safe_segments, safe_blob_name}
use hf_ipfs.Mapping.Entries.{Entry, FileManifest, strip_src}
use hf_ipfs.Wire.{MapResponse, empty_response, on_wire}
use hf_ipfs.Node.BlockHandler.{LookupError, absent, more, serve_batch}
use hf_ipfs.Pull.Binding.{
  map_exchange, accept, validate_map_binding, check_dummy, check_files, decode_actual,
}
use hf_ipfs.Pull.Binding.Laws.{IsSafeFile, IsShareable, map_exchange_sound, map_exchange-handle_map}
use hf_ipfs.Pull.Fetch.{fetch, request}
use hf_ipfs.Pull.Fetch.RoundTrip.{fetch-serve_batch}
use hf_ipfs.Pull.Leaves.{collect_leaves}
use hf_ipfs.Pull.Leaves.Budget.{flatten, flatten_all, within_budget, collect_leaves-flatten}

abbrev payloads : List Text
payloads = codes "one" ∷ [] ∷ codes "two" ∷ []

abbrev roomy : Writer
roomy = record { out = []; room = 100 }

read_frames-write_frames_example :
    (s : Text) × (write_frames payloads roomy ≡ (ok tt, record { out = s; room = 100 - length s }))
    × (read_frames 3 (s ++ codes "rest") ≡ (ok payloads, codes "rest"))
unfolding put_uint32
read_frames-write_frames_example =
    read_frames-write_frames payloads roomy (codes "rest")
      (omega arith, (omega arith, (omega arith, tt))) (omega arith)

abbrev framed : Text
framed = 0 ∷ 0 ∷ 0 ∷ 2 ∷ codes "hi!"

read_frame_sound_example :
    (length (codes "hi") ≤ max_frame)
    × (hdr : Text) × (length hdr ≡ 4)
    × (get_uint32 hdr ≡ length (codes "hi"))
    × (framed ≡ hdr ++ codes "hi" ++ codes "!")
unfolding read_frame read_payload read_full get_uint32
read_frame_sound_example = read_frame_sound framed (codes "hi") (codes "!") refl

read_frame-truncated_example : read_frame (take 5 (frame (codes "hi"))) ≡ (err unexpected_eof, [])
read_frame-truncated_example = read_frame-truncated (codes "hi") 5 (omega arith) (omega arith)

abbrev some_commit : Text
some_commit = codes "00112233445566778899aabbccddeeff00112233"

abbrev upper_commit : Text
upper_commit = codes "00112233445566778899AABBCCDDEEFF00112233"

abbrev raw_commit : Text
raw_commit =
    0 ∷ 17 ∷ 34 ∷ 51 ∷ 68 ∷ 85 ∷ 102 ∷ 119 ∷ 136 ∷ 153 ∷ 170 ∷ 187 ∷ 204 ∷ 221 ∷ 238 ∷ 255 ∷ 0 ∷ 17
    ∷ 34 ∷ 51 ∷ []

abbrev dummy_cid : Text
dummy_cid = 0x70 ∷ 0 ∷ 20 ∷ raw_commit

upper_commit_dummy : from_commit plain_cids upper_commit ≡ ok dummy_cid
unfolding from_commit hex_decode hex_value join_nibbles
upper_commit_dummy = refl

some_commit_dummy : from_commit plain_cids some_commit ≡ ok dummy_cid
unfolding from_commit hex_decode hex_value join_nibbles
some_commit_dummy = refl

some_commit_decoded : hex_decode some_commit ≡ some raw_commit
unfolding hex_decode hex_value join_nibbles
some_commit_decoded = refl

commit_of-from_commit_example : commit_of plain_cids dummy_cid ≡ ok (to_lower upper_commit)
commit_of-from_commit_example =
    commit_of-from_commit plain_cids plain_cids-CidLaws upper_commit dummy_cid upper_commit_dummy

abbrev shared_file : FileManifest
shared_file = record {
  path = codes "config.json";
  blob_name = codes "abc123";
  size = pos 2;
  sha256 = codes "hi";
  mode = 420;
  mtime = pos 7;
  lfs = false;
  xet_hash = [];
  src_path = codes "/hub/blob";
}

abbrev shared_entry : Entry
shared_entry = record {
  repo_id = codes "org/model";
  repo_type = codes "model";
  commit_hash = some_commit;
  actual_cid = codes "Q";
  dummy_cid = dummy_cid;
  files = shared_file ∷ [];
  total_size = pos 2;
  origin = codes "ingest";
}

abbrev good_response : MapResponse
good_response = record (empty_response some_commit) {
  served = true;
  actual_cid = codes "Q";
  dummy_cid = dummy_cid;
  files = shared_file ∷ [];
}

shared_file-IsSafeFile : IsSafeFile shared_file
unfolding safe_rel_path safe_segments safe_blob_name has_byte split push_byte is_empty text_eq
    has_prefix
shared_file-IsSafeFile = (refl, refl)

map_exchange_sound_example :
    (good_response ≡ good_response)
    × (true ≡ true)
    × (some_commit ≡ some_commit)
    × ((dummy_cid ≡ [])
        ⊎ ((c : Text) × (from_commit plain_cids some_commit ≡ ok c) × (some dummy_cid ≡ some c)))
    × (some (codes "Q") ≡ some (codes "Q"))
    × All IsSafeFile (shared_file ∷ [])
unfolding map_exchange accept validate_map_binding check_dummy check_files decode_actual
    safe_rel_path safe_segments safe_blob_name has_byte split push_byte is_empty text_eq has_prefix
    from_commit hex_decode hex_value join_nibbles
map_exchange_sound_example =
    map_exchange_sound plain_cids some_commit good_response good_response (codes "Q") refl

shared_entry-IsShareable : IsShareable plain_cids some_commit shared_entry (codes "Q")
shared_entry-IsShareable = record {
  dummy = (dummy_cid, some_commit_dummy, refl);
  content = refl;
  safe = (shared_file-IsSafeFile, tt);
}

abbrev shared_request : MapRequest
shared_request = record { commit_hash = some_commit; repo_id = codes "org/model" }

abbrev shared_question : Text
shared_question = elim (request_json.marshal shared_request) [ none ↦ [] | some s ↦ s ]

abbrev shared_answer : Text
shared_answer =
    elim (response_json.marshal (answer {E = Unit {0}} some_commit (ok (some shared_entry)))) [
      | none ↦ []
      | some s ↦ s
    ]

map_exchange-handle_map_example :
    (got : MapResponse) × (map_exchange plain_cids some_commit
        (read_json response_json
          (serve_map plain_cids {E = Unit {0}}
            (λ commit. ok (some shared_entry))
            request_json
            response_json
            false
            false
            (write_json request_json shared_request (record { out = []; room = 1000 })).1.out
            (record { out = []; room = 1000 })).out).0
      ≡ ok (codes "Q", got))
    × (got.files ≡ map strip_src (shared_file ∷ []))
    × (got.total_size ≡ pos 2)
unfolding answer on_wire strip_src
map_exchange-handle_map_example =
    map_exchange-handle_map plain_cids (λ commit. ok (some shared_entry)) request_json response_json
      some_commit (codes "org/model") shared_entry (codes "Q") false false shared_question
      shared_answer 1000 1000 request_json_lem response_json_lem refl refl shared_entry-IsShareable
      refl refl (omega arith) (omega arith) (omega arith) (omega arith)

-- A store that holds every block but one.
abbrev toy_store : Text → Result LookupError (Option Text)
toy_store [] = err absent
toy_store (c ∷ s) = ok (some s)

fetch-serve_batch_example :
    (s : Text) × (serve_batch plain_cids toy_store
        (request plain_cids (codes "Uab" ∷ [] ∷ []))
        roomy
      ≡ (more, record { out = s; room = 100 - length s }))
    × (fetch plain_cids (codes "Uab" ∷ [] ∷ []) (ok tt) (s ++ [])
        ≡ (ok (some (codes "ab") ∷ none ∷ []), []))
unfolding put_uint32
fetch-serve_batch_example =
    fetch-serve_batch plain_cids plain_cids-CidLaws toy_store (codes "Uab" ∷ [] ∷ []) roomy []
      (omega arith) (omega arith, (tt, tt)) (omega arith)

-- A node "p" that links to two leaves.
abbrev toy_links : Text → Result (Unit {0}) (List Text)
toy_links c = ok (codes "Ua" ∷ codes "Ub" ∷ [])

collect_leaves-flatten_example :
    collect_leaves plain_cids toy_links 5 2 (codes "p") []
    ≡ within_budget plain_cids toy_links 5 [] (codes "Ua" ∷ codes "Ub" ∷ [])
unfolding flatten flatten_all
collect_leaves-flatten_example =
    collect_leaves-flatten plain_cids toy_links 5 2 (codes "p") [] (codes "Ua" ∷ codes "Ub" ∷ [])
      refl (omega arith)
