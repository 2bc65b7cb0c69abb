-- ===== src/Pull/Sources.antt =====
-- internal/pull/sources.go
pub mod Laws
use hf_ipfs.Prelude.{
  Bool, true, false, ◌&&◌, ◌||◌, not, List, [], ◌∷◌, ◌++◌, Text, codes, text_eq, split, join,
  to_lower, trim_space, is_empty, if◌then◌else◌, Result, ok, err,
}

pub record Sources : Type 0 where
  pub p2p : Bool
  pub hf : Bool

pub data SourceError : Type 0 where
  unknown_source : Text → SourceError
  no_source : SourceError

-- DefaultSources
abbrev pub default_sources : Sources
default_sources = record { p2p = true; hf = true }

-- The cases of the switch in ParseSources.
unfoldable pub is_p2p_word : Text → Bool
is_p2p_word w =
    text_eq w (codes "p2p")
    || text_eq w (codes "ipfs")
    || text_eq w (codes "swarm")
    || text_eq w (codes "peer")

unfoldable pub is_hf_word : Text → Bool
is_hf_word w =
    text_eq w (codes "hf")
    || text_eq w (codes "huggingface")
    || text_eq w (codes "hugging-face")
    || text_eq w (codes "hub")

-- strings.ToLower(strings.TrimSpace(tok))
unfoldable pub word : Text → Text
word tok = to_lower (trim_space tok)

-- The loop of ParseSources over the tokens.
unfoldable pub parse_tokens : List Text → Sources → Result SourceError Sources
parse_tokens [] s = ok s
parse_tokens (tok ∷ toks) s =
    let as_p2p = parse_tokens toks (record s { p2p = true }) in
    let as_hf = parse_tokens toks (record s { hf = true }) in
    let skipped = parse_tokens toks s in
    if is_p2p_word (word tok)
    then as_p2p
    else if is_hf_word (word tok)
    then as_hf
    else if is_empty (word tok)
    then skipped
    else err (unknown_source tok)

-- The test behind the loop.
unfoldable pub require_source : Result SourceError Sources → Result SourceError Sources
require_source (err e) = err e
require_source (ok s) = if not s.p2p && not s.hf then err no_source else ok s

-- ParseSources
unfoldable pub parse_sources : Text → Result SourceError Sources
parse_sources spec =
    if is_empty (trim_space spec)
    then ok default_sources
    else require_source (parse_tokens (split b',' spec) (record { p2p = false; hf = false }))

-- Sources.String
unfoldable pub sources_text : Sources → Text
sources_text s =
    join b',' ((if s.p2p then codes "p2p" ∷ [] else []) ++ (if s.hf then codes "hf" ∷ [] else []))

-- Sources.resolve
unfoldable pub resolve : Sources → Sources
resolve s = if s.p2p || s.hf then s else default_sources
