-- ===== src/Pull/Sources/Laws.antt =====
-- What ParseSources accepts, and that its canonical form is read back.
use hf_ipfs.Prelude.{
  ◌≡◌, refl, Bool, true, false, ◌||◌, List, [], ◌∷◌, Text, codes, text_eq, text_eq_sound, split,
  join, to_lower, trim_space, is_empty, push_byte, ok, arith, All,
}
use hf_ipfs.Pull.Sources.{
  Sources, is_p2p_word, is_hf_word, word, parse_tokens, require_source, parse_sources, sources_text,
  resolve,
}

parse_sources-sources_text_cases :
    (p h : Bool)
    → parse_sources (sources_text (record { p2p = p; hf = h }))
      ≡ ok (resolve (record { p2p = p; hf = h }))
unfolding parse_sources parse_tokens require_source is_p2p_word is_hf_word word split push_byte join
    text_eq to_lower trim_space is_empty sources_text resolve
parse_sources-sources_text_cases true true = refl
parse_sources-sources_text_cases true false = refl
parse_sources-sources_text_cases false true = refl
parse_sources-sources_text_cases false false = refl

-- Parsing the canonical form of any selection gives the selection that it stands for: itself, or
-- the default where nothing is selected.
pub parse_sources-sources_text : (s : Sources) → parse_sources (sources_text s) ≡ ok (resolve s)
parse_sources-sources_text s = parse_sources-sources_text_cases s.p2p s.hf

abbrev pub any : (Text → Bool) → List Text → Bool
any p [] = false
any p (t ∷ ts) = p t || any p ts

abbrev pub Known : Text → Type 0
Known tok = (is_p2p_word (word tok) || is_hf_word (word tok) || is_empty (word tok)) ≡ true

module _ (w : Text) where
  is_hf_word_of_eq : (a : Text) → is_hf_word a ≡ false → text_eq w a ≡ true → is_hf_word w ≡ false
  is_hf_word_of_eq a differs e = rw (text_eq_sound w a e) differs

  -- A word of one source is no word of the other.
  p2p_word-ne-hf_word : is_p2p_word w ≡ true → is_hf_word w ≡ false
  unfolding is_p2p_word
  p2p_word-ne-hf_word h = ground (
    arith,
    is_hf_word_of_eq (codes "p2p") (unfold is_hf_word text_eq in refl),
    is_hf_word_of_eq (codes "ipfs") (unfold is_hf_word text_eq in refl),
    is_hf_word_of_eq (codes "swarm") (unfold is_hf_word text_eq in refl),
    is_hf_word_of_eq (codes "peer") (unfold is_hf_word text_eq in refl),
  )

  -- The empty word is no word of a source.
  empty-ne-source : is_empty w ≡ true → (is_p2p_word w ≡ false) × (is_hf_word w ≡ false)
  unfolding is_empty is_p2p_word is_hf_word text_eq
  empty-ne-source h = go w h
    where
      go : (v : Text) → is_empty v ≡ true → (is_p2p_word v ≡ false) × (is_hf_word v ≡ false)
      go [] e = (refl, refl)
      go (c ∷ v) e = cc

parse_tokens_exact :
    (toks : List Text) (s t : Sources)
    → parse_tokens toks s ≡ ok t
    → All Known toks
      × (t.p2p ≡ (s.p2p || any (λ w. is_p2p_word (word w)) toks))
      × (t.hf ≡ (s.hf || any (λ w. is_hf_word (word w)) toks))
unfolding parse_tokens
parse_tokens_exact [] s t h = ground arith
parse_tokens_exact (tok ∷ toks) s t h = ground (
  arith,
  p2p_word-ne-hf_word (word tok),
  empty-ne-source (word tok),
  parse_tokens_exact toks (record s { p2p = true }) t,
  parse_tokens_exact toks (record s { hf = true }) t,
  parse_tokens_exact toks s t,
)

-- A list of sources that is not blank is accepted only if every token, trimmed and in lower case, is
-- empty or a known word. Then at least one source is selected, and each is selected exactly if one
-- of its words occurs.
pub parse_sources_exact :
    (spec : Text) (s : Sources)
    → is_empty (trim_space spec) ≡ false
    → parse_sources spec ≡ ok s
    → All Known (split b',' spec)
      × ((s.p2p || s.hf) ≡ true)
      × (s.p2p ≡ any (λ w. is_p2p_word (word w)) (split b',' spec))
      × (s.hf ≡ any (λ w. is_hf_word (word w)) (split b',' spec))
unfolding parse_sources require_source
parse_sources_exact spec s set h =
    ground (arith, parse_tokens_exact (split b',' spec) (record { p2p = false; hf = false }) s)
