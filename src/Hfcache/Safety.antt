-- ===== src/Hfcache/Safety.antt =====
-- internal/hfcache/cache.go: the tests on names that a peer, the Hub or a directory walk supplies.
pub mod Containment
pub mod Bookkeeping
use hf_ipfs.Prelude.{
  ℕ, Bool, true, false, not, ◌&&◌, ◌||◌, List, [], ◌∷◌, ◌++◌, Text, codes, text_eq, has_prefix,
  has_byte, split, is_empty, if◌then◌else◌,
}

abbrev pub backslash : ℕ
backslash = b'\\'

-- SafeBlobName
unfoldable pub safe_blob_name : Text → Bool
safe_blob_name name =
    if is_empty name || text_eq name (codes ".") || text_eq name (codes "..")
    then false
    else not (has_byte b'/' name || has_byte backslash name)

-- The loop of SafeRelPath.
unfoldable pub safe_segments : List Text → Bool
safe_segments [] = true
safe_segments (s ∷ segs) =
    if is_empty s || text_eq s (codes ".") || text_eq s (codes "..")
    then false
    else safe_segments segs

-- SafeRelPath
unfoldable pub safe_rel_path : Text → Bool
unfolding safe_segments
safe_rel_path p =
    if is_empty p || has_prefix (codes "/") p || has_byte backslash p
    then false
    else safe_segments (split b'/' p)

-- bookkeepingDirs
abbrev pub bookkeeping_dirs : List Text
bookkeeping_dirs = codes ".git" ∷ codes ".cache" ∷ []

-- The loop of isInsideBookkeeping.
unfoldable pub inside_one_of : List Text → Text → Bool
inside_one_of [] rel = false
inside_one_of (d ∷ ds) rel =
    if text_eq rel d || has_prefix (d ++ codes "/") rel then true else inside_one_of ds rel

-- isInsideBookkeeping
unfoldable pub is_inside_bookkeeping : Text → Bool
unfolding inside_one_of
is_inside_bookkeeping rel = inside_one_of bookkeeping_dirs rel
