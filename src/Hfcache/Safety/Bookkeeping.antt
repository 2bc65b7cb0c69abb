-- ===== src/Hfcache/Safety/Bookkeeping.antt =====
-- What isInsideBookkeeping skips.
use hf_ipfs.Prelude.{
  ◌≡◌, refl, false, ◌||◌, List, [], ◌∷◌, ◌++◌, Text, codes, text_eq, has_byte, has_prefix, split,
  push_byte, arith, ℕ,
}
use hf_ipfs.Hfcache.Safety.{is_inside_bookkeeping}

abbrev pub first_segment : List Text → Text
first_segment [] = []
first_segment (s ∷ segs) = s

first_segment-push_byte :
    (c : ℕ) (segs : List Text) → first_segment (push_byte c segs) ≡ c ∷ first_segment segs
unfolding push_byte
first_segment-push_byte c [] = refl
first_segment-push_byte c (s ∷ segs) = refl

inside_dir :
    (d rel : Text)
    → has_byte b'/' d ≡ false
    → (text_eq rel d || has_prefix (d ++ codes "/") rel)
      ≡ text_eq (first_segment (split b'/' rel)) d
unfolding text_eq has_prefix split has_byte
inside_dir [] [] h = refl
inside_dir [] (c ∷ rel) h = ground (arith, first_segment-push_byte c (split b'/' rel))
inside_dir (e ∷ d) [] h = refl
inside_dir (e ∷ d) (c ∷ rel) h =
    ground (arith, first_segment-push_byte c (split b'/' rel), inside_dir d rel)

-- isInsideBookkeeping holds of a path exactly if its first segment is `.git` or `.cache`; of
-- `.gitattributes`, which only begins with the same letters, it does not.
pub is_inside_bookkeeping_exact :
    (rel : Text)
    → is_inside_bookkeeping rel ≡ (
        text_eq (first_segment (split b'/' rel)) (codes ".git")
        || text_eq (first_segment (split b'/' rel)) (codes ".cache"))
unfolding is_inside_bookkeeping
is_inside_bookkeeping_exact rel = ground (
  arith,
  inside_dir (codes ".git") rel (unfold has_byte in refl),
  inside_dir (codes ".cache") rel (unfold has_byte in refl),
)
