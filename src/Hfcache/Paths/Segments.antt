-- ===== src/Hfcache/Paths/Segments.antt =====
-- Absolute paths as lists of segments: splitting, cleaning and joining them.
use mathlib.Core.List.{reverse-append, reverse-reverse}
use hf_ipfs.Prelude.{
  ℕ, ◌≡◌, ◌≢◌, refl, ap, sym, ◌∙◌, Bool, true, false, not, ◌||◌, List, [], ◌∷◌, ◌++◌, reverse,
  append_assoc, append-nil, Text, codes, text_eq, has_byte, split, push_byte, join, is_empty, arith,
  All,
}
use hf_ipfs.Hfcache.Paths.{is_rooted, clean_segment, clean_segments, render, clean}

-- The absolute path of a list of segments.
abbrev pub abs_path : List Text → Text
abs_path [] = []
abs_path (seg ∷ segs) = b'/' ∷ seg ++ abs_path segs

-- The test in the loop of SafeRelPath, and no slash.
abbrev pub is_name : Text → Bool
is_name seg = not (is_empty seg || text_eq seg (codes ".") || text_eq seg (codes ".."))

abbrev pub IsSegment : Text → Type 0
IsSegment seg = (is_name seg ≡ true) × (has_byte b'/' seg ≡ false)

pub abs_path-append : (xs ys : List Text) → abs_path (xs ++ ys) ≡ abs_path xs ++ abs_path ys
abs_path-append [] ys = refl
abs_path-append (x ∷ xs) ys = rw (abs_path-append xs ys, append_assoc)

push_byte-ne-nil : (c : ℕ) (ps : List Text) → push_byte c ps ≢ []
unfolding push_byte
push_byte-ne-nil c [] h = cc
push_byte-ne-nil c (p ∷ ps) h = cc

pub split-ne-nil : (sep : ℕ) (s : Text) → split sep s ≢ []
unfolding split
split-ne-nil sep [] h = cc
split-ne-nil sep (c ∷ s) h = ground (arith, push_byte-ne-nil c (split sep s))

-- A text with no separator in front of one with a separator first, or alone.
pub split-segment :
    (sep : ℕ) (seg s : Text)
    → has_byte sep seg ≡ false
    → split sep (seg ++ sep ∷ s) ≡ seg ∷ split sep s
unfolding split push_byte has_byte
split-segment sep [] s h = ground arith
split-segment sep (c ∷ seg) s h = ground (arith, split-segment sep seg s)

pub split_single : (sep : ℕ) (seg : Text) → has_byte sep seg ≡ false → split sep seg ≡ seg ∷ []
unfolding split push_byte has_byte
split_single sep [] h = refl
split_single sep (c ∷ seg) h = ground (arith, split_single sep seg)

split-segment-abs_path :
    (seg : Text) (segs : List Text)
    → has_byte b'/' seg ≡ false
    → All IsSegment segs
    → split b'/' (seg ++ abs_path segs) ≡ seg ∷ segs
split-segment-abs_path seg [] h _ = rw append-nil (split_single b'/' seg h)
split-segment-abs_path seg (t ∷ segs) h (ht, hs) =
    rw (split-segment b'/' seg (t ++ abs_path segs) h, split-segment-abs_path t segs ht.1 hs)

pub split-abs_path :
    (segs : List Text) → segs ≢ [] → All IsSegment segs → split b'/' (abs_path segs) ≡ [] ∷ segs
split-abs_path [] ne h = absurd (ne refl)
split-abs_path (seg ∷ segs) ne (hseg, h) =
    unfold split in rw (split-segment-abs_path seg segs hseg.1 h)

clean_segment_name :
    (rooted : Bool) (stack : List Text) (seg : Text)
    → is_name seg ≡ true
    → clean_segment rooted stack seg ≡ seg ∷ stack
unfolding clean_segment
clean_segment_name rooted stack seg h = ground arith

-- Names are pushed as they are.
pub clean_segments_names :
    (rooted : Bool) (stack segs : List Text)
    → All IsSegment segs
    → clean_segments rooted stack segs ≡ reverse segs ++ stack
unfolding clean_segments
clean_segments_names rooted stack [] h = refl
clean_segments_names rooted stack (seg ∷ segs) (hseg, h) =
    rw
      (clean_segment_name rooted stack seg hseg.0, clean_segments_names rooted (seg ∷ stack) segs h)
      (sym (
        ap (λ (l : List Text). l ++ stack) (reverse-append (seg ∷ []) segs)
        ∙ append_assoc (reverse segs) (seg ∷ []) stack))

render-abs_path : (segs : List Text) → segs ≢ [] → render true segs ≡ abs_path segs
unfolding render join
render-abs_path [] ne = absurd (ne refl)
render-abs_path (seg ∷ []) ne = rw append-nil
render-abs_path (seg ∷ t ∷ segs) ne =
    ap (λ (s : Text). b'/' ∷ (seg ++ s)) (render-abs_path (t ∷ segs) (λ e. cc))

rooted-abs_path : (segs : List Text) → segs ≢ [] → is_rooted (abs_path segs) ≡ true
unfolding is_rooted
rooted-abs_path [] ne = absurd (ne refl)
rooted-abs_path (seg ∷ segs) ne = refl

-- A path of names is clean.
pub clean-abs_path :
    (segs : List Text) → segs ≢ [] → All IsSegment segs → clean (abs_path segs) ≡ abs_path segs
unfolding clean
clean-abs_path segs ne h =
    rw (rooted-abs_path segs ne, split-abs_path segs ne h)
      (unfold clean_segments clean_segment is_empty in
        rw (clean_segments_names true [] segs h, append-nil, reverse-reverse)
          (render-abs_path segs ne))
