-- ===== src/Hfcache/Paths/Parts.antt =====
-- Dir, Base and Rel of path/filepath on Unix; the first two are also those of package path.
use hf_ipfs.Prelude.{
  not, ◌&&◌, ◌||◌, List, [], ◌∷◌, ◌++◌, Option, none, some, reverse, Text, codes, text_eq, has_byte,
  is_empty, split, join, ◌==◌, if◌then◌else◌,
}
use hf_ipfs.Hfcache.Paths.{clean, is_rooted}

-- The part of a path through its last slash, and the part behind it.
unfoldable pub up_to_slash : Text → Text
up_to_slash [] = []
up_to_slash (c ∷ s) = let rest = up_to_slash s in if has_byte b'/' (c ∷ s) then c ∷ rest else []

unfoldable pub after_slash : Text → Text
after_slash [] = []
after_slash (c ∷ s) = let rest = after_slash s in if has_byte b'/' (c ∷ s) then rest else c ∷ s

-- path.Dir
unfoldable pub path_dir : Text → Text
path_dir p = clean (up_to_slash p)

-- path.Base
unfoldable pub drop_slashes : Text → Text
drop_slashes [] = []
drop_slashes (c ∷ s) = if c == b'/' then drop_slashes s else c ∷ s

unfoldable pub path_base : Text → Text
path_base p =
    let base = after_slash (reverse (drop_slashes (reverse p))) in
    if is_empty p then codes "." else if is_empty base then codes "/" else base

-- filepath.Rel, on the segments of the two clean paths. A difference at ".." has no answer.
unfoldable pub segments_of : List Text → List Text
segments_of [] = []
segments_of (s ∷ segs) =
    let rest = segments_of segs in if is_empty s || text_eq s (codes ".") then rest else s ∷ rest

abbrev pub ups : List Text → List Text
ups [] = []
ups (s ∷ segs) = codes ".." ∷ ups segs

unfoldable pub rel_segments : List Text → List Text → Option (List Text)
rel_segments [] target = some target
rel_segments (b ∷ base) [] = if text_eq b (codes "..") then none else some (codes ".." ∷ ups base)
rel_segments (b ∷ base) (t ∷ target) =
    if text_eq b t
    then rel_segments base target
    else if text_eq b (codes "..")
    then none
    else some (codes ".." ∷ ups base ++ t ∷ target)

abbrev pub rel_text : Option (List Text) → Option Text
rel_text none = none
rel_text (some []) = some (codes ".")
rel_text (some (s ∷ segs)) = some (join b'/' (s ∷ segs))

unfoldable pub rel : Text → Text → Option Text
rel base target =
    let found = rel_text (
      rel_segments (segments_of (split b'/' (clean base)))
        (segments_of (split b'/' (clean target)))) in
    if is_rooted base && not (is_rooted target)
    then none
    else if is_rooted target && not (is_rooted base)
    then none
    else found
