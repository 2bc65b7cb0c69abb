-- ===== src/Ingest/Dirs/Depth.antt =====
-- The directory of a path is shorter than the path, unless they are the same.
use hf_ipfs.Prelude.{
  ℕ, suc, ◌+◌, ◌≤◌, ◌<◌, ◌≡◌, ◌⊎◌, refl, sym, subst, ap, ◌∙◌, inl, inr, Bool, true, false, List, [],
  ◌∷◌, reverse, Text, codes, text_eq, has_byte, is_empty, split, push_byte, join, length, ◌==◌,
  arith, Bool-cases, text_eq_sound, text_eq_refl, length-append,
}
use mathlib.Core.List.{reverse_aux}
use hf_ipfs.Hfcache.Paths.{clean, render, is_rooted, back, clean_segment, clean_segments}
use hf_ipfs.Hfcache.Paths.Parts.{up_to_slash, path_dir}
use hf_ipfs.Ingest.Dirs.{dir_of}

-- The bytes of segments, each with one slash.
weight : List Text → ℕ
weight [] = 0
weight (seg ∷ segs) = suc (length seg) + weight segs

weight-push_byte :
    (c : ℕ) (segs : List Text) (n : ℕ)
    → weight segs ≡ suc n
    → weight (push_byte c segs) ≡ suc (suc n)
unfolding weight push_byte
weight-push_byte c [] n h = absurd (ground (arith, h))
weight-push_byte c (s ∷ segs) n h = ground (arith, h)

weight-split : (s : Text) → weight (split b'/' s) ≡ suc (length s)
unfolding weight split
weight-split [] = refl
weight-split (c ∷ s) =
    ground (arith, weight-split s, weight-push_byte c (split b'/' s) (length s) (weight-split s))

length-join :
    (seg : Text) (segs : List Text) → suc (length (join b'/' (seg ∷ segs))) ≤ weight (seg ∷ segs)
unfolding weight join
length-join s [] = ground arith
length-join s (t ∷ segs) =
    ground (arith, length-join t segs, length-append s (b'/' ∷ join b'/' (t ∷ segs)))

weight-reverse_aux : (xs ys : List Text) → weight (reverse_aux xs ys) ≡ weight xs + weight ys
unfolding weight
weight-reverse_aux [] ys = omega arith
weight-reverse_aux (x ∷ xs) ys = ground (arith, weight-reverse_aux xs (x ∷ ys))

weight-back : (rooted : Bool) (stack : List Text) → weight (back rooted stack) ≤ weight stack + 3
unfolding weight back
weight-back true [] = omega arith
weight-back false [] = omega arith
weight-back true (top ∷ below) = ground arith
weight-back false (top ∷ below) = ground arith

weight-clean_segment :
    (rooted : Bool) (stack : List Text) (seg : Text)
    → weight (clean_segment rooted stack seg) ≤ weight stack + suc (length seg)
unfolding weight clean_segment
weight-clean_segment rooted stack seg = ground (
  arith,
  weight-back rooted stack,
  ap (λ (s : Text). length s) {x = seg} {y = codes ".."},
  text_eq_sound seg (codes ".."),
)

weight-clean_segments :
    (rooted : Bool) (stack segs : List Text)
    → weight (clean_segments rooted stack segs) ≤ weight stack + weight segs
unfolding weight clean_segments
weight-clean_segments rooted stack [] = ground arith
weight-clean_segments rooted stack (seg ∷ segs) = ground (
  arith,
  weight-clean_segments rooted (clean_segment rooted stack seg) segs,
  weight-clean_segment rooted stack seg,
)

-- The last segment is empty.
IsTrailing : List Text → Type 0
IsTrailing [] = true ≡ false
IsTrailing (s ∷ []) = s ≡ []
IsTrailing (s ∷ t ∷ segs) = IsTrailing (t ∷ segs)

weight-clean_trailing :
    (rooted : Bool) (segs stack : List Text)
    → IsTrailing segs
    → suc (weight (clean_segments rooted stack segs)) ≤ weight stack + weight segs
unfolding weight clean_segments IsTrailing clean_segment is_empty
weight-clean_trailing rooted [] stack h = absurd (ground (arith, h))
weight-clean_trailing rooted (s ∷ []) stack h = ground (arith, h, ap is_empty h)
weight-clean_trailing rooted (s ∷ t ∷ segs) stack h = ground (
  arith,
  weight-clean_trailing rooted (t ∷ segs) (clean_segment rooted stack s) h,
  weight-clean_segment rooted stack s,
)

IsTrailing-cons : (s : Text) (segs : List Text) → IsTrailing segs → IsTrailing (s ∷ segs)
unfolding IsTrailing
IsTrailing-cons s [] h = absurd (ground (arith, h))
IsTrailing-cons s (t ∷ segs) h = h

up_to_slash_none : (s : Text) → has_byte b'/' s ≡ false → up_to_slash s ≡ []
unfolding up_to_slash
up_to_slash_none [] h = refl
up_to_slash_none (c ∷ s) h = ground (arith, h)

length-up_to_slash : (s : Text) → length (up_to_slash s) ≤ length s
unfolding up_to_slash
length-up_to_slash [] = omega arith
length-up_to_slash (c ∷ s) = ground (arith, length-up_to_slash s)

-- The part of a path through its last slash has two segments or more, and the last is empty.
up_to_slash_lem :
    (s : Text)
    → has_byte b'/' s ≡ true
    → (first : Text) × (rest : List Text) × (split b'/' (up_to_slash s) ≡ first ∷ rest)
      × IsTrailing rest
unfolding IsTrailing has_byte up_to_slash split push_byte
up_to_slash_lem [] h = absurd (ground (arith, h))
up_to_slash_lem (c ∷ s) h = elim (Bool-cases (has_byte b'/' s)) [
  | inl more ↦
      let (first, rest, eq, trail) = up_to_slash_lem s more in
      elim (Bool-cases (c == b'/')) [
        | inl slash ↦
            ([], first ∷ rest, ground (arith, more, slash, eq), IsTrailing-cons first rest trail)
        | inr byte ↦ (c ∷ first, rest, ground (arith, more, byte, eq), trail)
      ]
  | inr last ↦
      let slash : (c == b'/') ≡ true = ground (arith, h, last) in
      ([], [] ∷ [], ground (arith, slash, last, up_to_slash_none s last), refl)
]

length-render_rooted :
    (segs : List Text) → (render true segs ≡ codes "/") ⊎ (length (render true segs) ≤ weight segs)
unfolding render join weight
length-render_rooted [] = inl refl
length-render_rooted (s ∷ segs) = inr (ground (arith, length-join s segs))

length-render_free :
    (segs : List Text)
    → (render false segs ≡ codes ".") ⊎ (suc (length (render false segs)) ≤ weight segs)
unfolding render
length-render_free [] = inl refl
length-render_free (s ∷ segs) = inr (length-join s segs)

first_segment :
    (d first : Text) (rest : List Text)
    → split b'/' d ≡ first ∷ rest
    → is_rooted d ≡ true
    → first ≡ []
unfolding split is_rooted
first_segment [] first rest eq h = absurd (ground (arith, h))
first_segment (c ∷ d) first rest eq h = ground (arith, eq, h)

length-clean :
    (d first : Text) (rest : List Text)
    → split b'/' d ≡ first ∷ rest
    → IsTrailing rest
    → (clean d ≡ codes ".")
      ⊎ ((clean d ≡ codes "/") × (is_rooted d ≡ true))
      ⊎ (length (clean d) < length d)
unfolding clean weight clean_segments clean_segment is_empty
length-clean d first rest eq trail = elim (Bool-cases (is_rooted d)) [
  | inl rooted ↦
      let segs = reverse (clean_segments true [] (split b'/' d)) in
      let same : clean d ≡ render true segs = ground (arith, rooted) in
      let empty : first ≡ [] = first_segment d first rest eq rooted in
      let light : suc (suc (weight segs)) ≤ suc (length d) = ground (
        arith,
        eq,
        empty,
        weight-split d,
        weight-reverse_aux (clean_segments true [] (split b'/' d)) [],
        weight-clean_trailing true rest [] trail,
      ) in
      elim (length-render_rooted segs) [
        | inl root ↦ inr (inl (same ∙ root, rooted))
        | inr short ↦ inr (inr (ground (arith, same, short, light)))
      ]
  | inr free ↦
      let segs = reverse (clean_segments false [] (split b'/' d)) in
      let same : clean d ≡ render false segs = ground (arith, free) in
      let light : suc (weight segs) ≤ suc (length d) = ground (
        arith,
        eq,
        weight-split d,
        weight-reverse_aux (clean_segments false [] (split b'/' d)) [],
        weight-clean_trailing false (first ∷ rest) [] (IsTrailing-cons first rest trail),
      ) in
      elim (length-render_free segs) [
        | inl dot ↦ inl (same ∙ dot)
        | inr short ↦ inr (inr (ground (arith, same, short, light)))
      ]
]

rooted_up_to_slash : (k : Text) → is_rooted (up_to_slash k) ≡ true → is_rooted k ≡ true
unfolding up_to_slash is_rooted
rooted_up_to_slash [] h = h
rooted_up_to_slash (c ∷ k) h = ground (arith, h)

rooted_length : (k : Text) → is_rooted k ≡ true → text_eq k (codes "/") ≡ false → 1 < length k
unfolding is_rooted text_eq
rooted_length [] h ne = absurd (ground (arith, h))
rooted_length (c ∷ []) h ne = absurd (ground (arith, h, ne))
rooted_length (c ∷ d ∷ k) h ne = omega arith

nonempty_length : (k : Text) → text_eq k [] ≡ false → 0 < length k
unfolding text_eq
nonempty_length [] h = absurd (ground (arith, h))
nonempty_length (c ∷ k) h = omega arith

clean_nothing : (d : Text) → d ≡ [] → clean d ≡ codes "."
unfolding clean clean_segments clean_segment render split is_rooted is_empty
clean_nothing [] h = refl
clean_nothing (c ∷ d) h = absurd (ground (arith, h))

of_root : (k dir : Text) → dir ≡ [] → text_eq k dir ≡ false → length dir < length k
of_root k dir eq ne = ground (arith, eq, nonempty_length k (subst (λ d. text_eq k d ≡ false) eq ne))

dir_of_dot : (k : Text) → clean (up_to_slash k) ≡ codes "." → dir_of k ≡ []
unfolding dir_of path_dir
dir_of_dot k h = ground (arith, h, text_eq_refl (codes "."), ap (λ d. text_eq d (codes ".")) h)

dir_of_other : (k : Text) → (clean (up_to_slash k) ≡ dir_of k) ⊎ (dir_of k ≡ [])
unfolding dir_of path_dir
dir_of_other k = elim (Bool-cases (text_eq (clean (up_to_slash k)) (codes "."))) [
  | inl dot ↦ inr (ground (arith, dot))
  | inr other ↦ inl (ground (arith, other))
]

-- The directory of a path is the path itself, or shorter.
pub length-dir_of : (k : Text) → text_eq k (dir_of k) ≡ false → length (dir_of k) < length k
length-dir_of k ne = elim (dir_of_other k) [
  | inr root ↦ of_root k (dir_of k) root ne
  | inl same ↦ elim (Bool-cases (has_byte b'/' k)) [
    | inr flat ↦
        of_root k (dir_of k)
          (dir_of_dot k (clean_nothing (up_to_slash k) (up_to_slash_none k flat))) ne
    | inl slash ↦
        let (first, rest, eq, trail) = up_to_slash_lem k slash in
        elim (length-clean (up_to_slash k) first rest eq trail) [
          | inl dot ↦ of_root k (dir_of k) (dir_of_dot k dot) ne
          | inr (inl (root, rooted)) ↦
              let eq : dir_of k ≡ codes "/" = sym same ∙ root in
              ground (
                arith,
                eq,
                rooted_length k (rooted_up_to_slash k rooted)
                    (subst (λ d. text_eq k d ≡ false) eq ne),
              )
          | inr (inr short) ↦ ground (arith, short, same, length-up_to_slash k)
        ]
  ]
]
