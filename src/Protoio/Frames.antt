-- ===== src/Protoio/Frames.antt =====
-- One frame: what is written is read back, and what is read was bounded.
use native.Mathlib.Omega.{arith}
use hf_ipfs.Prelude.{
  ℕ, zero, suc, ◌+◌, ◌-◌, ◌^◌, ◌≤◌, ◌<◌, ◌≡◌, refl, true, List, [], ◌∷◌, ◌++◌, append_assoc, Text,
  length, take, drop, ◌==◌, ok, length-append, take-append, drop-append, append-nil, ap,
}
use hf_ipfs.Protoio.{
  max_frame, Writer, write, read_full, put_uint32, get_uint32, write_frame, read_frame,
  write_payload, read_payload,
}

-- The bytes of a frame: its length in four bytes, then its payload.
abbrev pub frame : Text → Text
frame bs = put_uint32 (length bs) ++ bs

pub get-put_uint32 : (n : ℕ) → n < 2 ^ 32 → get_uint32 (put_uint32 n) ≡ n
unfolding put_uint32 get_uint32
get-put_uint32 n h = omega arith

pub length-put_uint32 : (n : ℕ) → length (put_uint32 n) ≡ 4
unfolding put_uint32
length-put_uint32 n = refl

pub read_full-append : (n : ℕ) (xs ys : Text) → n ≡ length xs → read_full n (xs ++ ys) ≡ (ok xs, ys)
unfolding read_full
read_full-append n xs ys e =
    rw (e, take-append xs ys, drop-append xs ys, length-append xs ys) (ground arith)

length-eq-zero : (bs : Text) → (length bs == 0) ≡ true → bs ≡ []
length-eq-zero [] h = refl
length-eq-zero (b ∷ bs) h = ground arith

pub write_lem :
    (bs : Text) (w : Writer)
    → length bs ≤ w.room
    → write bs w ≡ (ok tt, record { out = w.out ++ bs; room = w.room - length bs })
unfolding write
write_lem bs w h = ground arith

-- A frame that fits is appended to the stream whole.
pub write_frame_lem :
    (bs : Text) (w : Writer)
    → length bs ≤ max_frame
    → 4 + length bs ≤ w.room
    → write_frame bs w
      ≡ (ok tt, record { out = w.out ++ frame bs; room = w.room - (4 + length bs) })
unfolding write_frame write_payload
write_frame_lem [] w fits room =
    rw (write_lem (put_uint32 0) w (omega (arith, length-put_uint32 0)), append-nil)
      (ground (arith, length-put_uint32 0))
write_frame_lem (b ∷ bs) w fits room =
    let hdr = put_uint32 (length (b ∷ bs)) in
    ground (
      arith,
      write_lem hdr w (omega (arith, length-put_uint32 (length (b ∷ bs)))),
      length-put_uint32 (length (b ∷ bs)),
      write_lem (b ∷ bs) (record { out = w.out ++ hdr; room = w.room - length hdr }),
      append_assoc w.out hdr (b ∷ bs),
    )

-- A frame on the stream is read back whatever follows it.
pub read_frame-frame :
    (bs rest : Text) → length bs ≤ max_frame → read_frame (frame bs ++ rest) ≡ (ok bs, rest)
unfolding read_frame read_payload
read_frame-frame bs rest fits =
    let hdr = put_uint32 (length bs) in
    let four : 4 ≡ length hdr = omega (arith, length-put_uint32 (length bs)) in
    let value : get_uint32 hdr ≡ length bs = get-put_uint32 (length bs) (omega arith) in
    rw (append_assoc, read_full-append 4 hdr (bs ++ rest) four)
      (rw value (ground (arith, read_full-append (length bs) bs rest refl)))

pub length-take : {A : Type 0} (n : ℕ) (xs : List A) → n ≤ length xs → length (take n xs) ≡ n
length-take zero xs h = refl
length-take (suc n) [] h = absurd (omega arith)
length-take (suc n) (x ∷ xs) h = omega (arith, length-take n xs (omega arith))

pub take-append-drop : {A : Type 0} (n : ℕ) (xs : List A) → take n xs ++ drop n xs ≡ xs
take-append-drop zero xs = refl
take-append-drop (suc n) [] = refl
take-append-drop (suc n) (x ∷ xs) = ap (◌∷◌ x) (take-append-drop n xs)

-- What io.ReadFull returned: exactly the bytes asked for, off the front of the stream.
pub read_full_sound :
    (n : ℕ) (s bs rest : Text) → read_full n s ≡ (ok bs, rest) → (length bs ≡ n) × (bs ++ rest ≡ s)
unfolding read_full
read_full_sound n s bs rest h = ground (arith, length-take n s, take-append-drop n s)
