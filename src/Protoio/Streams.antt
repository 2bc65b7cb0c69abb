-- ===== src/Protoio/Streams.antt =====
-- Sequences of frames, truncated and oversized frames, and JSON messages.
use hf_ipfs.Prelude.{
  ℕ, zero, suc, ◌+◌, ◌-◌, ◌≤◌, ◌<◌, ◌≡◌, refl, sym, List, [], ◌∷◌, ◌++◌, append_assoc, append-nil,
  Text, length, take, ◌==◌, if◌then◌else◌, Result, ok, err, ◌>>=◌, length-append, All, arith,
}
use hf_ipfs.Protoio.{
  FrameError, eof, unexpected_eof, max_frame, Writer, read_full, put_uint32, get_uint32,
  write_frame, read_frame, read_payload,
}
use hf_ipfs.Protoio.Frames.{
  frame, write_frame_lem, read_frame-frame, read_full_sound, length-put_uint32, length-take,
  get-put_uint32, read_full-append,
}

-- A peer that writes frames one after the other, up to the first error.
unfoldable pub write_frames : List Text → Writer → Result FrameError (Unit {0}) × Writer
write_frames [] w = (ok tt, w)
write_frames (bs ∷ bss) w =
    let (r, w') = write_frame bs w in elim r [ ok u ↦ write_frames bss w' | err e ↦ (err e, w') ]

-- A peer that reads `n` frames one after the other, up to the first error.
unfoldable pub read_frames : ℕ → Text → Result FrameError (List Text) × Text
read_frames zero s = (ok [], s)
read_frames (suc n) s =
    let (r, s') = read_frame s in
    let (rs, s'') = read_frames n s' in
    elim r [ err e ↦ (err e, s') | ok bs ↦ ((do bss ← rs; ok (bs ∷ bss)), s'') ]

-- The bytes that a sequence of frames takes on the stream.
abbrev pub frames : List Text → Text
frames [] = []
frames (bs ∷ bss) = frame bs ++ frames bss

abbrev pub Fits : Text → Type 0
Fits bs = length bs ≤ max_frame

write_frames_lem :
    (bss : List Text) (w : Writer)
    → All Fits bss
    → length (frames bss) ≤ w.room
    → write_frames bss w
      ≡ (ok tt, record { out = w.out ++ frames bss; room = w.room - length (frames bss) })
unfolding write_frames
write_frames_lem [] w fits room = rw append-nil (ground arith)
write_frames_lem (bs ∷ bss) w (fit, fits) room =
    let hdr = put_uint32 (length bs) in
    let w' : Writer = record { out = w.out ++ frame bs; room = w.room - (4 + length bs) } in
    let size : length (frames (bs ∷ bss)) ≡ 4 + length bs + length (frames bss) = omega (
      arith,
      length-append (frame bs) (frames bss),
      length-append hdr bs,
      length-put_uint32 (length bs),
    ) in
    ground (
      arith,
      write_frame_lem bs w fit (omega arith),
      write_frames_lem bss w' fits (omega arith),
      append_assoc w.out (frame bs) (frames bss),
    )

read_frames_lem :
    (bss : List Text) (rest : Text)
    → All Fits bss
    → read_frames (length bss) (frames bss ++ rest) ≡ (ok bss, rest)
unfolding read_frames
read_frames_lem [] rest fits = refl
read_frames_lem (bs ∷ bss) rest (fit, fits) = ground (
  arith,
  append_assoc (frame bs) (frames bss) rest,
  read_frame-frame bs (frames bss ++ rest) fit,
  read_frames_lem bss rest fits,
)

-- Frames within the bound, written to a stream with room for them, are read back in order by the
-- peer, and the reader stands exactly behind the last of them.
pub read_frames-write_frames :
    (bss : List Text) (w : Writer) (rest : Text)
    → All Fits bss
    → length (frames bss) ≤ w.room
    → (s : Text) × (write_frames bss w
        ≡ (ok tt, record { out = w.out ++ s; room = w.room - length s }))
      × (read_frames (length bss) (s ++ rest) ≡ (ok bss, rest))
read_frames-write_frames bss w rest fits room =
    (frames bss, write_frames_lem bss w fits room, read_frames_lem bss rest fits)

read_payload-eq-ok :
    (r : Result FrameError Text × Text) (bs rest : Text)
    → read_payload r ≡ (ok bs, rest)
    → (hdr : Text) × (s : Text) × (r ≡ (ok hdr, s))
      × (get_uint32 hdr ≤ max_frame)
      × (read_full (get_uint32 hdr) s ≡ (ok bs, rest))
unfolding read_payload
read_payload-eq-ok (err e, s) bs rest h = cc
read_payload-eq-ok (ok hdr, s) bs rest h = (hdr, s, refl, ground arith, ground arith)

-- Whatever the stream holds, a payload that read_frame returns is within the bound, is what the
-- four bytes before it announce, and the reader stands behind it.
pub read_frame_sound :
    (s bs rest : Text)
    → read_frame s ≡ (ok bs, rest)
    → (length bs ≤ max_frame)
      × (hdr : Text) × (length hdr ≡ 4)
      × (get_uint32 hdr ≡ length bs)
      × (s ≡ hdr ++ bs ++ rest)
unfolding read_frame
read_frame_sound s bs rest h =
    let (hdr, s', first, small, second) = read_payload-eq-ok (read_full 4 s) bs rest h in
    let (four, whole) = read_full_sound 4 s hdr s' first in
    let (size, body) = read_full_sound (get_uint32 hdr) s' bs rest second in
    (omega arith, hdr, four, sym size, ground (arith, append_assoc hdr bs rest))

read_full-short :
    (n : ℕ) (s : Text)
    → length s < n
    → read_full n s ≡ (if length s == 0 then (err eof, []) else (err unexpected_eof, []))
unfolding read_full
read_full-short n s h = ground arith

take-frame :
    (bs : Text) (k : ℕ)
    → take (suc (suc (suc (suc k)))) (frame bs) ≡ put_uint32 (length bs) ++ take k bs
unfolding put_uint32
take-frame bs k = refl

-- A frame cut off before its end is never accepted. The reader sees a plain end of stream when it
-- is cut at its start or right behind the header of a payload, and an unexpected end elsewhere.
pub read_frame-truncated :
    (bs : Text) (k : ℕ)
    → length bs ≤ max_frame
    → k < 4 + length bs
    → read_frame (take k (frame bs)) ≡ (
        if k == 0
        then (err eof, [])
        else if k == 4
        then (err eof, [])
        else (err unexpected_eof, []))
read_frame-truncated bs zero fits cut = unfold read_frame read_payload read_full in refl
read_frame-truncated bs (suc zero) fits cut =
    unfold read_frame read_payload read_full put_uint32 in refl
read_frame-truncated bs (suc (suc zero)) fits cut =
    unfold read_frame read_payload read_full put_uint32 in refl
read_frame-truncated bs (suc (suc (suc zero))) fits cut =
    unfold read_frame read_payload read_full put_uint32 in refl
read_frame-truncated bs (suc (suc (suc (suc k)))) fits cut =
    let hdr = put_uint32 (length bs) in
    let value : get_uint32 hdr ≡ length bs = get-put_uint32 (length bs) (omega arith) in
    rw (take-frame bs k) (
      unfold read_frame read_payload in
      ground (
        arith,
        read_full-append 4 hdr (take k bs) (omega (arith, length-put_uint32 (length bs))),
        value,
        read_full-short (length bs) (take k bs) (omega (arith, length-take k bs)),
        length-take k bs (omega arith),
      ))
