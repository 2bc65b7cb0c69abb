-- ===== src/Protoio.antt =====
-- internal/protoio/protoio.go: length-prefixed frames on a byte stream.
--
-- A reader is the list of bytes that are still to come, followed by the end of the stream. A writer
-- is the bytes it has taken, and the number that it will still take before its connection breaks.
-- encoding/json is a parameter, `Codec`.
pub mod Frames
pub mod Streams
use hf_ipfs.Prelude.{
  ℕ, zero, suc, ◌+◌, ◌-◌, ◌*◌, ◌/◌, ◌%◌, ◌^◌, Bool, true, false, List, [], ◌∷◌, ◌++◌, Option, none,
  some, Text, length, take, drop, ltb, leb, ◌==◌, if◌then◌else◌, Result, ok, err, ◌>>=◌,
}

-- The errors: `ErrFrameTooLarge`, the two ends of io.ReadFull, a failed write, and those of JSON.
pub data FrameError : Type 0 where
  frame_too_large eof unexpected_eof write_failed marshal_failed unmarshal_failed : FrameError

abbrev pub max_frame : ℕ
max_frame = 8 * 2 ^ 20

pub record Writer : Type 0 where
  pub out : Text
  pub room : ℕ

-- w.Write: all of the bytes, or those that fit and an error.
unfoldable pub write : Text → Writer → Result FrameError (Unit {0}) × Writer
write bs w =
    if leb (length bs) w.room
    then (ok tt, record { out = w.out ++ bs; room = w.room - length bs })
    else (err write_failed, record { out = w.out ++ take w.room bs; room = 0 })

-- io.ReadFull of `n` bytes: what was read, and what is left of the stream.
unfoldable pub read_full : ℕ → Text → Result FrameError Text × Text
read_full n s =
    if leb n (length s)
    then (ok (take n s), drop n s)
    else if length s == 0
    then (err eof, [])
    else (err unexpected_eof, [])

-- binary.BigEndian.PutUint32 of `uint32(n)`.
unfoldable pub put_uint32 : ℕ → Text
put_uint32 n =
    let u = n % 2 ^ 32 in (u / 2 ^ 24) ∷ (u / 2 ^ 16 % 256) ∷ (u / 2 ^ 8 % 256) ∷ (u % 256) ∷ []

-- binary.BigEndian.Uint32 of the four bytes of a header.
unfoldable pub get_uint32 : Text → ℕ
get_uint32 (a ∷ b ∷ c ∷ d ∷ r) = a * 2 ^ 24 + b * 2 ^ 16 + c * 2 ^ 8 + d
get_uint32 _ = 0

-- The second write of a frame, after its header.
unfoldable pub write_payload :
    Text → Result FrameError (Unit {0}) × Writer → Result FrameError (Unit {0}) × Writer
write_payload bs (err e, w) = (err e, w)
write_payload bs (ok u, w) = if length bs == 0 then (ok tt, w) else write bs w

unfoldable pub write_frame : Text → Writer → Result FrameError (Unit {0}) × Writer
write_frame bs w =
    if ltb max_frame (length bs)
    then (err frame_too_large, w)
    else write_payload bs (write (put_uint32 (length bs)) w)

-- The payload of a frame, after its header.
unfoldable pub read_payload : Result FrameError Text × Text → Result FrameError Text × Text
read_payload (err e, s) = (err e, s)
read_payload (ok hdr, s) =
    if ltb max_frame (get_uint32 hdr)
    then (err frame_too_large, s)
    else read_full (get_uint32 hdr) s

unfoldable pub read_frame : Text → Result FrameError Text × Text
read_frame s = read_payload (read_full 4 s)

-- encoding/json on the values of one type.
pub record Codec (A : Type 0) : Type 0 where
  pub marshal : A → Option Text
  pub unmarshal : Text → Option A

module _ {A : Type 0} (c : Codec A) where
  unfoldable pub write_json : A → Writer → Result FrameError (Unit {0}) × Writer
  write_json v w = elim (c.marshal v) [
    | none ↦ (err marshal_failed, w)
    | some bs ↦ write_frame bs w
  ]

  -- What a frame means as a value.
  unfoldable pub decode_frame : Result FrameError Text → Result FrameError A
  decode_frame (err e) = err e
  decode_frame (ok bs) = elim (c.unmarshal bs) [ none ↦ err unmarshal_failed | some v ↦ ok v ]

  unfoldable pub read_json : Text → Result FrameError A × Text
  read_json s = let (r, rest) = read_frame s in (decode_frame r, rest)
