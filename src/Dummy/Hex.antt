-- ===== src/Dummy/Hex.antt =====
-- encoding/hex: EncodeToString writes lower case, and DecodeString reads both cases.
use hf_ipfs.Prelude.{
  ℕ, ◌+◌, ◌-◌, ◌*◌, ◌/◌, ◌%◌, ◌<◌, ◌≡◌, refl, ◌&&◌, [], ◌∷◌, Option, none, some, Text, leb,
  if◌then◌else◌, arith, All, lower,
}

unfoldable pub hex_char : ℕ → ℕ
hex_char v = if leb v 9 then b'0' + v else b'a' + (v - 10)

unfoldable pub hex_value : ℕ → Option ℕ
hex_value c =
    if leb b'0' c && leb c b'9'
    then some (c - b'0')
    else if leb b'a' c && leb c b'f'
    then some (c - b'a' + 10)
    else if leb b'A' c && leb c b'F'
    then some (c - b'A' + 10)
    else none

unfoldable pub hex_encode : Text → Text
hex_encode [] = []
hex_encode (b ∷ bs) = hex_char (b / 16) ∷ hex_char (b % 16) ∷ hex_encode bs

-- One byte from the values of its two digits.
unfoldable pub join_nibbles : Option ℕ → Option ℕ → Option Text → Option Text
join_nibbles (some h) (some l) (some bs) = some ((h * 16 + l) ∷ bs)
join_nibbles _ _ _ = none

unfoldable pub hex_decode : Text → Option Text
unfolding join_nibbles
hex_decode [] = some []
hex_decode (h ∷ []) = none
hex_decode (h ∷ l ∷ s) = join_nibbles (hex_value h) (hex_value l) (hex_decode s)

pub hex_value-hex_char : (v : ℕ) → v < 16 → hex_value (hex_char v) ≡ some v
unfolding hex_value hex_char
hex_value-hex_char v h = ground arith

-- A digit is read as a value below 16, and its lower case is what that value is written as.
pub hex_char-hex_value : (c v : ℕ) → hex_value c ≡ some v → (v < 16) × (hex_char v ≡ lower c)
unfolding hex_value hex_char lower
hex_char-hex_value c v h = ground arith

abbrev pub IsByte : ℕ → Type 0
IsByte b = b < 256

pub hex_decode-hex_encode : (bs : Text) → All IsByte bs → hex_decode (hex_encode bs) ≡ some bs
unfolding hex_decode hex_encode
hex_decode-hex_encode [] h = refl
hex_decode-hex_encode (b ∷ bs) (hb, hs) = ground (
  arith,
  hex_value-hex_char (b / 16) (omega arith),
  hex_value-hex_char (b % 16) (omega arith),
  hex_decode-hex_encode bs hs,
)
