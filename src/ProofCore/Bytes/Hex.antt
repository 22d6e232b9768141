-- ===== src/ProofCore/Bytes/Hex.antt =====
-- The hex text of a 32-byte hash and its bytes.
use sonari.Prelude.{
  ℕ, zero, suc, ◌+◌, ◌-◌, ◌*◌, ◌/◌, ◌%◌, ◌<◌, ◌≡◌, refl, sym, ap, ap₂, true, List, [], ◌∷◌, some,
  leb, length, all, All, ok, arith, Option-cases, Bool-cases, take, drop, inl, inr,
}
use sonari.ProofCore.Bytes.{
  Byte, Text, IsByte, hex_digit, parse_hex_unit, parse_hex_byte, hex_pairs, hex_to_bytes, hex_char,
  hex_chars, bytes_to_prefixed_hex, is_lower_hex, is_prefixed_hex32, expect_prefixed_hex32,
}

-- The bytes of a hash.
abbrev pub IsBytes32 : List Byte → Type 0
IsBytes32 bytes = (length bytes ≡ 32) × All IsByte bytes

hex_digit-hex_char : (d : ℕ) → d < 16 → hex_digit (hex_char d) ≡ some d
unfolding hex_digit hex_char
hex_digit-hex_char d h = ground arith

is_lower_hex-hex_char : (d : ℕ) → d < 16 → is_lower_hex (hex_char d) ≡ true
unfolding is_lower_hex hex_char
is_lower_hex-hex_char d h = ground arith

parse_hex_byte-hex_chars :
    (b : ℕ) → b < 256 → parse_hex_byte (hex_char (b / 16) ∷ hex_char (b % 16) ∷ []) ≡ b
unfolding parse_hex_byte
parse_hex_byte-hex_chars b h =
    ground (arith, hex_digit-hex_char (b / 16), hex_digit-hex_char (b % 16))

hex_pairs-hex_chars :
    (n : ℕ) (bytes : List Byte)
    → length bytes ≡ n
    → All IsByte bytes
    → hex_pairs n (hex_chars bytes) ≡ bytes
unfolding hex_pairs hex_chars
hex_pairs-hex_chars zero [] e h = refl
hex_pairs-hex_chars zero (b ∷ bytes) e h = absurd (omega arith)
hex_pairs-hex_chars (suc n) [] e h = absurd (omega arith)
hex_pairs-hex_chars (suc n) (b ∷ bytes) e (p, h) =
    ap₂ ◌∷◌ (parse_hex_byte-hex_chars b p) (hex_pairs-hex_chars n bytes (omega arith) h)

-- Reading the hex text of 32 bytes gives the bytes back.
pub hex_to_bytes-bytes_to_prefixed_hex :
    (bytes : List Byte) → IsBytes32 bytes → hex_to_bytes (bytes_to_prefixed_hex bytes) ≡ bytes
unfolding hex_to_bytes bytes_to_prefixed_hex
hex_to_bytes-bytes_to_prefixed_hex bytes h = hex_pairs-hex_chars 32 bytes h.0 h.1

length-hex_chars : (bytes : List Byte) → length (hex_chars bytes) ≡ length bytes * 2
unfolding hex_chars
length-hex_chars [] = refl
length-hex_chars (b ∷ bytes) = omega (arith, length-hex_chars bytes)

all-hex_chars : (bytes : List Byte) → All IsByte bytes → all is_lower_hex (hex_chars bytes) ≡ true
unfolding hex_chars
all-hex_chars [] h = refl
all-hex_chars (b ∷ bytes) (p, h) =
    rw (is_lower_hex-hex_char (b / 16) (omega arith), is_lower_hex-hex_char (b % 16) (omega arith))
      (all-hex_chars bytes h)

-- The hex text of 32 bytes passes the check.
pub bytes_to_prefixed_hex-canonical :
    (bytes : List Byte) → IsBytes32 bytes → is_prefixed_hex32 (bytes_to_prefixed_hex bytes) ≡ true
unfolding is_prefixed_hex32 bytes_to_prefixed_hex
bytes_to_prefixed_hex-canonical bytes h =
    let e : length (hex_chars bytes) ≡ 64 = omega (arith, length-hex_chars bytes, h.0) in
    rw e (all-hex_chars bytes h.1)

length-hex_pairs : (n : ℕ) (rest : Text) → length (hex_pairs n rest) ≡ n
unfolding hex_pairs
length-hex_pairs zero rest = refl
length-hex_pairs (suc n) rest = ap suc (length-hex_pairs n (drop 2 rest))

hex_digit-lt : (c d : ℕ) → hex_digit c ≡ some d → d < 16
unfolding hex_digit
hex_digit-lt c d h = ground arith

parse_hex_unit-lt : (c : ℕ) → parse_hex_unit c < 16
unfolding parse_hex_unit
parse_hex_unit-lt c = elim (Option-cases (hex_digit c)) [
  | inl e ↦ ground arith
  | inr (d, e) ↦ ground (arith, hex_digit-lt c d e)
]

parse_hex_byte-IsByte : (slice : Text) → IsByte (parse_hex_byte slice)
unfolding parse_hex_byte parse_hex_unit
parse_hex_byte-IsByte [] = omega arith
parse_hex_byte-IsByte (a ∷ []) = omega (arith, parse_hex_unit-lt a)
parse_hex_byte-IsByte (a ∷ b ∷ rest) = ground (arith, parse_hex_unit-lt a, parse_hex_unit-lt b)

hex_pairs-IsByte : (n : ℕ) (rest : Text) → All IsByte (hex_pairs n rest)
unfolding hex_pairs
hex_pairs-IsByte zero rest = tt
hex_pairs-IsByte (suc n) rest =
    (parse_hex_byte-IsByte (take 2 rest), hex_pairs-IsByte n (drop 2 rest))

-- Whatever the text, `hexToBytes` gives 32 bytes.
pub hex_to_bytes-IsBytes32 : (value : Text) → IsBytes32 (hex_to_bytes value)
unfolding hex_to_bytes
hex_to_bytes-IsBytes32 value =
    (length-hex_pairs 32 (drop 2 value), hex_pairs-IsByte 32 (drop 2 value))

hex_char-hex_digit :
    (c : ℕ) → is_lower_hex c ≡ true → (d : ℕ) × (hex_digit c ≡ some d) × (d < 16) × (hex_char d ≡ c)
unfolding is_lower_hex hex_char hex_digit
hex_char-hex_digit c h = elim (Bool-cases (leb b'a' c)) [
  | inl letter ↦ (c - 87, ground arith, ground arith, ground arith)
  | inr digit ↦ (c - 48, ground arith, ground arith, ground arith)
]

parse_hex_byte_lem :
    (a b d e : ℕ)
    → hex_digit a ≡ some d
    → hex_digit b ≡ some e
    → parse_hex_byte (a ∷ b ∷ []) ≡ d * 16 + e
unfolding parse_hex_byte
parse_hex_byte_lem a b d e h k = ground arith

-- A pair of lower-case digits is printed again from its byte.
hex_chars-pair :
    (a b : ℕ)
    → is_lower_hex a ≡ true
    → is_lower_hex b ≡ true
    → (hex_char (parse_hex_byte (a ∷ b ∷ []) / 16) ≡ a)
      × (hex_char (parse_hex_byte (a ∷ b ∷ []) % 16) ≡ b)
hex_chars-pair a b h k =
    let (d, digit_a, lt_a, char_a) = hex_char-hex_digit a h in
    let (e, digit_b, lt_b, char_b) = hex_char-hex_digit b k in
    let byte = parse_hex_byte_lem a b d e digit_a digit_b in
    let high : (d * 16 + e) / 16 ≡ d = omega arith in
    let low : (d * 16 + e) % 16 ≡ e = omega arith in (rw (byte, high) char_a, rw (byte, low) char_b)

hex_chars-hex_pairs :
    (n : ℕ) (rest : Text)
    → length rest ≡ n * 2
    → all is_lower_hex rest ≡ true
    → hex_chars (hex_pairs n rest) ≡ rest
unfolding hex_pairs hex_chars
hex_chars-hex_pairs zero [] e h = refl
hex_chars-hex_pairs zero (a ∷ rest) e h = absurd (omega arith)
hex_chars-hex_pairs (suc n) [] e h = absurd (omega arith)
hex_chars-hex_pairs (suc n) (a ∷ []) e h = absurd (omega arith)
hex_chars-hex_pairs (suc n) (a ∷ b ∷ rest) e h =
    let (this, next) = hex_chars-pair a b (ground arith) (ground arith) in
    rw (this, next) (ap (λ t. a ∷ b ∷ t) (hex_chars-hex_pairs n rest (omega arith) (ground arith)))

-- The hex text of the bytes of a text that passes the check is that text.
pub bytes_to_prefixed_hex-hex_to_bytes :
    (value : Text)
    → is_prefixed_hex32 value ≡ true
    → bytes_to_prefixed_hex (hex_to_bytes value) ≡ value
unfolding is_prefixed_hex32 hex_to_bytes bytes_to_prefixed_hex
bytes_to_prefixed_hex-hex_to_bytes [] h = cc
bytes_to_prefixed_hex-hex_to_bytes (a ∷ []) h = cc
bytes_to_prefixed_hex-hex_to_bytes (a ∷ b ∷ rest) h =
    let zero_x : (a ≡ b'0') × (b ≡ b'x') × (length rest ≡ 64) = ground arith in
    ap₂ ◌∷◌ (sym zero_x.0)
      (ap₂ ◌∷◌ (sym zero_x.1) (hex_chars-hex_pairs 32 rest zero_x.2 (ground arith)))

-- A text that `expectPrefixedHex32` passes.
abbrev pub IsCanonical : Text → Type 0
IsCanonical value = is_prefixed_hex32 value ≡ true

pub expect_prefixed_hex32_of_IsCanonical :
    (value : Text) → IsCanonical value → expect_prefixed_hex32 value ≡ ok value
unfolding expect_prefixed_hex32
expect_prefixed_hex32_of_IsCanonical value h = rw h

pub expect_prefixed_hex32-eq-ok :
    (value : Text) {checked : Text}
    → expect_prefixed_hex32 value ≡ ok checked
    → IsCanonical value × (checked ≡ value)
unfolding expect_prefixed_hex32
expect_prefixed_hex32-eq-ok value e = (ground arith, ground arith)
