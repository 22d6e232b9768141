-- ===== src/ProofCore/Bytes.antt =====
-- packages/proof-core/src/bytes.ts and constants.ts, and the hash check of schema.ts. A byte is a
-- number below 256, a `Uint8Array` a list of bytes; a string is the list of its UTF-16 code units;
-- a `number` or `bigint` that the code only takes from unsigned fields is a natural number.
pub mod Hex
pub mod Words
use sonari.Prelude.{
  ℕ, zero, suc, ◌+◌, ◌-◌, ◌*◌, ◌/◌, ◌%◌, ◌^◌, ◌<◌, Bool, false, ◌&&◌, ◌||◌, List, [], ◌∷◌, Option,
  none, some, ltb, leb, ◌==◌, if◌then◌else◌, length, take, drop, all, Result, ok, ◌>>◌, require,
}

abbrev pub Byte : Type 0
Byte = ℕ

abbrev pub IsByte : ℕ → Type 0
IsByte b = b < 256

-- A string, as its UTF-16 code units.
abbrev pub Text : Type 0
Text = List ℕ

abbrev pub u8_max : ℕ
u8_max = 255

abbrev pub u16_max : ℕ
u16_max = 65535

abbrev pub u32_max : ℕ
u32_max = 4294967295

abbrev pub u64_max : ℕ
u64_max = 18446744073709551615

abbrev pub leaf_hash_domain_separator : Byte
leaf_hash_domain_separator = 0

abbrev pub internal_node_domain_separator : Byte
internal_node_domain_separator = 1

unfoldable pub u8_byte : ℕ → Result (List Byte)
u8_byte n = do require (leb n u8_max) "u8 value is outside range"; ok (n ∷ [])

-- `(n >> k) & 0xff` on a number below 2 ^ 32: the operand is read as an int32, so the shift fills
-- with its sign bit.
unfoldable pub shr_byte : ℕ → ℕ → Byte
shr_byte n k = (n / 2 ^ k + (if ltb n 2147483648 then 0 else 4294967296 - 4294967296 / 2 ^ k)) % 256

unfoldable pub u16_little_endian_bytes : ℕ → Result (List Byte)
u16_little_endian_bytes n = do
  require (leb n u16_max) "u16 value is outside range"
  ok (n % 256 ∷ shr_byte n 8 ∷ [])

unfoldable pub u32_little_endian_bytes : ℕ → Result (List Byte)
u32_little_endian_bytes n = do
  require (leb n u32_max) "u32 value is outside range"
  ok (n % 256 ∷ shr_byte n 8 ∷ shr_byte n 16 ∷ shr_byte n 24 ∷ [])

-- The loop of `u64LittleEndianBytes`, with the rounds left: byte `index` is
-- `(value >> (index * 8)) & 0xff`.
unfoldable pub le_bytes : ℕ → ℕ → ℕ → List Byte
le_bytes zero index value = []
le_bytes (suc left) index value = value / 2 ^ (index * 8) % 256 ∷ le_bytes left (suc index) value

unfoldable pub u64_little_endian_bytes : ℕ → Result (List Byte)
u64_little_endian_bytes value = do
  require (leb value u64_max) "u64 value is outside range"
  ok (le_bytes 8 0 value)

-- The loop of `u64BigEndianBytes` fills from the last index down: `n` bytes are the byte of weight
-- `n - 1`, and then the rest.
unfoldable pub be_bytes : ℕ → ℕ → List Byte
be_bytes zero value = []
be_bytes (suc n) value = value / 2 ^ (n * 8) % 256 ∷ be_bytes n value

unfoldable pub u64_big_endian_bytes : ℕ → Result (List Byte)
u64_big_endian_bytes value = do
  require (leb value u64_max) "u64 value is outside range"
  ok (be_bytes 8 value)

-- `value = (value << 8n) | BigInt(byte)`; the low eight bits are clear, so `|` adds.
unfoldable pub from_big_endian : ℕ → List Byte → ℕ
from_big_endian value [] = value
from_big_endian value (byte ∷ bytes) = from_big_endian (value * 256 + byte) bytes

unfoldable pub bytes_to_big_endian_u64 : List Byte → Result ℕ
bytes_to_big_endian_u64 bytes = do
  require (length bytes == 8) "u64 byte prefix must be 8 bytes"
  ok (from_big_endian 0 bytes)

-- The value of a hexadecimal digit, of either case.
unfoldable pub hex_digit : ℕ → Option ℕ
hex_digit c =
    if leb b'0' c && leb c b'9'
    then some (c - 48)
    else if leb b'a' c && leb c b'f'
    then some (c - 87)
    else if leb b'A' c && leb c b'F'
    then some (c - 55)
    else none

-- White space and line ends, which `Number.parseInt` skips.
unfoldable pub is_space : ℕ → Bool
is_space c =
    leb 9 c && leb c 13
    || c == 32
    || c == 160
    || c == 5760
    || leb 8192 c && leb c 8202
    || c == 8232
    || c == 8233
    || c == 8239
    || c == 8287
    || c == 12288
    || c == 65279

unfoldable pub parse_hex_unit : ℕ → ℕ
parse_hex_unit c = elim (hex_digit c) [ none ↦ 0 | some d ↦ d ]

-- `Number.parseInt(slice, 16)` of a slice of at most two units, as the byte array stores it: NaN is
-- stored as 0, a negative number modulo 256. It reads the longest run of digits; in front of it
-- stand white space and a sign, and "0x" alone is no number.
unfoldable pub parse_hex_byte : Text → Byte
parse_hex_byte [] = 0
parse_hex_byte (a ∷ []) = parse_hex_unit a
parse_hex_byte (a ∷ b ∷ _) = elim (hex_digit a) [
  | some high ↦ elim (hex_digit b) [ some low ↦ high * 16 + low | none ↦ high ]
  | none ↦
      if is_space a || a == b'+'
      then parse_hex_unit b
      else if a == b'-'
      then (256 - parse_hex_unit b) % 256
      else 0
]

-- The loop of `hexToBytes` over the text behind the prefix.
unfoldable pub hex_pairs : ℕ → Text → List Byte
hex_pairs zero rest = []
hex_pairs (suc left) rest = parse_hex_byte (take 2 rest) ∷ hex_pairs left (drop 2 rest)

unfoldable pub hex_to_bytes : Text → List Byte
hex_to_bytes value = hex_pairs 32 (drop 2 value)

-- A digit of `byte.toString(16)`.
unfoldable pub hex_char : ℕ → ℕ
hex_char d = if ltb d 10 then d + 48 else d + 87

-- `byte.toString(16).padStart(2, "0")`, joined.
unfoldable pub hex_chars : List Byte → Text
hex_chars [] = []
hex_chars (byte ∷ bytes) = hex_char (byte / 16) ∷ hex_char (byte % 16) ∷ hex_chars bytes

unfoldable pub bytes_to_prefixed_hex : List Byte → Text
bytes_to_prefixed_hex bytes = b'0' ∷ b'x' ∷ hex_chars bytes

-- `[0-9a-f]`
unfoldable pub is_lower_hex : ℕ → Bool
is_lower_hex c = leb b'0' c && leb c b'9' || leb b'a' c && leb c b'f'

-- `/^0x[0-9a-f]{64}$/`
unfoldable pub is_prefixed_hex32 : Text → Bool
is_prefixed_hex32 [] = false
is_prefixed_hex32 (a ∷ []) = false
is_prefixed_hex32 (a ∷ b ∷ rest) =
    a == b'0' && b == b'x' && length rest == 64 && all is_lower_hex rest

unfoldable pub expect_prefixed_hex32 : Text → Result Text
expect_prefixed_hex32 value = do
  require (is_prefixed_hex32 value) "must be a lowercase 0x-prefixed 32-byte hex string"
  ok value
