-- ===== src/ProofCore/Bytes/Words.antt =====
-- Little- and big-endian words: what each encoder writes, read back.
use sonari.Prelude.{ℕ, ◌+◌, ◌*◌, ◌≤◌, ◌≡◌, List, [], ◌∷◌, length, All, ok, arith}
use sonari.ProofCore.Bytes.{
  Byte, IsByte, u64_max, shr_byte, u8_byte, u16_little_endian_bytes, u32_little_endian_bytes,
  le_bytes, u64_little_endian_bytes, be_bytes, u64_big_endian_bytes, from_big_endian,
  bytes_to_big_endian_u64,
}

-- What a little-endian word stands for.
abbrev pub from_little_endian : List Byte → ℕ
from_little_endian [] = 0
from_little_endian (byte ∷ bytes) = byte + 256 * from_little_endian bytes

-- `bytes` is the word of `width` bytes for `n`.
pub record IsWord (width n : ℕ) (bytes : List Byte) : Type 0 where
  pub long : length bytes ≡ width
  pub small : All IsByte bytes
  pub value : from_little_endian bytes ≡ n

pub u8_byte-IsWord : (n : ℕ) (bytes : List Byte) → u8_byte n ≡ ok bytes → IsWord 1 n bytes
unfolding u8_byte
u8_byte-IsWord n bytes e = ground arith

pub u16_little_endian_bytes-IsWord :
    (n : ℕ) (bytes : List Byte) → u16_little_endian_bytes n ≡ ok bytes → IsWord 2 n bytes
unfolding u16_little_endian_bytes shr_byte
u16_little_endian_bytes-IsWord n bytes e = ground arith

pub u32_little_endian_bytes-IsWord :
    (n : ℕ) (bytes : List Byte) → u32_little_endian_bytes n ≡ ok bytes → IsWord 4 n bytes
unfolding u32_little_endian_bytes shr_byte
u32_little_endian_bytes-IsWord n bytes e = ground arith

pub u64_little_endian_bytes-IsWord :
    (n : ℕ) (bytes : List Byte) → u64_little_endian_bytes n ≡ ok bytes → IsWord 8 n bytes
unfolding u64_little_endian_bytes le_bytes
u64_little_endian_bytes-IsWord n bytes e = ground arith

pub u64_little_endian_bytes-le :
    (n : ℕ) (bytes : List Byte) → u64_little_endian_bytes n ≡ ok bytes → n ≤ u64_max
unfolding u64_little_endian_bytes
u64_little_endian_bytes-le n bytes e = ground arith

-- A u64 written in big-endian order is read back.
pub bytes_to_big_endian_u64-u64_big_endian_bytes :
    (n : ℕ)
    → n ≤ u64_max
    → (bytes : List Byte) × (u64_big_endian_bytes n ≡ ok bytes)
      × (bytes_to_big_endian_u64 bytes ≡ ok n)
unfolding u64_big_endian_bytes bytes_to_big_endian_u64 be_bytes from_big_endian
bytes_to_big_endian_u64-u64_big_endian_bytes n h = (be_bytes 8 n, ground arith, ground arith)
