-- ===== src/ProofCore/Shard.antt =====
-- packages/proof-core/src/shard.ts: which shard holds the proof of a cell.
use sonari.Prelude.{
  ℕ, ◌≤◌, ◌<◌, ◌%◌, ◌≡◌, refl, ltb, length, take, Result, ok, ◌>>=◌, ◌>>◌, require, arith, List,
  lt→ltb, length-take,
}
use native.Mathlib.Nat.{mod-lt}
use sonari.ProofCore.Bytes.{
  Byte, u64_max, u64_big_endian_bytes, bytes_to_big_endian_u64, be_bytes, from_big_endian,
}
use sonari.ProofCore.Bytes.Hex.{IsBytes32}
use sonari.ProofCore.Merkle.{Hash}

unfoldable pub proof_shard_id : Hash → ℕ → ℕ → Result ℕ
proof_shard_id sha256 h3_index shard_count = do
  require (ltb 0 shard_count) "shard_count must be greater than zero"
  bytes ← u64_big_endian_bytes h3_index
  prefix ← bytes_to_big_endian_u64 (take 8 (sha256 bytes))
  ok (prefix % shard_count)

length-take_eight : (bytes : List Byte) → length bytes ≡ 32 → length (take 8 bytes) ≡ 8
length-take_eight bytes h = omega (arith, length-take 8 bytes)

bytes_to_big_endian_u64_of_eight :
    (bytes : List Byte)
    → length bytes ≡ 8
    → bytes_to_big_endian_u64 bytes ≡ ok (from_big_endian 0 bytes)
unfolding bytes_to_big_endian_u64
bytes_to_big_endian_u64_of_eight bytes h = rw h

u64_big_endian_bytes_of_small :
    (value : ℕ) → value ≤ u64_max → u64_big_endian_bytes value ≡ ok (be_bytes 8 value)
unfolding u64_big_endian_bytes
u64_big_endian_bytes_of_small value h = ground arith

pub proof_shard_id-lt :
    (sha256 : Hash)
    → ((bytes : List Byte) → IsBytes32 (sha256 bytes))
    → (h3_index shard_count : ℕ) → h3_index ≤ u64_max
    → 0 < shard_count
    → (id : ℕ) × (proof_shard_id sha256 h3_index shard_count ≡ ok id) × (id < shard_count)
unfolding proof_shard_id
proof_shard_id-lt sha256 digest h3_index shard_count small pos =
    let digested = sha256 (be_bytes 8 h3_index) in
    (
      from_big_endian 0 (take 8 digested) % shard_count,
      rw
          (
            lt→ltb 0 shard_count pos,
            u64_big_endian_bytes_of_small h3_index small,
            bytes_to_big_endian_u64_of_eight (take 8 digested)
                (length-take_eight digested (digest (be_bytes 8 h3_index)).0),
          )
          refl,
      mod-lt _ pos,
    )
