-- ===== src/Examples/Manifest.antt =====
-- The theorems on packages/proof-core/src/manifest.ts at concrete inputs.
use mathlib.Core.List.{Perm}
use sonari.Prelude.{◌≡◌, refl, List, [], ◌∷◌, map, Result, ok, length, All, arith}
use sonari.Prelude.Sorting.{sort_from, insert_by_key}
use sonari.ProofCore.Bytes.{Text}
use sonari.ProofCore.Bytes
use sonari.ProofCore.Decimal
use sonari.ProofCore.Leaf
use sonari.ProofCore.Merkle
use sonari.ProofCore.Shard
use sonari.ProofCore.AffectedCells
use sonari.ProofCore.AffectedCells.{CellLeafHash, affected_cells_root}
use sonari.ProofCore.Manifest
use sonari.ProofCore.Manifest.{
  ProofEntry, ProofShardGroup, ProofManifest, build_proof_entries, build_proof_shard_groups,
  build_proof_manifest,
}
use sonari.ProofCore.Manifest.Entries.{leaf_of, Proves, build_proof_entries-replay}
use sonari.ProofCore.Manifest.Groups.{gather, IsShard}
use sonari.ProofCore.Manifest.Partition.{
  build_proof_shard_groups-partition, build_proof_manifest-total,
}
use sonari.ProofCore.Manifest.Returns.{build_proof_manifest-returns}
use sonari.Examples.Proofs.{toy_hash, toy_hash-IsDigest, two_cells, two_hashes, hash_of_nine}

-- The hashes of the two cells, the one of the cell 7 first.
abbrev hash_of_seven : CellLeafHash
hash_of_seven = elim two_hashes [ [] ↦ record { h3_index = []; leaf_hash = [] } | h ∷ _ ↦ h ]

hashed_pair :
    AffectedCells.affected_cells_leaf_hashes toy_hash two_cells
    ≡ ok (hash_of_seven ∷ hash_of_nine ∷ [])
unfolding AffectedCells.affected_cells_leaf_hashes AffectedCells.affected_cells_root
    AffectedCells.affected_cell_leaves_from_input AffectedCells.sort_cells_by_h3_index
    AffectedCells.keyed_cell AffectedCells.has_adjacent_duplicate AffectedCells.leaf_of_cell
    AffectedCells.hash_leaves AffectedCells.text_eq sort_from insert_by_key Decimal.big_int
    Decimal.is_digit Decimal.decimal_value Leaf.affected_cell_leaf_hash Merkle.hash_leaf_bytes
    Leaf.serialize_affected_cell_leaf Leaf.leaf_parts Leaf.enum_int Leaf.concat_parts
    Bytes.expect_prefixed_hex32 Bytes.is_prefixed_hex32 Bytes.is_lower_hex Bytes.hex_to_bytes
    Bytes.bytes_to_prefixed_hex Bytes.hex_chars Bytes.hex_char Bytes.hex_pairs Bytes.parse_hex_byte
    Bytes.parse_hex_unit Bytes.hex_digit Bytes.is_space Bytes.u8_byte Bytes.u16_little_endian_bytes
    Bytes.u32_little_endian_bytes Bytes.u64_little_endian_bytes Bytes.le_bytes Bytes.shr_byte
    Bytes.u64_big_endian_bytes Bytes.be_bytes Bytes.bytes_to_big_endian_u64 Bytes.from_big_endian
    Shard.proof_shard_id Merkle.merkle_levels_from_leaf_hashes Merkle.levels_above Merkle.next_level
    Merkle.internal_hash Merkle.internal_input Merkle.merkle_root_from_leaf_hashes Merkle.last_level
    Merkle.sibling_of Merkle.steps_from Merkle.proof_steps_from_levels build_proof_entries
    build_proof_shard_groups build_proof_manifest Manifest.entries_from Manifest.shard_of
    Manifest.group_entries Manifest.group_of Manifest.add_to_shard Manifest.get_shard
    Manifest.sorted_ids Manifest.keyed_entry Manifest.sort_proofs Manifest.total_of
    Manifest.shard_of_group Manifest.proof_entries_canonical_bytes Manifest.json_array
    Manifest.json_rest Manifest.json_entry Manifest.json_step Manifest.json_bool
    Manifest.json_string
hashed_pair = refl

build_proof_entries-replay_example :
    (entries : List ProofEntry) × (root : Text) × (build_proof_entries toy_hash two_cells
      ≡ ok entries)
    × (affected_cells_root toy_hash two_cells ≡ ok root)
    × (map (leaf_of toy_hash) entries ≡ hash_of_seven ∷ hash_of_nine ∷ [])
    × All (Proves toy_hash root) entries
build_proof_entries-replay_example =
    build_proof_entries-replay toy_hash toy_hash-IsDigest two_cells hash_of_seven
      (hash_of_nine ∷ []) hashed_pair

abbrev two_groups : List ProofShardGroup
two_groups = elim (build_proof_shard_groups toy_hash two_cells 4) [
  | ok groups ↦ groups
  | Result.throw e ↦ []
]

grouped : build_proof_shard_groups toy_hash two_cells 4 ≡ ok two_groups
unfolding AffectedCells.affected_cells_leaf_hashes AffectedCells.affected_cells_root
    AffectedCells.affected_cell_leaves_from_input AffectedCells.sort_cells_by_h3_index
    AffectedCells.keyed_cell AffectedCells.has_adjacent_duplicate AffectedCells.leaf_of_cell
    AffectedCells.hash_leaves AffectedCells.text_eq sort_from insert_by_key Decimal.big_int
    Decimal.is_digit Decimal.decimal_value Leaf.affected_cell_leaf_hash Merkle.hash_leaf_bytes
    Leaf.serialize_affected_cell_leaf Leaf.leaf_parts Leaf.enum_int Leaf.concat_parts
    Bytes.expect_prefixed_hex32 Bytes.is_prefixed_hex32 Bytes.is_lower_hex Bytes.hex_to_bytes
    Bytes.bytes_to_prefixed_hex Bytes.hex_chars Bytes.hex_char Bytes.hex_pairs Bytes.parse_hex_byte
    Bytes.parse_hex_unit Bytes.hex_digit Bytes.is_space Bytes.u8_byte Bytes.u16_little_endian_bytes
    Bytes.u32_little_endian_bytes Bytes.u64_little_endian_bytes Bytes.le_bytes Bytes.shr_byte
    Bytes.u64_big_endian_bytes Bytes.be_bytes Bytes.bytes_to_big_endian_u64 Bytes.from_big_endian
    Shard.proof_shard_id Merkle.merkle_levels_from_leaf_hashes Merkle.levels_above Merkle.next_level
    Merkle.internal_hash Merkle.internal_input Merkle.merkle_root_from_leaf_hashes Merkle.last_level
    Merkle.sibling_of Merkle.steps_from Merkle.proof_steps_from_levels build_proof_entries
    build_proof_shard_groups build_proof_manifest Manifest.entries_from Manifest.shard_of
    Manifest.group_entries Manifest.group_of Manifest.add_to_shard Manifest.get_shard
    Manifest.sorted_ids Manifest.keyed_entry Manifest.sort_proofs Manifest.total_of
    Manifest.shard_of_group Manifest.proof_entries_canonical_bytes Manifest.json_array
    Manifest.json_rest Manifest.json_entry Manifest.json_step Manifest.json_bool
    Manifest.json_string
grouped = refl

build_proof_shard_groups-partition_example :
    (entries : List ProofEntry) × (build_proof_entries toy_hash two_cells ≡ ok entries)
    × Perm (gather two_groups) entries
    × All (IsShard toy_hash 4) two_groups
build_proof_shard_groups-partition_example =
    build_proof_shard_groups-partition toy_hash two_cells 4 two_groups grouped

abbrev two_manifest : ProofManifest
two_manifest = elim (build_proof_manifest toy_hash two_cells 4) [
  | ok manifest ↦ manifest
  | Result.throw e ↦ record {
    merkle_root = [];
    shard_count = 0;
    total_proof_count = 0;
    shards = [];
  }
]

manifested : build_proof_manifest toy_hash two_cells 4 ≡ ok two_manifest
unfolding AffectedCells.affected_cells_leaf_hashes AffectedCells.affected_cells_root
    AffectedCells.affected_cell_leaves_from_input AffectedCells.sort_cells_by_h3_index
    AffectedCells.keyed_cell AffectedCells.has_adjacent_duplicate AffectedCells.leaf_of_cell
    AffectedCells.hash_leaves AffectedCells.text_eq sort_from insert_by_key Decimal.big_int
    Decimal.is_digit Decimal.decimal_value Leaf.affected_cell_leaf_hash Merkle.hash_leaf_bytes
    Leaf.serialize_affected_cell_leaf Leaf.leaf_parts Leaf.enum_int Leaf.concat_parts
    Bytes.expect_prefixed_hex32 Bytes.is_prefixed_hex32 Bytes.is_lower_hex Bytes.hex_to_bytes
    Bytes.bytes_to_prefixed_hex Bytes.hex_chars Bytes.hex_char Bytes.hex_pairs Bytes.parse_hex_byte
    Bytes.parse_hex_unit Bytes.hex_digit Bytes.is_space Bytes.u8_byte Bytes.u16_little_endian_bytes
    Bytes.u32_little_endian_bytes Bytes.u64_little_endian_bytes Bytes.le_bytes Bytes.shr_byte
    Bytes.u64_big_endian_bytes Bytes.be_bytes Bytes.bytes_to_big_endian_u64 Bytes.from_big_endian
    Shard.proof_shard_id Merkle.merkle_levels_from_leaf_hashes Merkle.levels_above Merkle.next_level
    Merkle.internal_hash Merkle.internal_input Merkle.merkle_root_from_leaf_hashes Merkle.last_level
    Merkle.sibling_of Merkle.steps_from Merkle.proof_steps_from_levels build_proof_entries
    build_proof_shard_groups build_proof_manifest Manifest.entries_from Manifest.shard_of
    Manifest.group_entries Manifest.group_of Manifest.add_to_shard Manifest.get_shard
    Manifest.sorted_ids Manifest.keyed_entry Manifest.sort_proofs Manifest.total_of
    Manifest.shard_of_group Manifest.proof_entries_canonical_bytes Manifest.json_array
    Manifest.json_rest Manifest.json_entry Manifest.json_step Manifest.json_bool
    Manifest.json_string
manifested = refl

build_proof_manifest-total_example :
    (entries : List ProofEntry) × (build_proof_entries toy_hash two_cells ≡ ok entries)
    × (affected_cells_root toy_hash two_cells ≡ ok two_manifest.merkle_root)
    × (two_manifest.total_proof_count ≡ length entries)
build_proof_manifest-total_example =
    build_proof_manifest-total toy_hash two_cells 4 two_manifest manifested

build_proof_manifest-returns_example :
    (manifest : ProofManifest) × (build_proof_manifest toy_hash two_cells 4 ≡ ok manifest)
build_proof_manifest-returns_example =
    build_proof_manifest-returns toy_hash toy_hash-IsDigest 4 (ground arith) two_cells hash_of_seven
      (hash_of_nine ∷ []) hashed_pair
