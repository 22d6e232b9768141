-- ===== src/Examples/Proofs.antt =====
-- The theorems on packages/proof-core/src at concrete inputs, with a toy hash function.
use sonari.Prelude.{
  ℕ, zero, suc, ◌%◌, ◌≡◌, ◌<◌, ◌*◌, ◌^◌, ◌⊎◌, refl, true, false, none, some, List, [], ◌∷◌, Result,
  ok, arith, length, replicate, All, get_elem?,
}
use native.Mathlib.Nat.{mod-lt}
use sonari.ProofCore.Bytes.{
  Byte, IsByte, Text, hex_to_bytes, bytes_to_prefixed_hex, is_prefixed_hex32, u64_big_endian_bytes,
  bytes_to_big_endian_u64,
}
use sonari.ProofCore.Bytes.Hex.{
  IsBytes32, bytes_to_prefixed_hex-canonical, bytes_to_prefixed_hex-hex_to_bytes,
}
use sonari.ProofCore.Bytes.Words.{bytes_to_big_endian_u64-u64_big_endian_bytes}
use sonari.Prelude.Sorting.{sort_from, insert_by_key}
use sonari.ProofCore.Bytes
use sonari.ProofCore.Decimal
use sonari.ProofCore.Leaf
use sonari.ProofCore.Merkle
use sonari.ProofCore.AffectedCells
use sonari.ProofCore.Merkle.{
  Hash, ProofStep, merkle_levels_from_leaf_hashes, merkle_root_from_leaf_hashes,
  proof_steps_from_levels, replay_proof, levels_above,
}
use sonari.ProofCore.Merkle.Levels.{IsDigest}
use sonari.ProofCore.Merkle.Inclusion.{replay_proof-proof_steps}
use sonari.ProofCore.Merkle.Binding.{Collision, hashed_inputs, replay_proof-binding}
use sonari.ProofCore.Merkle.Height.{proof_steps-log, levels_above-fuel}
use sonari.ProofCore.Leaf.{AffectedCellLeaf, serialize_affected_cell_leaf}
use sonari.ProofCore.Leaf.Encoding.{
  serialize_affected_cell_leaf-injective, length-serialize_affected_cell_leaf,
}
use sonari.ProofCore.AffectedCells.{
  AffectedCellsInput, AffectedCellEntry, CellLeafHash, affected_cells_leaf_hashes,
  affected_cell_proof_steps, affected_cells_root,
}
use sonari.ProofCore.AffectedCells.{affected_cell_leaves_from_input}
use sonari.ProofCore.AffectedCells.Order.{
  IsAscendingLeaves, affected_cell_leaves_from_input-ascending,
}
use sonari.ProofCore.AffectedCells.Proofs.{affected_cell_proof_steps-replay}

abbrev pub bytes_of : Byte → List Byte
bytes_of b = replicate 32 b

All-replicate : (P : Byte → Type 0) (n : ℕ) (b : Byte) → P b → All P (replicate n b)
All-replicate P zero b p = tt
All-replicate P (suc n) b p = (p, All-replicate P n b p)

-- As long as its input, thirty-two times.
abbrev pub toy_hash : Hash
toy_hash bytes = bytes_of (length bytes % 256)

pub toy_hash-IsDigest : IsDigest toy_hash
toy_hash-IsDigest bytes =
    (refl, All-replicate IsByte 32 (length bytes % 256) (mod-lt (length bytes) (ground arith)))

bytes_of-IsBytes32 : (b : Byte) → IsByte b → IsBytes32 (bytes_of b)
bytes_of-IsBytes32 b small = (refl, All-replicate IsByte 32 b small)

abbrev ones : Text
ones = bytes_to_prefixed_hex (bytes_of 1)

abbrev twos : Text
twos = bytes_to_prefixed_hex (bytes_of 2)

abbrev threes : Text
threes = bytes_to_prefixed_hex (bytes_of 3)

canonical : (b : Byte) → IsByte b → is_prefixed_hex32 (bytes_to_prefixed_hex (bytes_of b)) ≡ true
canonical b small = bytes_to_prefixed_hex-canonical (bytes_of b) (bytes_of-IsBytes32 b small)

bytes_to_prefixed_hex-hex_to_bytes_example : bytes_to_prefixed_hex (hex_to_bytes ones) ≡ ones
bytes_to_prefixed_hex-hex_to_bytes_example =
    bytes_to_prefixed_hex-hex_to_bytes ones (canonical 1 (ground arith))

bytes_to_big_endian_u64-u64_big_endian_bytes_example :
    (bytes : List Byte) × (u64_big_endian_bytes 258 ≡ ok bytes)
    × (bytes_to_big_endian_u64 bytes ≡ ok 258)
bytes_to_big_endian_u64-u64_big_endian_bytes_example =
    bytes_to_big_endian_u64-u64_big_endian_bytes 258 (ground arith)

replay_proof-proof_steps_example :
    (levels : List (List Text)) × (steps : List ProofStep) × (root : Text)
    × (merkle_levels_from_leaf_hashes toy_hash (ones ∷ twos ∷ threes ∷ []) ≡ ok levels)
    × (proof_steps_from_levels levels 2 ≡ ok steps)
    × (merkle_root_from_leaf_hashes toy_hash (ones ∷ twos ∷ threes ∷ []) ≡ ok root)
    × (replay_proof toy_hash threes steps ≡ ok root)
replay_proof-proof_steps_example =
    replay_proof-proof_steps toy_hash toy_hash-IsDigest ones (twos ∷ threes ∷ []) 2
      (canonical 1 (ground arith), (canonical 2 (ground arith), (canonical 3 (ground arith), tt)))
      refl

abbrev two_steps : List ProofStep
two_steps = record { sibling_on_left = false; sibling_hash = twos } ∷ []

abbrev toy_root : Text
toy_root = bytes_to_prefixed_hex (bytes_of 65)

replays : replay_proof toy_hash ones two_steps ≡ ok toy_root
unfolding replay_proof Merkle.replay_from Bytes.expect_prefixed_hex32 is_prefixed_hex32
    Bytes.is_lower_hex hex_to_bytes bytes_to_prefixed_hex Bytes.hex_chars Bytes.hex_char
    Bytes.hex_pairs Bytes.parse_hex_byte Bytes.parse_hex_unit Bytes.hex_digit Bytes.is_space
    Merkle.step_input Merkle.internal_input
replays = refl

abbrev swapped_steps : List ProofStep
swapped_steps = record { sibling_on_left = false; sibling_hash = ones } ∷ []

replays_swapped : replay_proof toy_hash twos swapped_steps ≡ ok toy_root
unfolding replay_proof Merkle.replay_from Bytes.expect_prefixed_hex32 is_prefixed_hex32
    Bytes.is_lower_hex hex_to_bytes bytes_to_prefixed_hex Bytes.hex_chars Bytes.hex_char
    Bytes.hex_pairs Bytes.parse_hex_byte Bytes.parse_hex_unit Bytes.hex_digit Bytes.is_space
    Merkle.step_input Merkle.internal_input
replays_swapped = refl

-- The toy hash is the length, so two leaves replay to one root, and the collision is at the first
-- step.
replay_proof-binding_example :
    ((ones ≡ twos) × (two_steps ≡ swapped_steps))
    ⊎ Collision toy_hash
        (hashed_inputs toy_hash (hex_to_bytes ones) two_steps)
        (hashed_inputs toy_hash (hex_to_bytes twos) swapped_steps)
replay_proof-binding_example =
    replay_proof-binding toy_hash toy_hash-IsDigest ones twos toy_root two_steps swapped_steps refl
      replays replays_swapped

abbrev two_levels : List (List Text)
two_levels = (ones ∷ twos ∷ []) ∷ (toy_root ∷ []) ∷ []

builds : merkle_levels_from_leaf_hashes toy_hash (ones ∷ twos ∷ []) ≡ ok two_levels
unfolding merkle_levels_from_leaf_hashes levels_above Merkle.next_level Merkle.internal_hash
    hex_to_bytes bytes_to_prefixed_hex Bytes.hex_chars Bytes.hex_char Bytes.hex_pairs
    Bytes.parse_hex_byte Bytes.parse_hex_unit Bytes.hex_digit Bytes.is_space Merkle.internal_input
builds = refl

proves : proof_steps_from_levels two_levels 0 ≡ ok two_steps
unfolding proof_steps_from_levels Merkle.steps_from Merkle.sibling_of
proves = refl

proof_steps-log_example : 2 ^ length two_steps < 2 * length (ones ∷ twos ∷ [])
proof_steps-log_example =
    proof_steps-log toy_hash (ones ∷ twos ∷ []) two_levels 0 two_steps builds proves

levels_above-fuel_example :
    levels_above toy_hash 2 (ones ∷ twos ∷ []) ≡ levels_above toy_hash 9 (ones ∷ twos ∷ [])
levels_above-fuel_example =
    levels_above-fuel toy_hash 2 9 (ones ∷ twos ∷ []) (ground arith) (ground arith)

abbrev a_leaf : AffectedCellLeaf
a_leaf = record {
  event_uid = ones;
  event_revision = 1;
  h3_index = 608819013513904127;
  geo_resolution = 7;
  cell_metric = "USGS_MMI";
  intensity_value = 650;
  intensity_scale = "MMI_X100";
  cell_band = 2;
  cells_generation_method = "shakemap_gridxml_h3_grid_point_p90_v1";
  oracle_version = 1;
}

abbrev a_leaf_bytes : List Byte
a_leaf_bytes = elim (serialize_affected_cell_leaf a_leaf) [
  | Result.ok bytes ↦ bytes
  | Result.throw e ↦ []
]

serializes : serialize_affected_cell_leaf a_leaf ≡ ok a_leaf_bytes
unfolding serialize_affected_cell_leaf Leaf.leaf_parts Leaf.enum_int Leaf.concat_parts
    Bytes.expect_prefixed_hex32 is_prefixed_hex32 Bytes.is_lower_hex hex_to_bytes
    bytes_to_prefixed_hex Bytes.hex_chars Bytes.hex_char Bytes.hex_pairs Bytes.parse_hex_byte
    Bytes.parse_hex_unit Bytes.hex_digit Bytes.is_space Bytes.u8_byte Bytes.u16_little_endian_bytes
    Bytes.u32_little_endian_bytes Bytes.u64_little_endian_bytes Bytes.le_bytes Bytes.shr_byte
serializes = refl

length-serialize_affected_cell_leaf_example : length a_leaf_bytes ≡ 59
length-serialize_affected_cell_leaf_example =
    length-serialize_affected_cell_leaf a_leaf a_leaf_bytes serializes

serialize_affected_cell_leaf-injective_example : a_leaf ≡ a_leaf
serialize_affected_cell_leaf-injective_example =
    serialize_affected_cell_leaf-injective a_leaf a_leaf a_leaf_bytes serializes serializes

abbrev pub two_cells : AffectedCellsInput
two_cells = record {
  event_uid = ones;
  event_revision = 1;
  oracle_version = 1;
  geo_resolution = 7;
  cells_generation_method = "shakemap_gridxml_h3_grid_point_p90_v1";
  cell_metric = "USGS_MMI";
  cell_aggregation = "grid_point_p90";
  intensity_scale = "MMI_X100";
  affected_cells =
      record { h3_index = b'9' ∷ []; intensity_value = 650; cell_band = 2 }
      ∷ record { h3_index = b'7' ∷ []; intensity_value = 700; cell_band = 3 }
      ∷ [];
}

abbrev pub two_hashes : List CellLeafHash
two_hashes = elim (affected_cells_leaf_hashes toy_hash two_cells) [
  | Result.ok hashes ↦ hashes
  | Result.throw e ↦ []
]

abbrev pub hash_of_nine : CellLeafHash
hash_of_nine = elim (get_elem? two_hashes 1) [
  | none ↦ record { h3_index = []; leaf_hash = [] }
  | some h ↦ h
]

pub hashed :
    (affected_cells_leaf_hashes toy_hash two_cells ≡ ok two_hashes)
    × (get_elem? two_hashes 1 ≡ some hash_of_nine)
unfolding affected_cells_leaf_hashes AffectedCells.affected_cell_leaves_from_input
    AffectedCells.sort_cells_by_h3_index AffectedCells.keyed_cell
    AffectedCells.has_adjacent_duplicate AffectedCells.leaf_of_cell AffectedCells.hash_leaves
    AffectedCells.text_eq sort_from insert_by_key Decimal.big_int Decimal.is_digit
    Decimal.decimal_value Leaf.affected_cell_leaf_hash Merkle.hash_leaf_bytes
    serialize_affected_cell_leaf Leaf.leaf_parts Leaf.enum_int Leaf.concat_parts
    Bytes.expect_prefixed_hex32 is_prefixed_hex32 Bytes.is_lower_hex hex_to_bytes
    bytes_to_prefixed_hex Bytes.hex_chars Bytes.hex_char Bytes.hex_pairs Bytes.parse_hex_byte
    Bytes.parse_hex_unit Bytes.hex_digit Bytes.is_space Bytes.u8_byte Bytes.u16_little_endian_bytes
    Bytes.u32_little_endian_bytes Bytes.u64_little_endian_bytes Bytes.le_bytes Bytes.shr_byte
hashed = (refl, refl)

affected_cell_proof_steps-replay_example :
    (i : ℕ) × (first : CellLeafHash) × (steps : List ProofStep) × (root : Text) × (get_elem?
        two_hashes i
      ≡ some first)
    × (first.h3_index ≡ hash_of_nine.h3_index)
    × (affected_cell_proof_steps toy_hash two_cells hash_of_nine.h3_index ≡ ok steps)
    × (affected_cells_root toy_hash two_cells ≡ ok root)
    × (replay_proof toy_hash first.leaf_hash steps ≡ ok root)
affected_cell_proof_steps-replay_example =
    affected_cell_proof_steps-replay toy_hash toy_hash-IsDigest two_cells two_hashes 1 hash_of_nine
      hashed.0 hashed.1

abbrev two_leaves : List AffectedCellLeaf
two_leaves = elim (affected_cell_leaves_from_input two_cells) [
  | Result.ok leaves ↦ leaves
  | Result.throw e ↦ []
]

orders : affected_cell_leaves_from_input two_cells ≡ ok two_leaves
unfolding affected_cell_leaves_from_input AffectedCells.sort_cells_by_h3_index
    AffectedCells.keyed_cell AffectedCells.has_adjacent_duplicate AffectedCells.leaf_of_cell
    AffectedCells.text_eq sort_from insert_by_key Decimal.big_int Decimal.is_digit
    Decimal.decimal_value
orders = refl

affected_cell_leaves_from_input-ascending_example : IsAscendingLeaves two_leaves
affected_cell_leaves_from_input-ascending_example =
    affected_cell_leaves_from_input-ascending two_cells two_leaves orders
