-- ===== src/ProofCore/Manifest.antt =====
-- packages/proof-core/src/manifest.ts: the proofs of all cells of a set, in shards, and the manifest
-- of the shards. `JSON.stringify` writes the texts of an entry, digits and hex, as they are.
pub mod Entries
pub mod Shards
pub mod Groups
pub mod Partition
pub mod Returns
use sonari.Prelude.{
  ℕ, zero, suc, ◌+◌, ◌==◌, Bool, true, false, Option, none, some, List, [], ◌∷◌, ◌++◌, map, ltb,
  length, if◌then◌else◌, Result, ok, throw, ◌>>=◌, ◌>>◌, require, expect_some, traverse,
}
use sonari.Prelude.Sorting.{sort_from}
use sonari.ProofCore.Bytes.{Byte, Text, bytes_to_prefixed_hex}
use sonari.ProofCore.Decimal.{big_int}
use sonari.ProofCore.Merkle.{
  Hash, ProofStep, merkle_levels_from_leaf_hashes, proof_steps_from_levels,
}
use sonari.ProofCore.Shard.{proof_shard_id}
use sonari.ProofCore.AffectedCells.{
  AffectedCellsInput, CellLeafHash, affected_cells_leaf_hashes, affected_cells_root,
}

pub record ProofEntry : Type 0 where
  pub h3_index : Text
  pub leaf_hash : Text
  pub proof : List ProofStep

pub record ProofShardGroup : Type 0 where
  pub shard_id : ℕ
  pub proof_count : ℕ
  pub sha256 : Text
  pub byte_size : ℕ
  pub proofs : List ProofEntry

-- A group in the manifest.
pub record ProofShard : Type 0 where
  pub shard_id : ℕ
  pub proof_count : ℕ
  pub sha256 : Text
  pub byte_size : ℕ

pub record ProofManifest : Type 0 where
  pub merkle_root : Text
  pub shard_count : ℕ
  pub total_proof_count : ℕ
  pub shards : List ProofShard

-- JSON: a text in quotes, an array of the texts of its elements, and the objects of an entry.
unfoldable pub json_string : Text → List Byte
json_string text = b'"' ∷ (text ++ (b'"' ∷ []))

unfoldable pub json_rest : List (List Byte) → List Byte
json_rest [] = b']' ∷ []
json_rest (item ∷ items) = b',' ∷ (item ++ json_rest items)

unfoldable pub json_array : List (List Byte) → List Byte
json_array [] = b'[' ∷ b']' ∷ []
json_array (item ∷ items) = b'[' ∷ (item ++ json_rest items)

unfoldable pub json_bool : Bool → List Byte
json_bool true = b't' ∷ b'r' ∷ b'u' ∷ b'e' ∷ []
json_bool false = b'f' ∷ b'a' ∷ b'l' ∷ b's' ∷ b'e' ∷ []

unfoldable pub json_step : ProofStep → List Byte
json_step step =
    (b'{' ∷ b'"' ∷ b's' ∷ b'i' ∷ b'b' ∷ b'l' ∷ b'i' ∷ b'n' ∷ b'g' ∷ b'_' ∷ b'o' ∷ b'n' ∷ b'_' ∷ b'l'
      ∷ b'e' ∷ b'f' ∷ b't' ∷ b'"' ∷ b':' ∷ [])
    ++ json_bool step.sibling_on_left
    ++ (b',' ∷ b'"' ∷ b's' ∷ b'i' ∷ b'b' ∷ b'l' ∷ b'i' ∷ b'n' ∷ b'g' ∷ b'_' ∷ b'h' ∷ b'a' ∷ b's'
        ∷ b'h' ∷ b'"' ∷ b':' ∷ [])
    ++ json_string step.sibling_hash
    ++ (b'}' ∷ [])

unfoldable pub json_entry : ProofEntry → List Byte
json_entry entry =
    (b'{' ∷ b'"' ∷ b'h' ∷ b'3' ∷ b'_' ∷ b'i' ∷ b'n' ∷ b'd' ∷ b'e' ∷ b'x' ∷ b'"' ∷ b':' ∷ [])
    ++ json_string entry.h3_index
    ++ (b',' ∷ b'"' ∷ b'l' ∷ b'e' ∷ b'a' ∷ b'f' ∷ b'_' ∷ b'h' ∷ b'a' ∷ b's' ∷ b'h' ∷ b'"' ∷ b':'
        ∷ [])
    ++ json_string entry.leaf_hash
    ++ (b',' ∷ b'"' ∷ b'p' ∷ b'r' ∷ b'o' ∷ b'o' ∷ b'f' ∷ b'"' ∷ b':' ∷ [])
    ++ json_array (map json_step entry.proof)
    ++ (b'}' ∷ [])

unfoldable pub proof_entries_canonical_bytes : List ProofEntry → List Byte
proof_entries_canonical_bytes entries = json_array (map json_entry entries)

-- The `Map` from shards to their entries, in order of insertion.
abbrev pub Shards : Type 0
Shards = List (ℕ × List ProofEntry)

unfoldable pub add_to_shard : ℕ → ProofEntry → Shards → Shards
add_to_shard shard_id entry [] = (shard_id, entry ∷ []) ∷ []
add_to_shard shard_id entry ((id, entries) ∷ shards) =
    let rest = add_to_shard shard_id entry shards in
    if id == shard_id then (id, entries ++ (entry ∷ [])) ∷ shards else (id, entries) ∷ rest

unfoldable pub get_shard : ℕ → Shards → Option (List ProofEntry)
get_shard shard_id [] = none
get_shard shard_id ((id, entries) ∷ shards) =
    if id == shard_id then some entries else get_shard shard_id shards

unfoldable pub sorted_ids : Shards → List ℕ
sorted_ids shards = map (λ k. k.1) (sort_from [] (map (λ s. (s.0, s.0)) shards))

unfoldable pub keyed_entry : ProofEntry → Result (ℕ × ProofEntry)
keyed_entry entry = do key ← big_int entry.h3_index; ok (key, entry)

unfoldable pub sort_proofs : List ProofEntry → Result (List ProofEntry)
sort_proofs entries = do
  keyed ← traverse keyed_entry entries
  ok (map (λ e. e.1) (sort_from [] keyed))

unfoldable pub total_of : List ProofShardGroup → ℕ
total_of [] = 0
total_of (group ∷ groups) = group.proof_count + total_of groups

unfoldable pub shard_of_group : ProofShardGroup → ProofShard
shard_of_group group = record {
  shard_id = group.shard_id;
  proof_count = group.proof_count;
  sha256 = group.sha256;
  byte_size = group.byte_size;
}

module _ (sha256 : Hash) where
  -- The loop of `buildProofEntries`, from index `i` on.
  unfoldable pub entries_from : List (List Text) → List CellLeafHash → ℕ → Result (List ProofEntry)
  entries_from levels [] i = ok []
  entries_from levels (entry ∷ hashes) i = do
    proof ← proof_steps_from_levels levels i
    rest ← entries_from levels hashes (suc i)
    ok (record { h3_index = entry.h3_index; leaf_hash = entry.leaf_hash; proof = proof } ∷ rest)

  unfoldable pub build_proof_entries : AffectedCellsInput → Result (List ProofEntry)
  build_proof_entries input = do
    hashes ← affected_cells_leaf_hashes sha256 input
    levels ← merkle_levels_from_leaf_hashes sha256 (map (λ h. h.leaf_hash) hashes)
    entries_from levels hashes 0

  -- The shard of an entry.
  unfoldable pub shard_of : ℕ → ProofEntry → Result ℕ
  shard_of shard_count entry = do
    h3_index ← big_int entry.h3_index
    proof_shard_id sha256 h3_index shard_count

  unfoldable pub group_entries : ℕ → List ProofEntry → Shards → Result Shards
  group_entries shard_count [] shards = ok shards
  group_entries shard_count (entry ∷ entries) shards = do
    shard_id ← shard_of shard_count entry
    group_entries shard_count entries (add_to_shard shard_id entry shards)

  unfoldable pub group_of : Shards → ℕ → Result ProofShardGroup
  group_of shards shard_id = do
    found ← expect_some (get_shard shard_id shards) "Unexpected undefined shard"
    proofs ← sort_proofs found
    ok (record {
      shard_id = shard_id;
      proof_count = length proofs;
      sha256 = bytes_to_prefixed_hex (sha256 (proof_entries_canonical_bytes proofs));
      byte_size = length (proof_entries_canonical_bytes proofs);
      proofs = proofs;
    })

  unfoldable pub build_proof_shard_groups : AffectedCellsInput → ℕ → Result (List ProofShardGroup)
  build_proof_shard_groups input shard_count = do
    require (ltb 0 shard_count) "shardCount must be a positive integer"
    entries ← build_proof_entries input
    shards ← group_entries shard_count entries []
    traverse (group_of shards) (sorted_ids shards)

  unfoldable pub build_proof_manifest : AffectedCellsInput → ℕ → Result ProofManifest
  build_proof_manifest input shard_count = do
    merkle_root ← affected_cells_root sha256 input
    groups ← build_proof_shard_groups input shard_count
    ok (record {
      merkle_root = merkle_root;
      shard_count = shard_count;
      total_proof_count = total_of groups;
      shards = map shard_of_group groups;
    })
