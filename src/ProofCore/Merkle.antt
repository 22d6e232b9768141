-- ===== src/ProofCore/Merkle.antt =====
-- packages/proof-core/src/merkle.ts and leaf-hash.ts, over the hash function that bytes.ts takes
-- from @noble/hashes. A tree index is a natural number: the code's test for a negative one never
-- holds.
pub mod Levels
pub mod Inclusion
pub mod Height
pub mod Binding
use sonari.Prelude.{
  ℕ, zero, suc, ◌+◌, ◌-◌, ◌*◌, ◌/◌, ◌%◌, ◌^◌, ◌≤◌, ◌<◌, ◌≡◌, Bool, true, false, ◌&&◌, ◌||◌, List,
  [], ◌∷◌, ◌++◌, Option, none, some, ltb, leb, ◌==◌, if◌then◌else◌, length, get_elem?, Result, ok,
  throw, ◌>>=◌, ◌>>◌, require, expect_some,
}
use sonari.ProofCore.Bytes.{
  Byte, Text, hex_to_bytes, bytes_to_prefixed_hex, expect_prefixed_hex32,
  leaf_hash_domain_separator, internal_node_domain_separator,
}

-- `sha256` of @noble/hashes.
abbrev pub Hash : Type 0
Hash = List Byte → List Byte

pub record ProofStep : Type 0 where
  pub sibling_on_left : Bool
  pub sibling_hash : Text

-- The 65 bytes under an internal node.
unfoldable pub internal_input : List Byte → List Byte → List Byte
internal_input left right = internal_node_domain_separator ∷ (left ++ right)

-- The two ways round in `replayProof`.
unfoldable pub step_input : Bool → List Byte → List Byte → List Byte
step_input sibling_on_left sibling current =
    if sibling_on_left then internal_input sibling current else internal_input current sibling

-- The last level of `levels`, as `levels[levels.length - 1]`.
unfoldable pub last_level : List (List Text) → Option (List Text)
last_level [] = none
last_level (level ∷ []) = some level
last_level (level ∷ next ∷ levels) = last_level (next ∷ levels)

unfoldable pub sibling_of : ℕ → ℕ
sibling_of index = if index % 2 == 0 then index + 1 else index - 1

-- The loop of `proofStepsFromLevels`, which stops before the last level.
unfoldable pub steps_from : List (List Text) → ℕ → Result (List ProofStep)
steps_from [] index = ok []
steps_from (current ∷ []) index = ok []
steps_from (current ∷ next ∷ levels) index =
    let sibling_index = sibling_of index in
    let rest = steps_from (next ∷ levels) (index / 2) in
    if leb (length current) sibling_index then rest else do
      sibling_hash ← expect_some (get_elem? current sibling_index) "unexpected undefined sibling"
      steps ← rest
      ok (record { sibling_on_left = ltb sibling_index index; sibling_hash = sibling_hash } ∷ steps)

unfoldable pub proof_steps_from_levels : List (List Text) → ℕ → Result (List ProofStep)
proof_steps_from_levels [] leaf_index = throw "levels array is empty"
proof_steps_from_levels (leaf_level ∷ levels) leaf_index = do
  require (ltb leaf_index (length leaf_level)) "leafIndex is out of range for the tree"
  steps_from (leaf_level ∷ levels) leaf_index

module _ (sha256 : Hash) where
  unfoldable pub hash_leaf_bytes : List Byte → Text
  hash_leaf_bytes leaf_bytes =
      bytes_to_prefixed_hex (sha256 (leaf_hash_domain_separator ∷ leaf_bytes))

  -- The loop of `replayProof`.
  unfoldable pub replay_from : List Byte → List ProofStep → Result (List Byte)
  replay_from current [] = ok current
  replay_from current (step ∷ proof) = do
    sibling_hash ← expect_prefixed_hex32 step.sibling_hash
    replay_from (sha256 (step_input step.sibling_on_left (hex_to_bytes sibling_hash) current)) proof

  unfoldable pub replay_proof : Text → List ProofStep → Result Text
  replay_proof leaf_hash_value proof = do
    leaf_hash ← expect_prefixed_hex32 leaf_hash_value
    current ← replay_from (hex_to_bytes leaf_hash) proof
    ok (bytes_to_prefixed_hex current)

  unfoldable pub internal_hash : Text → Text → Text
  internal_hash left right =
      bytes_to_prefixed_hex (sha256 (internal_input (hex_to_bytes left) (hex_to_bytes right)))

  -- The inner loop of `merkleLevelsFromLeafHashes`: an odd tail is promoted without hashing.
  unfoldable pub next_level : List Text → List Text
  next_level [] = []
  next_level (tail ∷ []) = tail ∷ []
  next_level (left ∷ right ∷ rest) = internal_hash left right ∷ next_level rest

  -- The outer loop, on fuel: the levels above `current`.
  unfoldable pub levels_above : ℕ → List Text → List (List Text)
  levels_above zero current = []
  levels_above (suc fuel) current =
      let rest = levels_above fuel (next_level current) in
      if ltb 1 (length current) then next_level current ∷ rest else []

  -- A level is shorter than the one below it, so the number of leaves is enough fuel.
  unfoldable pub merkle_levels_from_leaf_hashes : List Text → Result (List (List Text))
  merkle_levels_from_leaf_hashes [] = throw "empty Merkle tree"
  merkle_levels_from_leaf_hashes (leaf ∷ leaves) =
      ok ((leaf ∷ leaves) ∷ levels_above (length (leaf ∷ leaves)) (leaf ∷ leaves))

  unfoldable pub merkle_root_from_leaf_hashes : List Text → Result Text
  merkle_root_from_leaf_hashes leaf_hashes = do
    levels ← merkle_levels_from_leaf_hashes leaf_hashes
    root_level ← expect_some (last_level levels) "unexpected empty root level"
    expect_some (get_elem? root_level 0) "unexpected empty root level"
