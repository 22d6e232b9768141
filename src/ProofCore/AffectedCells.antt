-- ===== src/ProofCore/AffectedCells.antt =====
-- packages/proof-core/src/affected-cells.ts: the leaves, the root and the proofs of a set of
-- affected cells. `Array.prototype.sort` is stable, so it is insertion sort by the key.
pub mod Proofs
pub mod Order
use sonari.Prelude.{
  ℕ, zero, suc, ◌+◌, ◌≡◌, Bool, true, false, List, [], ◌∷◌, ◌++◌, map, Option, none, some, String,
  ltb, leb, ◌==◌, ◌&&◌, if◌then◌else◌, Result, ok, throw, ◌>>=◌, ◌>>◌, require, expect_some,
  traverse, get_elem?,
}
use sonari.Prelude.Sorting.{sort_from}
use sonari.ProofCore.Bytes.{Text}
use sonari.ProofCore.Decimal.{big_int}
use sonari.ProofCore.Leaf.{AffectedCellLeaf, affected_cell_leaf_hash}
use sonari.ProofCore.Merkle.{
  Hash, ProofStep, merkle_levels_from_leaf_hashes, merkle_root_from_leaf_hashes,
  proof_steps_from_levels,
}

pub record AffectedCellEntry : Type 0 where
  pub h3_index : Text
  pub intensity_value : ℕ
  pub cell_band : ℕ

pub record AffectedCellsInput : Type 0 where
  pub event_uid : Text
  pub event_revision : ℕ
  pub oracle_version : ℕ
  pub geo_resolution : ℕ
  pub cells_generation_method : String
  pub cell_metric : String
  pub cell_aggregation : String
  pub intensity_scale : String
  pub affected_cells : List AffectedCellEntry

pub record CellLeafHash : Type 0 where
  pub h3_index : Text
  pub leaf_hash : Text

-- `===` of strings.
unfoldable pub text_eq : Text → Text → Bool
text_eq [] [] = true
text_eq [] (y ∷ ys) = false
text_eq (x ∷ xs) [] = false
text_eq (x ∷ xs) (y ∷ ys) = x == y && text_eq xs ys

unfoldable pub keyed_cell : AffectedCellEntry → Result (ℕ × AffectedCellEntry)
keyed_cell cell = do key ← big_int cell.h3_index; ok (key, cell)

unfoldable pub sort_cells_by_h3_index : List AffectedCellEntry → Result (List AffectedCellEntry)
sort_cells_by_h3_index cells = do
  keyed ← traverse keyed_cell cells
  ok (map (λ c. c.1) (sort_from [] keyed))

-- The check of neighbours for one h3 index.
unfoldable pub has_adjacent_duplicate : List AffectedCellEntry → Bool
has_adjacent_duplicate [] = false
has_adjacent_duplicate (prev ∷ []) = false
has_adjacent_duplicate (prev ∷ curr ∷ rest) =
    if text_eq curr.h3_index prev.h3_index then true else has_adjacent_duplicate (curr ∷ rest)

unfoldable pub leaf_of_cell : AffectedCellsInput → AffectedCellEntry → Result AffectedCellLeaf
leaf_of_cell input cell = do
  h3_index ← big_int cell.h3_index
  ok (record {
    event_uid = input.event_uid;
    event_revision = input.event_revision;
    h3_index = h3_index;
    geo_resolution = input.geo_resolution;
    cell_metric = input.cell_metric;
    intensity_value = cell.intensity_value;
    intensity_scale = input.intensity_scale;
    cell_band = cell.cell_band;
    cells_generation_method = input.cells_generation_method;
    oracle_version = input.oracle_version;
  })

unfoldable pub affected_cell_leaves_from_input : AffectedCellsInput → Result (List AffectedCellLeaf)
affected_cell_leaves_from_input input = do
  sorted ← sort_cells_by_h3_index input.affected_cells
  require (if has_adjacent_duplicate sorted then false else true)
      "Duplicate h3_index detected in leaves"
  traverse (leaf_of_cell input) sorted

-- `sortedCells.findIndex((c) => c.h3_index === h3Index)`; none is -1.
unfoldable pub find_cell : Text → List AffectedCellEntry → ℕ → Option ℕ
find_cell h3_index [] index = none
find_cell h3_index (cell ∷ cells) index =
    let rest = find_cell h3_index cells (suc index) in
    if text_eq cell.h3_index h3_index then some index else rest

module _ (sha256 : Hash) where
  -- The loop of `affectedCellsLeafHashes` over the two lists side by side; it runs over the leaves.
  unfoldable pub hash_leaves :
      List AffectedCellLeaf → List AffectedCellEntry → Result (List CellLeafHash)
  hash_leaves [] cells = ok []
  hash_leaves (leaf ∷ leaves) [] = throw "Unexpected undefined"
  hash_leaves (leaf ∷ leaves) (cell ∷ cells) = do
    leaf_hash ← affected_cell_leaf_hash sha256 leaf
    rest ← hash_leaves leaves cells
    ok (record { h3_index = cell.h3_index; leaf_hash = leaf_hash } ∷ rest)

  unfoldable pub affected_cells_leaf_hashes : AffectedCellsInput → Result (List CellLeafHash)
  affected_cells_leaf_hashes input = do
    leaves ← affected_cell_leaves_from_input input
    sorted_cells ← sort_cells_by_h3_index input.affected_cells
    hash_leaves leaves sorted_cells

  unfoldable pub affected_cells_root : AffectedCellsInput → Result Text
  affected_cells_root input = do
    hashes ← affected_cells_leaf_hashes input
    merkle_root_from_leaf_hashes sha256 (map (λ h. h.leaf_hash) hashes)

  unfoldable pub affected_cell_proof_steps : AffectedCellsInput → Text → Result (List ProofStep)
  affected_cell_proof_steps input h3_index = do
    sorted_cells ← sort_cells_by_h3_index input.affected_cells
    leaf_index ←
        expect_some (find_cell h3_index sorted_cells 0) "h3_index not found in affected_cells"
    hashes ← affected_cells_leaf_hashes input
    levels ← merkle_levels_from_leaf_hashes sha256 (map (λ h. h.leaf_hash) hashes)
    proof_steps_from_levels levels leaf_index

pub data ProofDirection : Type 0 where
  left right : ProofDirection

pub record DirectionalProofStep : Type 0 where
  pub direction : ProofDirection
  pub sibling_hash : Text

unfoldable pub is_left : ProofDirection → Bool
is_left left = true
is_left right = false

unfoldable pub proof_step_to_directional : ProofStep → DirectionalProofStep
proof_step_to_directional step = record {
  direction = if step.sibling_on_left then left else right;
  sibling_hash = step.sibling_hash;
}

unfoldable pub directional_to_proof_step : DirectionalProofStep → ProofStep
directional_to_proof_step step = record {
  sibling_on_left = is_left step.direction;
  sibling_hash = step.sibling_hash;
}
