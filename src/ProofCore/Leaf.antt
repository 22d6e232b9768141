-- ===== src/ProofCore/Leaf.antt =====
-- packages/proof-core/src/affected-cell-leaf.ts: the canonical bytes of an affected cell. The enum
-- values are the code's strings, so that the lookups can fail.
pub mod Encoding
use sonari.Prelude.{
  ℕ, zero, suc, ◌+◌, ◌≡◌, Bool, true, false, List, [], ◌∷◌, ◌++◌, Option, none, some, String,
  if◌then◌else◌, Result, ok, throw, ◌>>=◌, ◌>>◌, expect_some,
}
use text.Mathlib.Text.{◌==◌ as str_eq}
use sonari.ProofCore.Bytes.{
  Byte, Text, u8_byte, u16_little_endian_bytes, u32_little_endian_bytes, u64_little_endian_bytes,
  hex_to_bytes, expect_prefixed_hex32,
}
use sonari.ProofCore.Merkle.{Hash, hash_leaf_bytes}

abbrev cell_metric_int : List (String × ℕ)
cell_metric_int = ("USGS_MMI", 1) ∷ []

abbrev intensity_scale_int : List (String × ℕ)
intensity_scale_int = ("MMI_X100", 1) ∷ []

abbrev cells_generation_method_int : List (String × ℕ)
cells_generation_method_int =
    ("shakemap_gridxml_h3_grid_point_p90_v1", 1)
    ∷ ("shakemap_hdf_h3_area_weighted_p90_v1", 2)
    ∷ ("shakemap_gridxml_h3_center_bilinear_v1", 3)
    ∷ []

-- A property of an object literal, by its key.
unfoldable pub enum_int : List (String × ℕ) → String → Option ℕ
enum_int [] key = none
enum_int ((k, v) ∷ table) key = if str_eq k key then some v else enum_int table key

pub record AffectedCellLeaf : Type 0 where
  pub event_uid : Text
  pub event_revision : ℕ
  pub h3_index : ℕ
  pub geo_resolution : ℕ
  pub cell_metric : String
  pub intensity_value : ℕ
  pub intensity_scale : String
  pub cell_band : ℕ
  pub cells_generation_method : String
  pub oracle_version : ℕ

unfoldable pub concat_parts : List (List Byte) → List Byte
concat_parts [] = []
concat_parts (part ∷ parts) = part ++ concat_parts parts

-- The ten fields in canonical order, before they are joined.
unfoldable pub leaf_parts : AffectedCellLeaf → Result (List (List Byte))
leaf_parts leaf = do
  event_uid ← expect_prefixed_hex32 leaf.event_uid
  cell_metric ← expect_some (enum_int cell_metric_int leaf.cell_metric) "Unknown cell_metric"
  intensity_scale ←
      expect_some (enum_int intensity_scale_int leaf.intensity_scale) "Unknown intensity_scale"
  cells_generation_method ←
      expect_some (enum_int cells_generation_method_int leaf.cells_generation_method)
        "Unknown cells_generation_method"
  event_revision_bytes ← u32_little_endian_bytes leaf.event_revision
  h3_index_bytes ← u64_little_endian_bytes leaf.h3_index
  geo_resolution_bytes ← u8_byte leaf.geo_resolution
  cell_metric_bytes ← u8_byte cell_metric
  intensity_value_bytes ← u16_little_endian_bytes leaf.intensity_value
  intensity_scale_bytes ← u8_byte intensity_scale
  cell_band_bytes ← u8_byte leaf.cell_band
  cells_generation_method_bytes ← u8_byte cells_generation_method
  oracle_version_bytes ← u64_little_endian_bytes leaf.oracle_version
  ok (
      hex_to_bytes event_uid
      ∷ event_revision_bytes
      ∷ h3_index_bytes
      ∷ geo_resolution_bytes
      ∷ cell_metric_bytes
      ∷ intensity_value_bytes
      ∷ intensity_scale_bytes
      ∷ cell_band_bytes
      ∷ cells_generation_method_bytes
      ∷ oracle_version_bytes
      ∷ [])

unfoldable pub serialize_affected_cell_leaf : AffectedCellLeaf → Result (List Byte)
serialize_affected_cell_leaf leaf = do parts ← leaf_parts leaf; ok (concat_parts parts)

unfoldable pub affected_cell_leaf_hash : Hash → AffectedCellLeaf → Result Text
affected_cell_leaf_hash sha256 leaf = do
  bytes ← serialize_affected_cell_leaf leaf
  ok (hash_leaf_bytes sha256 bytes)
