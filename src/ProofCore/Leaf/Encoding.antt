-- ===== src/ProofCore/Leaf/Encoding.antt =====
-- The bytes of a leaf of packages/proof-core/src/affected-cell-leaf.ts.
use sonari.Prelude.{
  ℕ, ◌+◌, ◌≤◌, ◌≡◌, refl, sym, ap, ap₂, ◌∙◌, List, [], ◌∷◌, map, Option, none, some, String, ok,
  expect_some, >>=-elim_ok, ok-injective, length, ◌⊎◌, length-append, arith,
}
use text.Mathlib.TextEquality.{eq_iff}
use sonari.ProofCore.Bytes.{
  Byte, u8_byte, u16_little_endian_bytes, u32_little_endian_bytes, u64_little_endian_bytes,
  hex_to_bytes, bytes_to_prefixed_hex, expect_prefixed_hex32, u64_max,
}
use sonari.ProofCore.Bytes.Hex.{
  IsCanonical, expect_prefixed_hex32-eq-ok, hex_to_bytes-IsBytes32,
  bytes_to_prefixed_hex-hex_to_bytes,
}
use sonari.ProofCore.Bytes.Words.{
  IsWord, from_little_endian, u8_byte-IsWord, u16_little_endian_bytes-IsWord,
  u32_little_endian_bytes-IsWord, u64_little_endian_bytes-IsWord, u64_little_endian_bytes-le,
}
use sonari.ProofCore.Merkle.Binding.{append-cancel}
use sonari.ProofCore.Leaf.{
  AffectedCellLeaf, cell_metric_int, intensity_scale_int, cells_generation_method_int, enum_int,
  concat_parts, leaf_parts, serialize_affected_cell_leaf,
}

concat_parts-cancel :
    (ps qs : List (List Byte))
    → map (λ p. length p) ps ≡ map (λ p. length p) qs
    → concat_parts ps ≡ concat_parts qs
    → ps ≡ qs
unfolding concat_parts
concat_parts-cancel [] [] l e = refl
concat_parts-cancel [] (q ∷ qs) l e = absurd (cc)
concat_parts-cancel (p ∷ ps) [] l e = absurd (cc)
concat_parts-cancel (p ∷ ps) (q ∷ qs) l e =
    let (this, rest) = append-cancel p q (concat_parts ps) (concat_parts qs) (cc) e in
    ap₂ ◌∷◌ this (concat_parts-cancel ps qs (cc) rest)

total : List ℕ → ℕ
total [] = 0
total (n ∷ ns) = n + total ns

length-concat_parts :
    (ps : List (List Byte)) → length (concat_parts ps) ≡ total (map (λ p. length p) ps)
unfolding concat_parts total
length-concat_parts [] = refl
length-concat_parts (p ∷ ps) =
    length-append p (concat_parts ps) ∙ ap (λ n. length p + n) (length-concat_parts ps)

-- Each enum table gives different strings different numbers.
enum_int-injective_metric :
    (s t : String) {n : ℕ}
    → enum_int cell_metric_int s ≡ some n
    → enum_int cell_metric_int t ≡ some n
    → s ≡ t
unfolding enum_int
enum_int-injective_metric s t p q = ground (arith, eq_iff "USGS_MMI" s, eq_iff "USGS_MMI" t)

enum_int-injective_scale :
    (s t : String) {n : ℕ}
    → enum_int intensity_scale_int s ≡ some n
    → enum_int intensity_scale_int t ≡ some n
    → s ≡ t
unfolding enum_int
enum_int-injective_scale s t p q = ground (arith, eq_iff "MMI_X100" s, eq_iff "MMI_X100" t)

abbrev MethodKey : String → ℕ → Type 0
MethodKey s n =
    (n ≡ 1) × (s ≡ "shakemap_gridxml_h3_grid_point_p90_v1")
    ⊎ (n ≡ 2) × (s ≡ "shakemap_hdf_h3_area_weighted_p90_v1")
    ⊎ (n ≡ 3) × (s ≡ "shakemap_gridxml_h3_center_bilinear_v1")

enum_int-method :
    (s : String) (n : ℕ) → enum_int cells_generation_method_int s ≡ some n → MethodKey s n
unfolding enum_int
enum_int-method s n p = ground (
  arith,
  eq_iff "shakemap_gridxml_h3_grid_point_p90_v1" s,
  eq_iff "shakemap_hdf_h3_area_weighted_p90_v1" s,
  eq_iff "shakemap_gridxml_h3_center_bilinear_v1" s,
)

enum_int-injective_method :
    (s t : String) {n : ℕ}
    → enum_int cells_generation_method_int s ≡ some n
    → enum_int cells_generation_method_int t ≡ some n
    → s ≡ t
enum_int-injective_method s t {n} p q = ground (arith, enum_int-method s n p, enum_int-method t n q)

-- What an encoded leaf is made of.
record Encoded (leaf : AffectedCellLeaf) (parts : List (List Byte)) : Type 0 where
  revision : List Byte
  h3 : List Byte
  geo : List Byte
  metric : List Byte
  intensity : List Byte
  scale : List Byte
  band : List Byte
  method : List Byte
  version : List Byte
  metric_int : ℕ
  scale_int : ℕ
  method_int : ℕ
  canonical : IsCanonical leaf.event_uid
  parts_lem :
      parts
      ≡ hex_to_bytes leaf.event_uid
        ∷ revision
        ∷ h3
        ∷ geo
        ∷ metric
        ∷ intensity
        ∷ scale
        ∷ band
        ∷ method
        ∷ version
        ∷ []
  metric_key : enum_int cell_metric_int leaf.cell_metric ≡ some metric_int
  scale_key : enum_int intensity_scale_int leaf.intensity_scale ≡ some scale_int
  method_key : enum_int cells_generation_method_int leaf.cells_generation_method ≡ some method_int
  revision_word : IsWord 4 leaf.event_revision revision
  h3_word : IsWord 8 leaf.h3_index h3
  h3_small : leaf.h3_index ≤ u64_max
  geo_word : IsWord 1 leaf.geo_resolution geo
  metric_word : IsWord 1 metric_int metric
  intensity_word : IsWord 2 leaf.intensity_value intensity
  scale_word : IsWord 1 scale_int scale
  band_word : IsWord 1 leaf.cell_band band
  method_word : IsWord 1 method_int method
  version_word : IsWord 8 leaf.oracle_version version

expect_some-eq-ok :
    {A : Type 0} (o : Option A) (e : String) {a : A} → expect_some o e ≡ ok a → o ≡ some a
expect_some-eq-ok none e h = absurd (cc)
expect_some-eq-ok (some a) e h = cc

leaf_parts-Encoded :
    (leaf : AffectedCellLeaf) (parts : List (List Byte))
    → leaf_parts leaf ≡ ok parts
    → Encoded leaf parts
unfolding leaf_parts
leaf_parts-Encoded leaf parts e =
    >>=-elim_ok (expect_prefixed_hex32 leaf.event_uid) _ e λ uid uid_ok e₁.
      >>=-elim_ok (expect_some (enum_int cell_metric_int leaf.cell_metric) _) _ e₁
        λ metric_int metric_key e₂.
          >>=-elim_ok (expect_some (enum_int intensity_scale_int leaf.intensity_scale) _) _ e₂
            λ scale_int scale_key e₃.
              >>=-elim_ok
                (expect_some (enum_int cells_generation_method_int leaf.cells_generation_method) _)
                _ e₃
                λ method_int method_key e₄.
                  >>=-elim_ok (u32_little_endian_bytes leaf.event_revision) _ e₄
                    λ revision revision_ok e₅.
                      >>=-elim_ok (u64_little_endian_bytes leaf.h3_index) _ e₅ λ h3 h3_ok e₆.
                        >>=-elim_ok (u8_byte leaf.geo_resolution) _ e₆ λ geo geo_ok e₇.
                          >>=-elim_ok (u8_byte metric_int) _ e₇ λ metric metric_ok e₈.
                            >>=-elim_ok (u16_little_endian_bytes leaf.intensity_value) _ e₈
                              λ intensity intensity_ok e₉.
                                >>=-elim_ok (u8_byte scale_int) _ e₉ λ scale scale_ok f₁.
                                  >>=-elim_ok (u8_byte leaf.cell_band) _ f₁ λ band band_ok f₂.
                                    >>=-elim_ok (u8_byte method_int) _ f₂ λ method method_ok f₃.
                                      >>=-elim_ok (u64_little_endian_bytes leaf.oracle_version) _ f₃
                                        λ version version_ok f₄.
                                          let (canonical, same) =
                                            expect_prefixed_hex32-eq-ok leaf.event_uid uid_ok in
                                          record {
                                            revision = revision;
                                            h3 = h3;
                                            geo = geo;
                                            metric = metric;
                                            intensity = intensity;
                                            scale = scale;
                                            band = band;
                                            method = method;
                                            version = version;
                                            metric_int = metric_int;
                                            scale_int = scale_int;
                                            method_int = method_int;
                                            canonical = canonical;
                                            parts_lem =
                                                sym (ok-injective f₄)
                                                ∙ ap
                                                    (λ u.
                                                      hex_to_bytes u
                                                      ∷ revision
                                                      ∷ h3
                                                      ∷ geo
                                                      ∷ metric
                                                      ∷ intensity
                                                      ∷ scale
                                                      ∷ band
                                                      ∷ method
                                                      ∷ version
                                                      ∷ [])
                                                    same;
                                            metric_key = expect_some-eq-ok _ _ metric_key;
                                            scale_key = expect_some-eq-ok _ _ scale_key;
                                            method_key = expect_some-eq-ok _ _ method_key;
                                            revision_word =
                                                u32_little_endian_bytes-IsWord _ _ revision_ok;
                                            h3_word = u64_little_endian_bytes-IsWord _ _ h3_ok;
                                            h3_small = u64_little_endian_bytes-le _ _ h3_ok;
                                            geo_word = u8_byte-IsWord _ _ geo_ok;
                                            metric_word = u8_byte-IsWord _ _ metric_ok;
                                            intensity_word =
                                                u16_little_endian_bytes-IsWord _ _ intensity_ok;
                                            scale_word = u8_byte-IsWord _ _ scale_ok;
                                            band_word = u8_byte-IsWord _ _ band_ok;
                                            method_word = u8_byte-IsWord _ _ method_ok;
                                            version_word =
                                                u64_little_endian_bytes-IsWord _ _ version_ok;
                                          }

IsWord-injective :
    (width n m : ℕ) (p q : List Byte) → IsWord width n p → IsWord width m q → p ≡ q → n ≡ m
IsWord-injective width n m p q w v e = sym w.value ∙ ap from_little_endian e ∙ v.value

-- The lengths of the ten parts.
Encoded-lengths :
    (leaf : AffectedCellLeaf) (parts : List (List Byte))
    → Encoded leaf parts
    → map (λ p. length p) parts ≡ 32 ∷ 4 ∷ 8 ∷ 1 ∷ 1 ∷ 2 ∷ 1 ∷ 1 ∷ 1 ∷ 8 ∷ []
Encoded-lengths leaf parts c =
    ap (map (λ p. length p)) c.parts_lem
    ∙ simp (
      (hex_to_bytes-IsBytes32 leaf.event_uid).0,
      c.revision_word.long,
      c.h3_word.long,
      c.geo_word.long,
      c.metric_word.long,
      c.intensity_word.long,
      c.scale_word.long,
      c.band_word.long,
      c.method_word.long,
      c.version_word.long,
    )

Encoded-injective :
    (l m : AffectedCellLeaf) (ps qs : List (List Byte))
    → Encoded l ps
    → Encoded m qs
    → ps ≡ qs
    → l ≡ m
Encoded-injective l m ps qs c d e =
    let same = sym c.parts_lem ∙ e ∙ d.parts_lem in
    let uid : l.event_uid ≡ m.event_uid =
      sym (bytes_to_prefixed_hex-hex_to_bytes l.event_uid c.canonical)
      ∙ ap bytes_to_prefixed_hex (cc)
      ∙ bytes_to_prefixed_hex-hex_to_bytes m.event_uid d.canonical in
    let revision =
      IsWord-injective 4 _ _ c.revision d.revision c.revision_word d.revision_word (cc) in
    let h3 = IsWord-injective 8 _ _ c.h3 d.h3 c.h3_word d.h3_word (cc) in
    let geo = IsWord-injective 1 _ _ c.geo d.geo c.geo_word d.geo_word (cc) in
    let metric_int = IsWord-injective 1 _ _ c.metric d.metric c.metric_word d.metric_word (cc) in
    let intensity =
      IsWord-injective 2 _ _ c.intensity d.intensity c.intensity_word d.intensity_word (cc) in
    let scale_int = IsWord-injective 1 _ _ c.scale d.scale c.scale_word d.scale_word (cc) in
    let band = IsWord-injective 1 _ _ c.band d.band c.band_word d.band_word (cc) in
    let method_int = IsWord-injective 1 _ _ c.method d.method c.method_word d.method_word (cc) in
    let version = IsWord-injective 8 _ _ c.version d.version c.version_word d.version_word (cc) in
    let metric =
      enum_int-injective_metric l.cell_metric m.cell_metric c.metric_key
        (d.metric_key ∙ ap some (sym metric_int)) in
    let scale =
      enum_int-injective_scale l.intensity_scale m.intensity_scale c.scale_key
        (d.scale_key ∙ ap some (sym scale_int)) in
    let method =
      enum_int-injective_method l.cells_generation_method m.cells_generation_method c.method_key
        (d.method_key ∙ ap some (sym method_int)) in
    λ i. record {
      event_uid = uid i;
      event_revision = revision i;
      h3_index = h3 i;
      geo_resolution = geo i;
      cell_metric = metric i;
      intensity_value = intensity i;
      intensity_scale = scale i;
      cell_band = band i;
      cells_generation_method = method i;
      oracle_version = version i;
    }

-- The h3 index of a leaf that is serialized is a u64.
pub serialize_affected_cell_leaf-le :
    (leaf : AffectedCellLeaf) (bytes : List Byte)
    → serialize_affected_cell_leaf leaf ≡ ok bytes
    → leaf.h3_index ≤ u64_max
unfolding serialize_affected_cell_leaf
serialize_affected_cell_leaf-le leaf bytes e =
    >>=-elim_ok (leaf_parts leaf) _ e
      λ parts parts_ok _. (leaf_parts-Encoded leaf parts parts_ok).h3_small

-- A serialized leaf has 59 bytes.
pub length-serialize_affected_cell_leaf :
    (leaf : AffectedCellLeaf) (bytes : List Byte)
    → serialize_affected_cell_leaf leaf ≡ ok bytes
    → length bytes ≡ 59
unfolding serialize_affected_cell_leaf
length-serialize_affected_cell_leaf leaf bytes e =
    >>=-elim_ok (leaf_parts leaf) _ e λ parts parts_ok joined.
      let c = leaf_parts-Encoded leaf parts parts_ok in
      ap (λ b. length b) (sym (ok-injective joined))
      ∙ length-concat_parts parts
      ∙ unfold total in ap total (Encoded-lengths leaf parts c)

-- The serialization is injective: two leaves with one serialization are equal, in every field.
pub serialize_affected_cell_leaf-injective :
    (l m : AffectedCellLeaf) (bytes : List Byte)
    → serialize_affected_cell_leaf l ≡ ok bytes
    → serialize_affected_cell_leaf m ≡ ok bytes
    → l ≡ m
unfolding serialize_affected_cell_leaf
serialize_affected_cell_leaf-injective l m bytes e k =
    >>=-elim_ok (leaf_parts l) _ e λ ps ps_ok joined.
      >>=-elim_ok (leaf_parts m) _ k λ qs qs_ok joined'.
        let c = leaf_parts-Encoded l ps ps_ok in
        let d = leaf_parts-Encoded m qs qs_ok in
        Encoded-injective l m ps qs c d (
          concat_parts-cancel ps qs (Encoded-lengths l ps c ∙ sym (Encoded-lengths m qs d))
            (ok-injective joined ∙ sym (ok-injective joined')))
