-- ===== src/ProofCore/Manifest/Returns.antt =====
-- That `buildProofManifest` returns (packages/proof-core/src/manifest.ts).

use sonari.Prelude.{
  ℕ, ◌==◌, ◌≤◌, ◌<◌, ◌≡◌, refl, sym, ap, subst, ◌∙◌, true, false, some, List, [], ◌∷◌, map, ok,
  length, All, All-append, ok-injective, >>=-elim_ok, arith, Bool-cases, inl, inr, if◌then◌else◌,
  traverse, require, lt→ltb,
}
use sonari.Prelude.Sorting.{sort_from, All-sort_from}
use sonari.ProofCore.Bytes.{Text, u64_max, bytes_to_prefixed_hex}
use sonari.ProofCore.Decimal.{big_int}
use sonari.ProofCore.Leaf.{AffectedCellLeaf, affected_cell_leaf_hash, serialize_affected_cell_leaf}
use sonari.ProofCore.Leaf.Encoding.{serialize_affected_cell_leaf-le}
use sonari.ProofCore.Merkle.{Hash}
use sonari.ProofCore.Merkle.Levels.{IsDigest}
use sonari.ProofCore.Shard.{proof_shard_id-lt}
use sonari.ProofCore.AffectedCells.{
  AffectedCellEntry, AffectedCellsInput, CellLeafHash, leaf_of_cell, hash_leaves,
  sort_cells_by_h3_index, has_adjacent_duplicate, affected_cell_leaves_from_input,
  affected_cells_leaf_hashes,
}
use sonari.ProofCore.Manifest.{
  ProofEntry, ProofShardGroup, ProofManifest, Shards, add_to_shard, get_shard, sorted_ids,
  keyed_entry, sort_proofs, proof_entries_canonical_bytes, total_of, shard_of_group, shard_of,
  group_entries, group_of, build_proof_shard_groups, build_proof_manifest,
}
use sonari.ProofCore.Manifest.Entries.{leaf_of, build_proof_entries-replay}

-- A text that is read as a u64.
abbrev IsIndex : Text → Type 0
IsIndex text = (value : ℕ) × (big_int text ≡ ok value) × (value ≤ u64_max)

abbrev AreIndexed : List ProofEntry → Type 0
AreIndexed entries = All (λ entry. IsIndex entry.h3_index) entries

module _ (sha256 : Hash) where
  affected_cell_leaf_hash-le :
      (leaf : AffectedCellLeaf) {leaf_hash : Text}
      → affected_cell_leaf_hash sha256 leaf ≡ ok leaf_hash
      → leaf.h3_index ≤ u64_max
  unfolding affected_cell_leaf_hash
  affected_cell_leaf_hash-le leaf e =
      >>=-elim_ok (serialize_affected_cell_leaf leaf) _ e
        λ bytes bytes_ok _. serialize_affected_cell_leaf-le leaf bytes bytes_ok

  hash_leaves-IsIndex :
      (input : AffectedCellsInput) (cells : List AffectedCellEntry) {leaves : List AffectedCellLeaf}
      {hashes : List CellLeafHash}
      → traverse (leaf_of_cell input) cells ≡ ok leaves
      → hash_leaves sha256 leaves cells ≡ ok hashes
      → All (λ hash. IsIndex hash.h3_index) hashes
  unfolding leaf_of_cell hash_leaves
  hash_leaves-IsIndex input [] e h =
      subst (All (λ hash. IsIndex hash.h3_index))
        (ok-injective (ap (λ ls. hash_leaves sha256 ls []) (ok-injective e) ∙ h)) tt
  hash_leaves-IsIndex input (cell ∷ cells) e h =
      >>=-elim_ok (leaf_of_cell input cell) _ e λ leaf leaf_ok e'.
        >>=-elim_ok (traverse (leaf_of_cell input) cells) _ e' λ leaves leaves_ok done.
          >>=-elim_ok (big_int cell.h3_index) _ leaf_ok λ value value_ok made.
            let h' = ap (λ ls. hash_leaves sha256 ls (cell ∷ cells)) (ok-injective done) ∙ h in
            >>=-elim_ok (affected_cell_leaf_hash sha256 leaf) _ h' λ leaf_hash hashed h₁.
              >>=-elim_ok (hash_leaves sha256 leaves cells) _ h₁ λ rest rest_ok h₂.
                let small : value ≤ u64_max =
                  subst (λ l. l.h3_index ≤ u64_max) (sym (ok-injective made))
                    (affected_cell_leaf_hash-le leaf hashed) in
                subst (All (λ hash. IsIndex hash.h3_index)) (ok-injective h₂)
                  ((value, value_ok, small), hash_leaves-IsIndex input cells leaves_ok rest_ok)

  affected_cells_leaf_hashes-IsIndex :
      (input : AffectedCellsInput) {hashes : List CellLeafHash}
      → affected_cells_leaf_hashes sha256 input ≡ ok hashes
      → All (λ hash. IsIndex hash.h3_index) hashes
  unfolding affected_cells_leaf_hashes affected_cell_leaves_from_input
  affected_cells_leaf_hashes-IsIndex input e =
      >>=-elim_ok (affected_cell_leaves_from_input input) _ e λ leaves leaves_ok e₁.
        >>=-elim_ok (sort_cells_by_h3_index input.affected_cells) _ e₁ λ sorted sorted_ok e₂.
          >>=-elim_ok (sort_cells_by_h3_index input.affected_cells) _ leaves_ok λ cells cells_ok e₃.
            >>=-elim_ok (require (if has_adjacent_duplicate cells then false else true) _) _ e₃
              λ _ _ e₄.
                let same : cells ≡ sorted = ok-injective (sym cells_ok ∙ sorted_ok) in
                hash_leaves-IsIndex input sorted
                  (subst (λ cs. traverse (leaf_of_cell input) cs ≡ ok leaves) same e₄) e₂

entries-AreIndexed :
    (sha256 : Hash) (entries : List ProofEntry)
    → All (λ hash. IsIndex hash.h3_index) (map (leaf_of sha256) entries)
    → AreIndexed entries
entries-AreIndexed sha256 [] h = tt
entries-AreIndexed sha256 (entry ∷ entries) (p, h) = (p, entries-AreIndexed sha256 entries h)

-- The entries of a map can be sorted, and every shard is found.
abbrev IsPresent : Shards → ℕ → Type 0
IsPresent shards id =
    (found : List ProofEntry) × (get_shard id shards ≡ some found) × AreIndexed found

get_shard-IsPresent :
    (id j : ℕ) (entries : List ProofEntry) (shards : Shards)
    → AreIndexed entries
    → IsPresent shards id
    → IsPresent ((j, entries) ∷ shards) id
unfolding get_shard
get_shard-IsPresent id j entries shards indexed (found, got, h) = elim (Bool-cases (j == id)) [
  | inl here ↦ (entries, rw here refl, indexed)
  | inr later ↦ (found, rw later got, h)
]

abbrev AreSortable : Shards → Type 0
AreSortable shards = All (λ shard. AreIndexed shard.1) shards

IsPresent-cons :
    (j : ℕ) (entries : List ProofEntry) (shards rest : Shards)
    → AreIndexed entries
    → All (λ shard. IsPresent shards shard.0) rest
    → All (λ shard. IsPresent ((j, entries) ∷ shards) shard.0) rest
IsPresent-cons j entries shards [] indexed h = tt
IsPresent-cons j entries shards (shard ∷ rest) indexed (p, h) = (
  get_shard-IsPresent shard.0 j entries shards indexed p,
  IsPresent-cons j entries shards rest indexed h,
)

keys-IsPresent :
    (shards : Shards) → AreSortable shards → All (λ shard. IsPresent shards shard.0) shards
unfolding get_shard
keys-IsPresent [] h = tt
keys-IsPresent ((j, entries) ∷ shards) (p, h) =
    let self : (j == j) ≡ true = ground arith in
    ((entries, rw self refl, p), IsPresent-cons j entries shards shards p (keys-IsPresent shards h))

pairs-IsPresent :
    (shards rest : Shards)
    → All (λ shard. IsPresent shards shard.0) rest
    → All (λ (k : ℕ × ℕ). IsPresent shards k.1) (map (λ shard. (shard.0, shard.0)) rest)
pairs-IsPresent shards [] h = tt
pairs-IsPresent shards (shard ∷ rest) (p, h) = (p, pairs-IsPresent shards rest h)

ids-IsPresent :
    (shards : Shards) (pairs : List (ℕ × ℕ))
    → All (λ k. IsPresent shards k.1) pairs
    → All (IsPresent shards) (map (λ k. k.1) pairs)
ids-IsPresent shards [] h = tt
ids-IsPresent shards (k ∷ pairs) (p, h) = (p, ids-IsPresent shards pairs h)

sorted_ids-IsPresent :
    (shards : Shards) → AreSortable shards → All (IsPresent shards) (sorted_ids shards)
unfolding sorted_ids
sorted_ids-IsPresent shards h =
    ids-IsPresent shards (sort_from [] (map (λ shard. (shard.0, shard.0)) shards)) (
      All-sort_from (λ k. IsPresent shards k.1) [] (map (λ shard. (shard.0, shard.0)) shards) tt
        (pairs-IsPresent shards shards (keys-IsPresent shards h)))

keyed-returns :
    (entries : List ProofEntry)
    → AreIndexed entries
    → (keyed : List (ℕ × ProofEntry)) × (traverse keyed_entry entries ≡ ok keyed)
unfolding keyed_entry
keyed-returns [] h = ([], refl)
keyed-returns (entry ∷ entries) ((value, read, small), h) =
    let (keyed, keyed_ok) = keyed-returns entries h in
    ((value, entry) ∷ keyed, rw read (rw keyed_ok refl))

sort_proofs-returns :
    (entries : List ProofEntry)
    → AreIndexed entries
    → (proofs : List ProofEntry) × (sort_proofs entries ≡ ok proofs)
unfolding sort_proofs
sort_proofs-returns entries h =
    let (keyed, keyed_ok) = keyed-returns entries h in
    (map (λ e. e.1) (sort_from [] keyed), rw keyed_ok refl)

add_to_shard-AreSortable :
    (id : ℕ) (entry : ProofEntry) (shards : Shards)
    → IsIndex entry.h3_index
    → AreSortable shards
    → AreSortable (add_to_shard id entry shards)
unfolding add_to_shard
add_to_shard-AreSortable id entry [] index h = ((index, tt), tt)
add_to_shard-AreSortable id entry ((j, entries) ∷ shards) index (p, h) =
    elim (Bool-cases (j == id)) [
      | inl here ↦
          rw here (All-append (λ e. IsIndex e.h3_index) entries (entry ∷ []) p (index, tt), h)
      | inr later ↦ rw later (p, add_to_shard-AreSortable id entry shards index h)
    ]

module _ (sha256 : Hash) (digest : IsDigest sha256) (shard_count : ℕ)
    (some_shards : 0 < shard_count) where
  group_entries-returns :
      (entries : List ProofEntry) (before : Shards)
      → AreIndexed entries
      → AreSortable before
      → (shards : Shards) × (group_entries sha256 shard_count entries before ≡ ok shards)
        × AreSortable shards
  unfolding group_entries shard_of
  group_entries-returns [] before h k = (before, refl, k)
  group_entries-returns (entry ∷ entries) before ((value, read, small), h) k =
      let (id, placed, _) = proof_shard_id-lt sha256 digest value shard_count small some_shards in
      let (shards, shards_ok, sortable) =
        group_entries-returns entries (add_to_shard id entry before) h
          (add_to_shard-AreSortable id entry before (value, read, small) k) in
      (shards, rw read (rw placed shards_ok), sortable)

  groups-return :
      (shards : Shards) (ids : List ℕ)
      → All (IsPresent shards) ids
      → (groups : List ProofShardGroup) × (traverse (group_of sha256 shards) ids ≡ ok groups)
  unfolding group_of
  groups-return shards [] h = ([], refl)
  groups-return shards (id ∷ ids) ((found, got, indexed), h) =
      let (proofs, proofs_ok) = sort_proofs-returns found indexed in
      let (groups, groups_ok) = groups-return shards ids h in
      (
        record {
          shard_id = id;
          proof_count = length proofs;
          sha256 = bytes_to_prefixed_hex (sha256 (proof_entries_canonical_bytes proofs));
          byte_size = length (proof_entries_canonical_bytes proofs);
          proofs = proofs;
        }
            ∷ groups,
        rw got (rw proofs_ok (rw groups_ok refl)),
      )

  -- Where the leaf hashes of a set can be computed, there is a cell, and there is a shard, the
  -- manifest is returned: no entry lacks a proof, a shard or a key to sort by.
  pub build_proof_manifest-returns :
      (input : AffectedCellsInput) (leaf : CellLeafHash) (leaves : List CellLeafHash)
      → affected_cells_leaf_hashes sha256 input ≡ ok (leaf ∷ leaves)
      → (manifest : ProofManifest) × (build_proof_manifest sha256 input shard_count ≡ ok manifest)
  unfolding build_proof_manifest build_proof_shard_groups
  build_proof_manifest-returns input leaf leaves hashed =
      let (entries, root, entries_ok, root_ok, same, _) =
        build_proof_entries-replay sha256 digest input leaf leaves hashed in
      let indexed = entries-AreIndexed sha256 entries (
        subst (All (λ hash. IsIndex hash.h3_index)) (sym same)
          (affected_cells_leaf_hashes-IsIndex sha256 input hashed)) in
      let (shards, shards_ok, sortable) = group_entries-returns entries [] indexed tt in
      let (groups, groups_ok) =
        groups-return shards (sorted_ids shards) (sorted_ids-IsPresent shards sortable) in
      (
        record {
          merkle_root = root;
          shard_count = shard_count;
          total_proof_count = total_of groups;
          shards = map shard_of_group groups;
        },
        rw root_ok (
            rw (lt→ltb 0 shard_count some_shards)
              (rw entries_ok (rw shards_ok (rw groups_ok refl)))),
      )
