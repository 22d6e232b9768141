-- ===== src/ProofCore/Manifest/Partition.antt =====
-- `buildProofShardGroups` and `buildProofManifest` (packages/proof-core/src/manifest.ts) against the
-- entries that they are built from.
use mathlib.Core.Logic.{∥∥₁_elim}
use mathlib.Core.List.{append-nil, Perm}
use mathlib.Core.List.Perm
use mathlib.Core.List.Permᴰ.{Permᴰ}
use native.Mathlib.Nat.{ℕ_set}
use sonari.Prelude.{
  ℕ, ◌+◌, ◌≡◌, refl, sym, ap, ap₂, subst, ◌∙◌, suc, List, [], ◌∷◌, ok, length, All, ok-injective,
  >>=-elim_ok, require, ltb, length-append,
}
use sonari.ProofCore.Merkle.{Hash}
use sonari.ProofCore.AffectedCells.{AffectedCellsInput, affected_cells_root}
use sonari.ProofCore.Manifest.{
  ProofEntry, ProofShardGroup, ProofManifest, sorted_ids, total_of, build_proof_entries,
  group_entries, build_proof_shard_groups, build_proof_manifest,
}
use sonari.ProofCore.Manifest.Shards.{content, pick-content, pick-perm, sorted_ids-perm}
use sonari.ProofCore.Manifest.Groups.{gather, IsShard, group_entries-Grouped, groups-AreShards}

length-perm_steps :
    {entries entries' : List ProofEntry} → Permᴰ entries entries' → length entries ≡ length entries'
length-perm_steps Permᴰ.nil = refl
length-perm_steps (Permᴰ.cons same p) = ap (λ n. suc n) (length-perm_steps p)
length-perm_steps (Permᴰ.swap same same') = refl
length-perm_steps (Permᴰ.trans p q) = length-perm_steps p ∙ length-perm_steps q

length-perm :
    (entries entries' : List ProofEntry) → Perm entries entries' → length entries ≡ length entries'
length-perm entries entries' p = ∥∥₁_elim p (ℕ_set _ _) length-perm_steps

module _ (sha256 : Hash) where
  total_of-length :
      (shard_count : ℕ) (groups : List ProofShardGroup)
      → All (IsShard sha256 shard_count) groups
      → total_of groups ≡ length (gather groups)
  unfolding total_of
  total_of-length shard_count [] h = refl
  total_of-length shard_count (group ∷ groups) ((counted, _), h) =
      ap₂ ◌+◌ counted (total_of-length shard_count groups h)
      ∙ sym (length-append group.proofs (gather groups))

  -- Where the groups of a set are returned, so are its entries, and the groups hold every entry once
  -- and nothing else: together they are a permutation of the entries. Each entry of a group is in the
  -- shard that its h3 index names, and the count of a group is the number of its entries.
  pub build_proof_shard_groups-partition :
      (input : AffectedCellsInput) (shard_count : ℕ) (groups : List ProofShardGroup)
      → build_proof_shard_groups sha256 input shard_count ≡ ok groups
      → (entries : List ProofEntry) × (build_proof_entries sha256 input ≡ ok entries)
        × Perm (gather groups) entries
        × All (IsShard sha256 shard_count) groups
  unfolding build_proof_shard_groups
  build_proof_shard_groups-partition input shard_count groups e =
      >>=-elim_ok (require (ltb 0 shard_count) _) _ e λ _ _ e₁.
        >>=-elim_ok (build_proof_entries sha256 input) _ e₁ λ entries entries_ok e₂.
          >>=-elim_ok (group_entries sha256 shard_count entries []) _ e₂ λ shards shards_ok e₃.
            let grouped = group_entries-Grouped sha256 shard_count entries [] shards_ok tt tt in
            let (gathered, are_shards) =
              groups-AreShards sha256 shard_count shards (sorted_ids shards) grouped.shelved e₃ in
            (
              entries,
              entries_ok,
              Perm.trans gathered (
                  Perm.trans (pick-perm shards (sorted_ids shards) _ (sorted_ids-perm shards)) (
                    subst (λ l. Perm l entries) (sym (pick-content shards grouped.distinct))
                      (subst (Perm (content shards)) (append-nil entries) grouped.all_there))),
              are_shards,
            )

  -- A manifest that is returned has the root of the set, and counts as many proofs as there are
  -- entries.
  pub build_proof_manifest-total :
      (input : AffectedCellsInput) (shard_count : ℕ) (manifest : ProofManifest)
      → build_proof_manifest sha256 input shard_count ≡ ok manifest
      → (entries : List ProofEntry) × (build_proof_entries sha256 input ≡ ok entries)
        × (affected_cells_root sha256 input ≡ ok manifest.merkle_root)
        × (manifest.total_proof_count ≡ length entries)
  unfolding build_proof_manifest
  build_proof_manifest-total input shard_count manifest e =
      >>=-elim_ok (affected_cells_root sha256 input) _ e λ root root_ok e₁.
        >>=-elim_ok (build_proof_shard_groups sha256 input shard_count) _ e₁
          λ groups groups_ok done.
            let (entries, entries_ok, permuted, are_shards) =
              build_proof_shard_groups-partition input shard_count groups groups_ok in
            (
              entries,
              entries_ok,
              root_ok ∙ ap (λ m. ok m.merkle_root) (ok-injective done),
              ap (λ m. m.total_proof_count) (sym (ok-injective done))
                  ∙ total_of-length shard_count groups are_shards
                  ∙ length-perm (gather groups) entries permuted,
            )
