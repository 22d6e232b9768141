-- ===== src/ProofCore/Manifest/Entries.antt =====
-- The entries of `buildProofEntries` (packages/proof-core/src/manifest.ts).
use sonari.Prelude.{
  ℕ, suc, ◌+◌, ◌≡◌, refl, sym, ap, ap₂, subst, ◌∙◌, List, [], ◌∷◌, map, some, ok, get_elem?, All,
  ok-injective, get_elem?-map, arith,
}
use sonari.ProofCore.Bytes.{Text}
use sonari.ProofCore.Merkle.{Hash, ProofStep, proof_steps_from_levels, replay_proof}
use sonari.ProofCore.Merkle.Levels.{IsDigest}
use sonari.ProofCore.Merkle.Inclusion.{replay_proof-proof_steps}
use sonari.ProofCore.AffectedCells.{
  AffectedCellsInput, CellLeafHash, affected_cells_leaf_hashes, affected_cells_root,
}
use sonari.ProofCore.AffectedCells.Proofs.{affected_cells_leaf_hashes-Hashed}
use sonari.ProofCore.Manifest.{ProofEntry, entries_from, build_proof_entries}

module _ (sha256 : Hash) where
  -- The leaf of an entry, as it was hashed.
  abbrev pub leaf_of : ProofEntry → CellLeafHash
  leaf_of entry = record { h3_index = entry.h3_index; leaf_hash = entry.leaf_hash }

  -- An entry proves its leaf under a root.
  abbrev pub Proves : Text → ProofEntry → Type 0
  Proves root entry = replay_proof sha256 entry.leaf_hash entry.proof ≡ ok root

  -- Every leaf from index `i` on has steps that replay to the root.
  abbrev HasSteps : List (List Text) → Text → ℕ → List CellLeafHash → Type 0
  HasSteps levels root i hashes =
      (j : ℕ) (leaf : CellLeafHash)
      → get_elem? hashes j ≡ some leaf
      → (steps : List ProofStep) × (proof_steps_from_levels levels (i + j) ≡ ok steps)
        × (replay_proof sha256 leaf.leaf_hash steps ≡ ok root)

  entries_from-Proves :
      (levels : List (List Text)) (root : Text) (hashes : List CellLeafHash) (i : ℕ)
      → HasSteps levels root i hashes
      → (entries : List ProofEntry) × (entries_from sha256 levels hashes i ≡ ok entries)
        × (map leaf_of entries ≡ hashes)
        × All (Proves root) entries
  unfolding entries_from
  entries_from-Proves levels root [] i has = ([], refl, refl, tt)
  entries_from-Proves levels root (leaf ∷ hashes) i has =
      let (steps, found, replayed) = has 0 leaf refl in
      let (rest, rest_ok, same, proved) = entries_from-Proves levels root hashes (suc i) (λ j l e.
        subst
          (λ k.
            (steps : List ProofStep) × (proof_steps_from_levels levels k ≡ ok steps)
            × (replay_proof sha256 l.leaf_hash steps ≡ ok root))
          (omega arith) (has (suc j) l e)) in
      let here : proof_steps_from_levels levels i ≡ ok steps =
        ap (proof_steps_from_levels levels) (omega arith) ∙ found in
      (
        record { h3_index = leaf.h3_index; leaf_hash = leaf.leaf_hash; proof = steps } ∷ rest,
        rw here (rw rest_ok refl),
        ap (λ t. leaf ∷ t) same,
        (replayed, proved),
      )

  module _ (digest : IsDigest sha256) where
    -- Where the leaf hashes of a set can be computed and there is a cell, `buildProofEntries` returns
    -- one entry for each leaf, in the order of the leaves, and every entry replays from its leaf hash
    -- to the root that `affectedCellsRoot` returns, which is the root of the manifest.
    pub build_proof_entries-replay :
        (input : AffectedCellsInput) (leaf : CellLeafHash) (leaves : List CellLeafHash)
        → affected_cells_leaf_hashes sha256 input ≡ ok (leaf ∷ leaves)
        → (entries : List ProofEntry) × (root : Text) × (build_proof_entries sha256 input
            ≡ ok entries)
          × (affected_cells_root sha256 input ≡ ok root)
          × (map leaf_of entries ≡ leaf ∷ leaves)
          × All (Proves root) entries
    unfolding build_proof_entries affected_cells_root
    build_proof_entries-replay input leaf leaves hashed =
        let all_leaves : List CellLeafHash = leaf ∷ leaves in
        let canonical =
          (affected_cells_leaf_hashes-Hashed sha256 digest input all_leaves hashed).canonical in
        let inclusion = λ (i : ℕ) (x : CellLeafHash) (e : get_elem? all_leaves i ≡ some x).
          replay_proof-proof_steps sha256 digest leaf.leaf_hash (map (λ h. h.leaf_hash) leaves) i
            canonical (get_elem?-map all_leaves (λ h. h.leaf_hash) i e) in
        let (levels, _, root, levels_ok, _, root_ok, _) = inclusion 0 leaf refl in
        let (entries, entries_ok, same, proved) =
          entries_from-Proves levels root all_leaves 0 (λ j x e.
            let (levels', steps, root', levels_ok', steps_ok, root_ok', replayed) =
              inclusion j x e in
            (
              steps,
              ap₂ proof_steps_from_levels (ok-injective (sym levels_ok ∙ levels_ok')) (omega arith)
                  ∙ steps_ok,
              replayed ∙ sym root_ok' ∙ root_ok,
            )) in
        (entries, root, rw hashed (rw levels_ok entries_ok), rw hashed root_ok, same, proved)
