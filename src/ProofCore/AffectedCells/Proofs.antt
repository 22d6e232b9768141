-- ===== src/ProofCore/AffectedCells/Proofs.antt =====
-- The proofs of the cells of a set (packages/proof-core/src/affected-cells.ts).
use sonari.Prelude.{
  ℕ, zero, suc, ◌+◌, ◌≡◌, ◌↔◌, refl, sym, ap, subst, ◌∙◌, true, false, List, [], ◌∷◌, map, some,
  if◌then◌else◌, ok, require, get_elem?, All, >>=-elim_ok, ok-injective, traverse-length, length,
  get_elem?-map, get_elem?-same, arith, Bool-cases, inl, inr,
}
use sonari.ProofCore.Bytes.{Text}
use sonari.ProofCore.Bytes.Hex.{IsCanonical, bytes_to_prefixed_hex-canonical}
use sonari.ProofCore.Leaf.{AffectedCellLeaf, affected_cell_leaf_hash, serialize_affected_cell_leaf}
use sonari.ProofCore.Merkle.{
  Hash, ProofStep, hash_leaf_bytes, merkle_levels_from_leaf_hashes, proof_steps_from_levels,
  replay_proof,
}
use sonari.ProofCore.Merkle.Levels.{IsDigest}
use sonari.ProofCore.Merkle.Inclusion.{replay_proof-proof_steps}
use sonari.ProofCore.AffectedCells.{
  AffectedCellEntry, AffectedCellsInput, CellLeafHash, text_eq, leaf_of_cell, find_cell,
  hash_leaves, affected_cell_leaves_from_input, sort_cells_by_h3_index, affected_cells_leaf_hashes,
  affected_cells_root, affected_cell_proof_steps, has_adjacent_duplicate,
}

pub text_eq_iff : (a b : Text) → (text_eq a b ≡ true) ↔ (a ≡ b)
unfolding text_eq
text_eq_iff [] [] = (λ _. refl, λ _. refl)
text_eq_iff [] (y ∷ b) = (λ e. absurd (cc), λ e. absurd (cc))
text_eq_iff (x ∷ a) [] = (λ e. absurd (cc), λ e. absurd (cc))
text_eq_iff (x ∷ a) (y ∷ b) =
    let (to, from) = text_eq_iff a b in (λ e. ground (arith, to), λ e. ground (arith, from))

-- The search finds the first cell with the given index.
find_cell_lem :
    (h3_index : Text) (cells : List AffectedCellEntry) (k j : ℕ) {cell : AffectedCellEntry}
    → get_elem? cells j ≡ some cell
    → cell.h3_index ≡ h3_index
    → (i : ℕ) × (first : AffectedCellEntry) × (find_cell h3_index cells k ≡ some (k + i))
      × (get_elem? cells i ≡ some first)
      × (first.h3_index ≡ h3_index)
unfolding find_cell
find_cell_lem h3_index [] k j e same = absurd (cc)
find_cell_lem h3_index (c ∷ cells) k zero {cell} e same =
    let first : c ≡ cell = cc in
    let hit = (text_eq_iff c.h3_index h3_index).1 (ap (λ d. d.h3_index) first ∙ same) in
    (0, c, rw hit (ap some (omega arith)), refl, (text_eq_iff c.h3_index h3_index).0 hit)
find_cell_lem h3_index (c ∷ cells) k (suc j) {cell} e same =
    elim (Bool-cases (text_eq c.h3_index h3_index)) [
      | inl hit ↦
          (0, c, rw hit (ap some (omega arith)), refl, (text_eq_iff c.h3_index h3_index).0 hit)
      | inr miss ↦
          let (i, first, found, here, equal) = find_cell_lem h3_index cells (suc k) j e same in
          (suc i, first, rw miss (found ∙ ap some (omega arith)), here, equal)
    ]

module _ (sha256 : Hash) where
  hash_leaves-h3_index :
      (leaves : List AffectedCellLeaf) (cells : List AffectedCellEntry) {hashes : List CellLeafHash}
      → length leaves ≡ length cells
      → hash_leaves sha256 leaves cells ≡ ok hashes
      → map (λ h. h.h3_index) hashes ≡ map (λ c. c.h3_index) cells
  unfolding hash_leaves
  hash_leaves-h3_index [] [] l e = ap (map (λ h. h.h3_index)) (sym (ok-injective e))
  hash_leaves-h3_index [] (c ∷ cells) l e = absurd (omega arith)
  hash_leaves-h3_index (leaf ∷ leaves) [] l e = absurd (omega arith)
  hash_leaves-h3_index (leaf ∷ leaves) (c ∷ cells) l e =
      >>=-elim_ok (affected_cell_leaf_hash sha256 leaf) _ e λ leaf_hash _ e'.
        >>=-elim_ok (hash_leaves sha256 leaves cells) _ e' λ rest rest_ok done.
          ap (map (λ h. h.h3_index)) (sym (ok-injective done))
          ∙ ap (λ t. c.h3_index ∷ t) (hash_leaves-h3_index leaves cells (omega arith) rest_ok)

  module _ (digest : IsDigest sha256) where
    affected_cell_leaf_hash-IsCanonical :
        (leaf : AffectedCellLeaf) {leaf_hash : Text}
        → affected_cell_leaf_hash sha256 leaf ≡ ok leaf_hash
        → IsCanonical leaf_hash
    unfolding affected_cell_leaf_hash hash_leaf_bytes
    affected_cell_leaf_hash-IsCanonical leaf e =
        >>=-elim_ok (serialize_affected_cell_leaf leaf) _ e λ bytes _ done.
          subst IsCanonical (ok-injective done) (bytes_to_prefixed_hex-canonical _ (digest _))

    hash_leaves-IsCanonical :
        (leaves : List AffectedCellLeaf) (cells : List AffectedCellEntry)
        {hashes : List CellLeafHash}
        → hash_leaves sha256 leaves cells ≡ ok hashes
        → All IsCanonical (map (λ h. h.leaf_hash) hashes)
    unfolding hash_leaves
    hash_leaves-IsCanonical [] cells e =
        subst (λ hs. All IsCanonical (map (λ h. h.leaf_hash) hs)) (ok-injective e) tt
    hash_leaves-IsCanonical (leaf ∷ leaves) [] e = absurd (cc)
    hash_leaves-IsCanonical (leaf ∷ leaves) (c ∷ cells) e =
        >>=-elim_ok (affected_cell_leaf_hash sha256 leaf) _ e λ leaf_hash hash_ok e'.
          >>=-elim_ok (hash_leaves sha256 leaves cells) _ e' λ rest rest_ok done.
            subst (λ hs. All IsCanonical (map (λ h. h.leaf_hash) hs)) (ok-injective done)
              (
                affected_cell_leaf_hash-IsCanonical leaf hash_ok,
                hash_leaves-IsCanonical leaves cells rest_ok,
              )

    -- What the hashes of an input are.
    pub record Hashed (input : AffectedCellsInput) (hashes : List CellLeafHash) : Type 0 where
      pub sorted : List AffectedCellEntry
      pub sorted_lem : sort_cells_by_h3_index input.affected_cells ≡ ok sorted
      pub same : map (λ h. h.h3_index) hashes ≡ map (λ c. c.h3_index) sorted
      pub canonical : All IsCanonical (map (λ h. h.leaf_hash) hashes)

    pub affected_cells_leaf_hashes-Hashed :
        (input : AffectedCellsInput) (hashes : List CellLeafHash)
        → affected_cells_leaf_hashes sha256 input ≡ ok hashes
        → Hashed input hashes
    unfolding affected_cells_leaf_hashes affected_cell_leaves_from_input
    affected_cells_leaf_hashes-Hashed input hashes e =
        >>=-elim_ok (affected_cell_leaves_from_input input) _ e λ leaves leaves_ok e₁.
          >>=-elim_ok (sort_cells_by_h3_index input.affected_cells) _ e₁ λ sorted sorted_ok e₂.
            >>=-elim_ok (sort_cells_by_h3_index input.affected_cells) _ leaves_ok
              λ cells cells_ok e₃.
                >>=-elim_ok (require (if has_adjacent_duplicate cells then false else true) _) _ e₃
                  λ _ _ e₄.
                    let equal : cells ≡ sorted = ok-injective (sym cells_ok ∙ sorted_ok) in
                    record {
                      sorted = sorted;
                      sorted_lem = sorted_ok;
                      same =
                          hash_leaves-h3_index leaves sorted
                            (traverse-length (leaf_of_cell input) cells e₄
                              ∙ ap (λ l. length l) equal)
                            e₂;
                      canonical = hash_leaves-IsCanonical leaves sorted e₂;
                    }

    affected_cell_proof_steps_lem :
        (input : AffectedCellsInput) (h3_index : Text) (i : ℕ) {sorted : List AffectedCellEntry}
        {hashes : List CellLeafHash} {levels : List (List Text)} {steps : List ProofStep}
        → sort_cells_by_h3_index input.affected_cells ≡ ok sorted
        → find_cell h3_index sorted 0 ≡ some i
        → affected_cells_leaf_hashes sha256 input ≡ ok hashes
        → merkle_levels_from_leaf_hashes sha256 (map (λ h. h.leaf_hash) hashes) ≡ ok levels
        → proof_steps_from_levels levels i ≡ ok steps
        → affected_cell_proof_steps sha256 input h3_index ≡ ok steps
    unfolding affected_cell_proof_steps
    affected_cell_proof_steps_lem input h3_index i a b c d e = rw a (rw b (rw c (rw d e)))

    -- For every cell of a set whose leaf hashes can be computed, `affectedCellProofSteps` returns
    -- steps, `affectedCellsRoot` returns a root, and replaying the steps from the leaf hash of the
    -- first cell with that h3 index, which is among the set's, returns that root.
    pub affected_cell_proof_steps-replay :
        (input : AffectedCellsInput) (hashes : List CellLeafHash) (j : ℕ) (entry : CellLeafHash)
        → affected_cells_leaf_hashes sha256 input ≡ ok hashes
        → get_elem? hashes j ≡ some entry
        → (i : ℕ) × (first : CellLeafHash) × (steps : List ProofStep) × (root : Text) × (get_elem?
              hashes i
            ≡ some first)
          × (first.h3_index ≡ entry.h3_index)
          × (affected_cell_proof_steps sha256 input entry.h3_index ≡ ok steps)
          × (affected_cells_root sha256 input ≡ ok root)
          × (replay_proof sha256 first.leaf_hash steps ≡ ok root)
    unfolding affected_cells_root
    affected_cell_proof_steps-replay input [] j entry e at = absurd (cc)
    affected_cell_proof_steps-replay input (h ∷ hs) j entry e at =
        let c = affected_cells_leaf_hashes-Hashed input (h ∷ hs) e in
        let (cell, cell_at, cell_same) =
          get_elem?-same (λ h. h.h3_index) (λ c. c.h3_index) (h ∷ hs) c.sorted j c.same at in
        let (i, found_cell, found, found_at, found_same) =
          find_cell_lem entry.h3_index c.sorted 0 j cell_at (sym cell_same) in
        let found_here : find_cell entry.h3_index c.sorted 0 ≡ some i =
          found ∙ ap some (omega arith) in
        let (first, first_at, first_same) =
          get_elem?-same (λ c. c.h3_index) (λ h. h.h3_index) c.sorted (h ∷ hs) i (sym c.same)
            found_at in
        let (levels, steps, root, levels_ok, steps_ok, root_ok, replayed) =
          replay_proof-proof_steps sha256 digest h.leaf_hash (map (λ h. h.leaf_hash) hs) i
            c.canonical (get_elem?-map (h ∷ hs) (λ h. h.leaf_hash) i first_at) in
        (
          i,
          first,
          steps,
          root,
          first_at,
          sym first_same ∙ found_same,
          affected_cell_proof_steps_lem input entry.h3_index i c.sorted_lem found_here e levels_ok
              steps_ok,
          rw e root_ok,
          replayed,
        )
