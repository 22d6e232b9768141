-- ===== src/ProofCore/Merkle/Height.antt =====
-- How many levels a tree of packages/proof-core/src/merkle.ts has, and how many steps a proof.
use sonari.Prelude.{
  ℕ, zero, suc, ◌+◌, ◌-◌, ◌*◌, ◌/◌, ◌^◌, ◌≤◌, ◌<◌, ◌≡◌, sym, ap, ◌∙◌, inl, inr, List, [], ◌∷◌,
  length, ok, arith, Result-cases, dec_lt,
}
use native.Mathlib.Nat.{pow-suc, pow-le-pow_right}
use sonari.ProofCore.Bytes.{Text}
use sonari.ProofCore.Merkle.{
  Hash, ProofStep, next_level, levels_above, steps_from, proof_steps_from_levels,
  merkle_levels_from_leaf_hashes,
}
use sonari.ProofCore.Merkle.Levels.{length-next_level, levels_above-more, levels_above-top}

module _ (sha256 : Hash) where
  -- More fuel than leaves changes nothing: the loop has ended by its own test.
  pub levels_above-fuel :
      (f g : ℕ) (level : List Text)
      → length level ≤ suc f
      → length level ≤ suc g
      → levels_above sha256 f level ≡ levels_above sha256 g level
  levels_above-fuel zero g level p q =
      levels_above-top sha256 0 level p ∙ sym (levels_above-top sha256 g level p)
  levels_above-fuel (suc f) zero level p q =
      levels_above-top sha256 (suc f) level q ∙ sym (levels_above-top sha256 0 level q)
  levels_above-fuel (suc f) (suc g) level p q = elim (dec_lt 1 (length level)) [
    | no single ↦
        levels_above-top sha256 (suc f) level (omega arith)
        ∙ sym (levels_above-top sha256 (suc g) level (omega arith))
    | yes more ↦
        rw (levels_above-more sha256 f level more, levels_above-more sha256 g level more)
          (ap (λ t. next_level sha256 level ∷ t)
            (levels_above-fuel f g (next_level sha256 level)
              (omega (arith, length-next_level sha256 level))
              (omega (arith, length-next_level sha256 level))))
  ]

  levels_above-pow :
      (fuel : ℕ) (level : List Text)
      → 2 ≤ length level
      → 2 ^ length (levels_above sha256 fuel level) + 2 ≤ 2 * length level
  levels_above-pow zero level h = unfold levels_above in omega arith
  levels_above-pow (suc fuel) level h =
      rw (levels_above-more sha256 fuel level h, pow-suc)
        (elim (dec_lt 2 (length level)) [
          | no two ↦
              let one : length (next_level sha256 level) ≤ 1 =
                omega (arith, length-next_level sha256 level) in
              rw (levels_above-top sha256 fuel (next_level sha256 level) one) (omega arith)
          | yes more ↦ omega (
            arith,
            levels_above-pow fuel (next_level sha256 level)
                (omega (arith, length-next_level sha256 level)),
            length-next_level sha256 level,
          )
        ])

  levels_above-lt :
      (leaf : Text) (leaves : List Text)
      → 2 ^ length (levels_above sha256 (length (leaf ∷ leaves)) (leaf ∷ leaves))
        < 2 * length (leaf ∷ leaves)
  levels_above-lt leaf [] = rw (levels_above-top sha256 1 (leaf ∷ []) (omega arith)) (omega arith)
  levels_above-lt leaf (next ∷ leaves) =
      omega (
        arith,
        levels_above-pow (length (leaf ∷ next ∷ leaves)) (leaf ∷ next ∷ leaves) (omega arith),
      )

  steps_from-length :
      (levels : List (List Text)) (i : ℕ) (steps : List ProofStep)
      → steps_from levels i ≡ ok steps
      → length steps ≤ length levels - 1
  unfolding steps_from
  steps_from-length [] i steps e = ground arith
  steps_from-length (level ∷ []) i steps e = ground arith
  steps_from-length (level ∷ next ∷ levels) i steps e =
      elim (Result-cases (steps_from (next ∷ levels) (i / 2))) [
        | inl (rest, found) ↦ ground (arith, steps_from-length (next ∷ levels) (i / 2) rest found)
        | inr (message, failed) ↦ ground arith
      ]

  proof_steps→steps_from :
      (levels : List (List Text)) (i : ℕ) (steps : List ProofStep)
      → proof_steps_from_levels levels i ≡ ok steps
      → steps_from levels i ≡ ok steps
  unfolding proof_steps_from_levels
  proof_steps→steps_from [] i steps e = absurd (cc)
  proof_steps→steps_from (level ∷ levels) i steps e = ground arith

  -- Whatever index it is asked for, a proof over `n` leaves has at most ⌈log₂ n⌉ steps.
  pub proof_steps-log :
      (leaves : List Text) (levels : List (List Text)) (i : ℕ) (steps : List ProofStep)
      → merkle_levels_from_leaf_hashes sha256 leaves ≡ ok levels
      → proof_steps_from_levels levels i ≡ ok steps
      → 2 ^ length steps < 2 * length leaves
  unfolding merkle_levels_from_leaf_hashes
  proof_steps-log [] levels i steps h e = absurd (cc)
  proof_steps-log (leaf ∷ leaves) levels i steps h e =
      let above = levels_above sha256 (length (leaf ∷ leaves)) (leaf ∷ leaves) in
      let same : levels ≡ (leaf ∷ leaves) ∷ above = cc in
      let short : length steps ≤ length above = omega (
        arith,
        steps_from-length levels i steps (proof_steps→steps_from levels i steps e),
        ap (λ l. length l) same,
      ) in
      omega (arith, pow-le-pow_right {n = 2} (omega arith) short, levels_above-lt leaf leaves)
