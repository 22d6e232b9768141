-- ===== src/ProofCore/Merkle/Inclusion.antt =====
-- Proofs of inclusion, from `proofStepsFromLevels` to `replayProof` of packages/proof-core/src/merkle.ts.
use sonari.Prelude.{
  ℕ, zero, suc, ◌/◌, ◌≤◌, ◌<◌, ◌≡◌, refl, ap, ◌∙◌, Bool, true, false, inl, inr, List, [], ◌∷◌, some,
  ltb, length, get_elem?, All, ok, arith, All-get_elem?, lt→ltb, dec_lt, get_elem?-lt,
}
use sonari.ProofCore.Bytes.{Text, hex_to_bytes}
use sonari.ProofCore.Bytes.Hex.{
  IsCanonical, expect_prefixed_hex32_of_IsCanonical, bytes_to_prefixed_hex-hex_to_bytes,
}
use sonari.ProofCore.Merkle.{
  Hash, ProofStep, step_input, next_level, levels_above, last_level, sibling_of, steps_from,
  proof_steps_from_levels, replay_from, replay_proof, merkle_levels_from_leaf_hashes,
  merkle_root_from_leaf_hashes,
}
use sonari.ProofCore.Merkle.Levels.{
  IsDigest, node, next_level-get_elem?, length-next_level, levels_above-more, levels_above-top,
  hex_to_bytes-internal_hash, next_level-IsCanonical,
}

module _ (sha256 : Hash) (digest : IsDigest sha256) where
  -- One round of `replayProof` climbs from a node to the one above.
  replay_from-step :
      (b : Bool) (x y : Text) (steps : List ProofStep)
      → IsCanonical y
      → replay_from sha256
          (hex_to_bytes x)
          (record { sibling_on_left = b; sibling_hash = y } ∷ steps)
        ≡ replay_from sha256 (hex_to_bytes (node sha256 b y x)) steps
  unfolding replay_from step_input
  replay_from-step true x y steps h =
      rw (expect_prefixed_hex32_of_IsCanonical y h, hex_to_bytes-internal_hash sha256 digest y x)
  replay_from-step false x y steps h =
      rw (expect_prefixed_hex32_of_IsCanonical y h, hex_to_bytes-internal_hash sha256 digest x y)

  -- What the steps from index `i` of a tree's lowest level do.
  record Climbs (levels : List (List Text)) (i : ℕ) (x : Text) : Type 0 where
    root : Text
    steps : List ProofStep
    top : last_level levels ≡ some (root ∷ [])
    found : steps_from levels i ≡ ok steps
    reaches : replay_from sha256 (hex_to_bytes x) steps ≡ ok (hex_to_bytes root)
    canonical : IsCanonical root

  Climbs-promoted :
      (level next : List Text) (levels : List (List Text)) (i : ℕ) (x : Text)
      → length level ≤ sibling_of i
      → Climbs (next ∷ levels) (i / 2) x
      → Climbs (level ∷ next ∷ levels) i x
  unfolding steps_from last_level
  Climbs-promoted level next levels i x le c = record {
    root = c.root;
    steps = c.steps;
    top = c.top;
    found = ground arith;
    reaches = c.reaches;
    canonical = c.canonical;
  }

  Climbs-paired :
      (level next : List Text) (levels : List (List Text)) (i : ℕ) (x y : Text)
      → sibling_of i < length level
      → get_elem? level (sibling_of i) ≡ some y
      → IsCanonical y
      → Climbs (next ∷ levels) (i / 2) (node sha256 (ltb (sibling_of i) i) y x)
      → Climbs (level ∷ next ∷ levels) i x
  unfolding steps_from last_level
  Climbs-paired level next levels i x y lt sibling h c = record {
    root = c.root;
    steps = record { sibling_on_left = ltb (sibling_of i) i; sibling_hash = y } ∷ c.steps;
    top = c.top;
    found = ground arith;
    reaches = replay_from-step _ x y c.steps h ∙ c.reaches;
    canonical = c.canonical;
  }

  Climbs-single :
      (level : List Text) (i : ℕ) (x : Text)
      → All IsCanonical level
      → length level ≤ 1
      → get_elem? level i ≡ some x
      → Climbs (level ∷ []) i x
  unfolding steps_from last_level replay_from
  Climbs-single [] i x h le e = absurd (cc)
  Climbs-single (a ∷ []) zero x (p, h) le e = record {
    root = a;
    steps = [];
    top = refl;
    found = refl;
    reaches = cc;
    canonical = p;
  }
  Climbs-single (a ∷ []) (suc i) x h le e = absurd (cc)
  Climbs-single (a ∷ b ∷ level) i x h le e = absurd (omega arith)

  Climbs-All :
      (fuel : ℕ) (level : List Text) (i : ℕ) (x : Text)
      → All IsCanonical level
      → length level ≤ suc fuel
      → get_elem? level i ≡ some x
      → Climbs (level ∷ levels_above sha256 fuel level) i x
  Climbs-All zero level i x h le e =
      rw (levels_above-top sha256 zero level le) (Climbs-single level i x h le e)
  Climbs-All (suc fuel) level i x h le e = elim (dec_lt 1 (length level)) [
    | no single ↦
        let le_one : length level ≤ 1 = omega arith in
        rw (levels_above-top sha256 (suc fuel) level le_one) (Climbs-single level i x h le_one e)
    | yes more ↦
        let rest = λ (z : Text) (above : get_elem? (next_level sha256 level) (i / 2) ≡ some z).
          Climbs-All fuel (next_level sha256 level) (i / 2) z
            (next_level-IsCanonical sha256 digest level h)
            (omega (arith, length-next_level sha256 level)) above in
        rw (levels_above-more sha256 fuel level more)
          (elim (next_level-get_elem? sha256 level i x e) [
            | inl (le, above) ↦ Climbs-promoted level _ _ i x le (rest x above)
            | inr (y, (lt, sibling, above)) ↦
                Climbs-paired level _ _ i x y lt sibling
                  (All-get_elem? IsCanonical level (sibling_of i) h sibling) (rest _ above)
          ])
  ]

  -- For every leaf of a tree whose leaf hashes are canonical, the code finds steps, and replaying
  -- them from that leaf returns the root of the tree; none of the three throws.
  pub replay_proof-proof_steps :
      (leaf : Text) (leaves : List Text) (i : ℕ) {x : Text}
      → All IsCanonical (leaf ∷ leaves)
      → get_elem? (leaf ∷ leaves) i ≡ some x
      → (levels : List (List Text)) × (steps : List ProofStep) × (root : Text)
        × (merkle_levels_from_leaf_hashes sha256 (leaf ∷ leaves) ≡ ok levels)
        × (proof_steps_from_levels levels i ≡ ok steps)
        × (merkle_root_from_leaf_hashes sha256 (leaf ∷ leaves) ≡ ok root)
        × (replay_proof sha256 x steps ≡ ok root)
  unfolding merkle_levels_from_leaf_hashes proof_steps_from_levels merkle_root_from_leaf_hashes
      replay_proof
  replay_proof-proof_steps leaf leaves i {x} h e =
      let all_leaves = leaf ∷ leaves in
      let c = Climbs-All (length all_leaves) all_leaves i x h (omega arith) e in
      (
        all_leaves ∷ levels_above sha256 (length all_leaves) all_leaves,
        c.steps,
        c.root,
        refl,
        rw (lt→ltb i (length all_leaves) (get_elem?-lt all_leaves i e)) c.found,
        rw c.top refl,
        rw
            (
              expect_prefixed_hex32_of_IsCanonical x (All-get_elem? IsCanonical all_leaves i h e),
              c.reaches,
            )
            (ap ok (bytes_to_prefixed_hex-hex_to_bytes c.root c.canonical)),
      )
