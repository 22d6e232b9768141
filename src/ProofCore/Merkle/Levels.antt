-- ===== src/ProofCore/Merkle/Levels.antt =====
-- The levels of a Merkle tree: how each is made of the one below.
use sonari.Prelude.{
  ℕ, zero, suc, ◌+◌, ◌/◌, ◌≤◌, ◌<◌, ◌≡◌, refl, Bool, ◌⊎◌, inl, inr, List, [], ◌∷◌, some, ltb,
  if◌then◌else◌, length, get_elem?, All, arith, lt→ltb,
}
use sonari.ProofCore.Bytes.{Text, hex_to_bytes}
use sonari.ProofCore.Bytes.Hex.{
  IsBytes32, IsCanonical, bytes_to_prefixed_hex-canonical, hex_to_bytes-bytes_to_prefixed_hex,
}
use sonari.ProofCore.Merkle.{
  Hash, internal_input, internal_hash, next_level, levels_above, sibling_of,
}

-- A hash function that returns 32 bytes.
abbrev pub IsDigest : Hash → Type 0
IsDigest sha256 = (bytes : List ℕ) → IsBytes32 (sha256 bytes)

sibling_of-suc-suc : (i : ℕ) → sibling_of (suc (suc i)) ≡ suc (suc (sibling_of i))
unfolding sibling_of
sibling_of-suc-suc i = ground arith

ltb-suc-suc : (i j : ℕ) → ltb (suc (suc i)) (suc (suc j)) ≡ ltb i j
ltb-suc-suc i j = ground arith

module _ (sha256 : Hash) where
  -- The node above two siblings.
  abbrev pub node : Bool → Text → Text → Text
  node sibling_on_left sibling current =
      if sibling_on_left
      then internal_hash sha256 sibling current
      else internal_hash sha256 current sibling

  -- Where the node above index `i` stands, and what it is.
  abbrev pub Promoted : List Text → ℕ → Text → Type 0
  Promoted level i x =
      (length level ≤ sibling_of i) × (get_elem? (next_level sha256 level) (i / 2) ≡ some x)

  abbrev pub Paired : List Text → ℕ → Text → Text → Type 0
  Paired level i x y =
      (sibling_of i < length level)
      × (get_elem? level (sibling_of i) ≡ some y)
      × (get_elem? (next_level sha256 level) (i / 2) ≡ some (node (ltb (sibling_of i) i) y x))

  Paired-suc-suc :
      (a b : Text) (level : List Text) (i : ℕ) (x y : Text)
      → Paired level i x y
      → Paired (a ∷ b ∷ level) (suc (suc i)) x y
  unfolding next_level
  Paired-suc-suc a b level i x y (lt, sibling, above) =
      let half : suc (suc i) / 2 ≡ suc (i / 2) = omega arith in
      rw (sibling_of-suc-suc i, ltb-suc-suc (sibling_of i) i, half) (omega arith, sibling, above)

  pub next_level-get_elem? :
      (level : List Text) (i : ℕ) (x : Text)
      → get_elem? level i ≡ some x
      → Promoted level i x ⊎ ((y : Text) × Paired level i x y)
  unfolding next_level
  next_level-get_elem? [] i x e = absurd (cc)
  next_level-get_elem? (a ∷ []) zero x e = inl (unfold sibling_of in omega arith, e)
  next_level-get_elem? (a ∷ []) (suc i) x e = absurd (cc)
  next_level-get_elem? (a ∷ b ∷ level) zero x e =
      inr
        (b, (unfold sibling_of in omega arith, unfold sibling_of in refl, unfold sibling_of in cc))
  next_level-get_elem? (a ∷ b ∷ level) (suc zero) x e =
      inr
        (a, (unfold sibling_of in omega arith, unfold sibling_of in refl, unfold sibling_of in cc))
  next_level-get_elem? (a ∷ b ∷ level) (suc (suc i)) x e = elim (next_level-get_elem? level i x e) [
    | inl (le, above) ↦
        let half : suc (suc i) / 2 ≡ suc (i / 2) = omega arith in
        inl (rw (sibling_of-suc-suc i, half) (omega arith, above))
    | inr (y, paired) ↦ inr (y, Paired-suc-suc a b level i x y paired)
  ]

  pub length-next_level :
      (level : List Text) → length (next_level sha256 level) ≡ (length level + 1) / 2
  unfolding next_level
  length-next_level [] = refl
  length-next_level (a ∷ []) = refl
  length-next_level (a ∷ b ∷ level) = omega (arith, length-next_level level)

  pub levels_above-more :
      (fuel : ℕ) (level : List Text)
      → 1 < length level
      → levels_above sha256 (suc fuel) level
        ≡ next_level sha256 level ∷ levels_above sha256 fuel (next_level sha256 level)
  unfolding levels_above
  levels_above-more fuel level h = rw (lt→ltb 1 (length level) h)

  pub levels_above-top :
      (fuel : ℕ) (level : List Text) → length level ≤ 1 → levels_above sha256 fuel level ≡ []
  unfolding levels_above
  levels_above-top zero level h = refl
  levels_above-top (suc fuel) level h = ground arith

  module _ (digest : IsDigest sha256) where
    pub internal_hash-IsCanonical :
        (left right : Text) → IsCanonical (internal_hash sha256 left right)
    unfolding internal_hash
    internal_hash-IsCanonical left right = bytes_to_prefixed_hex-canonical _ (digest _)

    pub hex_to_bytes-internal_hash :
        (left right : Text)
        → hex_to_bytes (internal_hash sha256 left right)
          ≡ sha256 (internal_input (hex_to_bytes left) (hex_to_bytes right))
    unfolding internal_hash
    hex_to_bytes-internal_hash left right = hex_to_bytes-bytes_to_prefixed_hex _ (digest _)

    pub next_level-IsCanonical :
        (level : List Text) → All IsCanonical level → All IsCanonical (next_level sha256 level)
    unfolding next_level
    next_level-IsCanonical [] h = tt
    next_level-IsCanonical (a ∷ []) h = h
    next_level-IsCanonical (a ∷ b ∷ level) (p, (q, h)) =
        (internal_hash-IsCanonical a b, next_level-IsCanonical level h)
