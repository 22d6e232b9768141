-- ===== src/ProofCore/Merkle/Binding.antt =====
-- Two replays of packages/proof-core/src/merkle.ts that reach one root.
use sonari.Prelude.{
  ℕ, suc, ◌≡◌, ◌≢◌, refl, sym, ap, ap₂, ◌∙◌, Bool, true, false, ◌⊎◌, inl, inr, some, List, [], ◌∷◌,
  ◌++◌, map, length, get_elem?, ok, arith, >>=-eq-ok, ℕ_discrete, subst,
}
use sonari.ProofCore.Bytes.{Byte, Text, hex_to_bytes, bytes_to_prefixed_hex, expect_prefixed_hex32}
use sonari.ProofCore.Bytes.Hex.{
  IsBytes32, IsCanonical, expect_prefixed_hex32-eq-ok, bytes_to_prefixed_hex-hex_to_bytes,
  hex_to_bytes-bytes_to_prefixed_hex, hex_to_bytes-IsBytes32,
}
use sonari.ProofCore.Merkle.{Hash, ProofStep, internal_input, step_input, replay_from, replay_proof}
use sonari.ProofCore.Merkle.Levels.{IsDigest}

-- The input that a step of a replay hashes.
abbrev hashed_input : List Byte → ProofStep → List Byte
hashed_input current step = step_input step.sibling_on_left (hex_to_bytes step.sibling_hash) current

-- The inputs that a replay hashes, from the leaf up to the root.
abbrev pub hashed_inputs : Hash → List Byte → List ProofStep → List (List Byte)
hashed_inputs sha256 current [] = []
hashed_inputs sha256 current (step ∷ proof) =
    let rest = hashed_inputs sha256 (sha256 (hashed_input current step)) proof in
    hashed_input current step ∷ rest

-- Two lists of inputs that at one place have different inputs of one hash.
abbrev pub Collision : Hash → List (List Byte) → List (List Byte) → Type 0
Collision sha256 inputs inputs' =
    (i : ℕ) × (a b : List Byte) × (get_elem? inputs i ≡ some a)
    × (get_elem? inputs' i ≡ some b)
    × (a ≢ b)
    × (sha256 a ≡ sha256 b)

Bytes-discrete : Discrete (List ℕ)
Bytes-discrete = hlevel ℕ_discrete

pub append-cancel : (a b c d : List ℕ) → length a ≡ length b → a ++ c ≡ b ++ d → (a ≡ b) × (c ≡ d)
append-cancel [] [] c d l e = (refl, e)
append-cancel [] (x ∷ b) c d l e = absurd (omega arith)
append-cancel (x ∷ a) [] c d l e = absurd (omega arith)
append-cancel (x ∷ a) (y ∷ b) c d l e =
    let (tails, rest) = append-cancel a b c d (omega arith) (cc) in (cc, rest)

step_input-injective :
    (b c : Bool) (s t x y : List ℕ)
    → IsBytes32 s
    → IsBytes32 t
    → IsBytes32 x
    → IsBytes32 y
    → b ≡ c
    → step_input b s x ≡ step_input c t y
    → (s ≡ t) × (x ≡ y)
unfolding step_input internal_input
step_input-injective true true s t x y hs ht hx hy _ e = append-cancel s t x y (omega arith) (cc)
step_input-injective false false s t x y hs ht hx hy _ e =
    let (currents, siblings) = append-cancel x y s t (omega arith) (cc) in (siblings, currents)
step_input-injective true false s t x y hs ht hx hy d e = absurd (cc)
step_input-injective false true s t x y hs ht hx hy d e = absurd (cc)

hex_to_bytes-injective :
    (s t : Text) → IsCanonical s → IsCanonical t → hex_to_bytes s ≡ hex_to_bytes t → s ≡ t
hex_to_bytes-injective s t hs ht e =
    sym (bytes_to_prefixed_hex-hex_to_bytes s hs)
    ∙ ap bytes_to_prefixed_hex e
    ∙ bytes_to_prefixed_hex-hex_to_bytes t ht

abbrev step_of : Bool → Text → ProofStep
step_of on_left hash = record { sibling_on_left = on_left; sibling_hash = hash }

ProofStep-eq :
    (s t : ProofStep)
    → s.sibling_on_left ≡ t.sibling_on_left
    → s.sibling_hash ≡ t.sibling_hash
    → s ≡ t
ProofStep-eq s t e k = ap₂ step_of e k

-- Two steps that turn the same way and hash one input have one sibling and one current hash.
hashed_input-injective :
    (s t : ProofStep) (x y : List Byte)
    → IsCanonical s.sibling_hash
    → IsCanonical t.sibling_hash
    → IsBytes32 x
    → IsBytes32 y
    → s.sibling_on_left ≡ t.sibling_on_left
    → hashed_input x s ≡ hashed_input y t
    → (s ≡ t) × (x ≡ y)
hashed_input-injective s t x y hs ht hx hy same e =
    let (siblings, currents) =
      step_input-injective s.sibling_on_left t.sibling_on_left (hex_to_bytes s.sibling_hash)
        (hex_to_bytes t.sibling_hash) x y (hex_to_bytes-IsBytes32 s.sibling_hash)
        (hex_to_bytes-IsBytes32 t.sibling_hash) hx hy same e in
    (
      ProofStep-eq s t same (hex_to_bytes-injective s.sibling_hash t.sibling_hash hs ht siblings),
      currents,
    )

module _ (sha256 : Hash) (digest : IsDigest sha256) where
  replay_from-IsBytes32 :
      (proof : List ProofStep) (current r : List Byte)
      → IsBytes32 current
      → replay_from sha256 current proof ≡ ok r
      → IsBytes32 r
  unfolding replay_from
  replay_from-IsBytes32 [] current r h e = subst IsBytes32 (cc) h
  replay_from-IsBytes32 (step ∷ proof) current r h e =
      let (sibling, _, rest) = >>=-eq-ok (expect_prefixed_hex32 step.sibling_hash) _ e in
      replay_from-IsBytes32 proof _ r (digest _) rest

  replay_from-step :
      (s : ProofStep) (p : List ProofStep) (x r : List Byte)
      → replay_from sha256 x (s ∷ p) ≡ ok r
      → IsCanonical s.sibling_hash × (replay_from sha256 (sha256 (hashed_input x s)) p ≡ ok r)
  unfolding replay_from
  replay_from-step s p x r e =
      let (u, checked, e') = >>=-eq-ok (expect_prefixed_hex32 s.sibling_hash) _ e in
      let (canonical, same) = expect_prefixed_hex32-eq-ok s.sibling_hash checked in
      (
        canonical,
        ap (λ h. replay_from sha256 (sha256 (step_input s.sibling_on_left (hex_to_bytes h) x)) p)
              (sym same)
            ∙ e',
      )

  replay_from-binding :
      (p q : List ProofStep) (x y r : List Byte)
      → IsBytes32 x
      → IsBytes32 y
      → map (λ s. s.sibling_on_left) p ≡ map (λ s. s.sibling_on_left) q
      → replay_from sha256 x p ≡ ok r
      → replay_from sha256 y q ≡ ok r
      → ((x ≡ y) × (p ≡ q)) ⊎ Collision sha256 (hashed_inputs sha256 x p) (hashed_inputs sha256 y q)
  unfolding replay_from
  replay_from-binding [] [] x y r hx hy same e k = inl (cc, refl)
  replay_from-binding [] (t ∷ q) x y r hx hy same e k = absurd (cc)
  replay_from-binding (s ∷ p) [] x y r hx hy same e k = absurd (cc)
  replay_from-binding (s ∷ p) (t ∷ q) x y r hx hy same e k =
      let (canonical, e') = replay_from-step s p x r e in
      let (canonical', k') = replay_from-step t q y r k in
      elim (replay_from-binding p q _ _ r (digest _) (digest _) (cc) e' k') [
        | inr (i, a, b, at, at', differ, one_hash) ↦ inr (suc i, a, b, at, at', differ, one_hash)
        | inl (equal, proofs) ↦ elim (Bytes-discrete (hashed_input x s) (hashed_input y t)) [
          | no differ ↦ inr (0, hashed_input x s, hashed_input y t, refl, refl, differ, equal)
          | yes inputs ↦
              let (steps, currents) =
                hashed_input-injective s t x y canonical canonical' hx hy (cc) inputs in
              inl (currents, ap₂ ◌∷◌ steps proofs)
        ]
      ]

  replay_proof-eq-ok :
      (leaf root : Text) (proof : List ProofStep)
      → replay_proof sha256 leaf proof ≡ ok root
      → IsCanonical leaf × (replay_from sha256 (hex_to_bytes leaf) proof ≡ ok (hex_to_bytes root))
  unfolding replay_proof
  replay_proof-eq-ok leaf root proof e =
      let (a, checked, e') = >>=-eq-ok (expect_prefixed_hex32 leaf) _ e in
      let (canonical, same) = expect_prefixed_hex32-eq-ok leaf checked in
      let (r, replayed, done) = >>=-eq-ok (replay_from sha256 (hex_to_bytes a) proof) _ e' in
      let bytes =
        replay_from-IsBytes32 proof (hex_to_bytes a) r (hex_to_bytes-IsBytes32 a) replayed in
      let printed : bytes_to_prefixed_hex r ≡ root = cc in
      let final : r ≡ hex_to_bytes root =
        sym (hex_to_bytes-bytes_to_prefixed_hex r bytes) ∙ ap hex_to_bytes printed in
      (
        canonical,
        ap (λ t. replay_from sha256 (hex_to_bytes t) proof) (sym same) ∙ replayed ∙ ap ok final,
      )

  -- Two leaf hashes that replay to one root, by proofs whose steps turn the same ways, are equal,
  -- and so are their proofs, or at one of the steps the two replays hash different inputs to one
  -- hash.
  pub replay_proof-binding :
      (leaf leaf' root : Text) (p q : List ProofStep)
      → map (λ s. s.sibling_on_left) p ≡ map (λ s. s.sibling_on_left) q
      → replay_proof sha256 leaf p ≡ ok root
      → replay_proof sha256 leaf' q ≡ ok root
      → ((leaf ≡ leaf') × (p ≡ q))
        ⊎ Collision sha256
            (hashed_inputs sha256 (hex_to_bytes leaf) p)
            (hashed_inputs sha256 (hex_to_bytes leaf') q)
  replay_proof-binding leaf leaf' root p q same e k =
      let (canonical, replayed) = replay_proof-eq-ok leaf root p e in
      let (canonical', replayed') = replay_proof-eq-ok leaf' root q k in
      elim (replay_from-binding p q (hex_to_bytes leaf) (hex_to_bytes leaf') (hex_to_bytes root)
        (hex_to_bytes-IsBytes32 leaf) (hex_to_bytes-IsBytes32 leaf') same replayed replayed') [
          | inr collision ↦ inr collision
          | inl (bytes, proofs) ↦
              inl (hex_to_bytes-injective leaf leaf' canonical canonical' bytes, proofs)
        ]
