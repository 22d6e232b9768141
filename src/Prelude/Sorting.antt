-- ===== src/Prelude/Sorting.antt =====
-- `Array.prototype.sort` by a numeric key: a stable sort, so insertion behind equal keys.
use Prim.Native.Nat.{ℕ, ◌≤◌}
use mathlib.Core.Logic.{inl, inr}
use mathlib.Core.List.{List, [], ◌∷◌, ◌++◌, Perm, perm_middle, perm-append_left_iff}
use mathlib.Core.List.Perm
use native.Mathlib.Omega.{arith}
use sonari.Prelude.Tests.{ltb, if◌then◌else◌, Bool-cases, ltb→lt}
use sonari.Prelude.Lists.{All}

module _ {ℓ} {A : Type ℓ} where
  unfoldable pub insert_by_key : ℕ × A → List (ℕ × A) → List (ℕ × A)
  insert_by_key (k, a) [] = (k, a) ∷ []
  insert_by_key (k, a) ((j, b) ∷ rest) =
      let later = insert_by_key (k, a) rest in
      if ltb k j then (k, a) ∷ (j, b) ∷ rest else (j, b) ∷ later

  unfoldable pub sort_from : List (ℕ × A) → List (ℕ × A) → List (ℕ × A)
  sort_from sorted [] = sorted
  sort_from sorted (x ∷ rest) = sort_from (insert_by_key x sorted) rest

  -- The keys ascend.
  abbrev pub IsSorted : List (ℕ × A) → Type ℓ
  IsSorted [] = Unit
  IsSorted ((k, a) ∷ rest) = All (λ y. k ≤ y.0) rest × IsSorted rest

  module _ {κ} (P : ℕ × A → Type κ) where
    All-insert_by_key :
        (x : ℕ × A) (xs : List (ℕ × A)) → P x → All P xs → All P (insert_by_key x xs)
    unfolding insert_by_key
    All-insert_by_key (k, a) [] p h = (p, tt)
    All-insert_by_key (k, a) ((j, b) ∷ rest) p (q, h) = elim (Bool-cases (ltb k j)) [
      | inl less ↦ rw less (p, (q, h))
      | inr more ↦ rw more (q, All-insert_by_key (k, a) rest p h)
    ]

    -- What holds of all elements holds of the sorted ones.
    pub All-sort_from :
        (sorted xs : List (ℕ × A)) → All P sorted → All P xs → All P (sort_from sorted xs)
    unfolding sort_from
    All-sort_from sorted [] h k = h
    All-sort_from sorted (x ∷ xs) h (p, k) =
        All-sort_from (insert_by_key x sorted) xs (All-insert_by_key x sorted p h) k

  All-weaken : (a b : ℕ) (xs : List (ℕ × A)) → a ≤ b → All (λ y. b ≤ y.0) xs → All (λ y. a ≤ y.0) xs
  All-weaken a b [] le h = tt
  All-weaken a b (x ∷ xs) le (p, h) = (omega arith, All-weaken a b xs le h)

  insert_by_key-IsSorted :
      (x : ℕ × A) (xs : List (ℕ × A)) → IsSorted xs → IsSorted (insert_by_key x xs)
  unfolding insert_by_key
  insert_by_key-IsSorted (k, a) [] h = (tt, tt)
  insert_by_key-IsSorted (k, a) ((j, b) ∷ rest) (p, h) = elim (Bool-cases (ltb k j)) [
    | inl lt ↦
        let less : k ≤ j = omega (arith, ltb→lt k j lt) in
        rw lt ((less, All-weaken k j rest less p), (p, h))
    | inr ge ↦ rw ge (
      All-insert_by_key (λ y. j ≤ y.0) (k, a) rest (ground arith) p,
      insert_by_key-IsSorted (k, a) rest h,
    )
  ]

  pub sort_from-IsSorted :
      (sorted xs : List (ℕ × A)) → IsSorted sorted → IsSorted (sort_from sorted xs)
  unfolding sort_from
  sort_from-IsSorted sorted [] h = h
  sort_from-IsSorted sorted (x ∷ xs) h =
      sort_from-IsSorted (insert_by_key x sorted) xs (insert_by_key-IsSorted x sorted h)

  insert_by_key-perm : (x : ℕ × A) (xs : List (ℕ × A)) → Perm (insert_by_key x xs) (x ∷ xs)
  unfolding insert_by_key
  insert_by_key-perm (k, a) [] = Perm.refl _
  insert_by_key-perm (k, a) ((j, b) ∷ rest) = elim (Bool-cases (ltb k j)) [
    | inl lt ↦ rw lt (Perm.refl _)
    | inr ge ↦
        rw ge (Perm.trans (Perm.cons (j, b) (insert_by_key-perm (k, a) rest)) (Perm.swap _ _ _))
  ]

  -- Sorting permutes.
  pub sort_from-perm : (sorted xs : List (ℕ × A)) → Perm (sort_from sorted xs) (xs ++ sorted)
  unfolding sort_from
  sort_from-perm sorted [] = Perm.refl _
  sort_from-perm sorted (x ∷ xs) = Perm.trans (sort_from-perm (insert_by_key x sorted) xs) (
      Perm.trans ((perm-append_left_iff xs).1 (insert_by_key-perm x sorted))
        (perm_middle xs sorted))
