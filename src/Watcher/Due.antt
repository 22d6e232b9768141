-- ===== src/Watcher/Due.antt =====
-- `listDue` of nautilus/verifiers/earthquake/watcher/src/state.ts: what a pass of the watcher gets
-- to start.
use sonari.Prelude.{
  ℕ, zero, suc, ◌≤◌, ◌≡◌, inl, inr, refl, Bool, true, List, [], ◌∷◌, map, arith, Bool-cases, All,
  length, take, length-take,
}
use sonari.Prelude.Sorting.{All-sort_from, sort_from, IsSorted, sort_from-IsSorted}
use sonari.Watcher.Types.{EarthquakeEventRow}
use sonari.Watcher.Repository.{Rows, Repository}
use sonari.Watcher.Repository.Queries.{keyed_rows, is_listed, list_due}

module _ {ℓ} {A : Type ℓ} where
  module _ {κ} (P : A → Type κ) where
    All-take : (n : ℕ) (xs : List A) → All P xs → All P (take n xs)
    All-take zero xs h = tt
    All-take (suc n) [] h = tt
    All-take (suc n) (x ∷ xs) (p, h) = (p, All-take n xs h)

    All-map_value : (xs : List (ℕ × A)) → All (λ e. P e.1) xs → All P (map (λ e. e.1) xs)
    All-map_value [] h = tt
    All-map_value (x ∷ xs) (p, h) = (p, All-map_value xs h)

  module _ (key : A → ℕ) where
    -- The keys of the elements ascend.
    abbrev pub IsAscending : List A → Type 0
    IsAscending [] = Unit
    IsAscending (x ∷ xs) = All (λ y. key x ≤ key y) xs × IsAscending xs

    IsAscending-take : (n : ℕ) (xs : List A) → IsAscending xs → IsAscending (take n xs)
    IsAscending-take zero xs h = tt
    IsAscending-take (suc n) [] h = tt
    IsAscending-take (suc n) (x ∷ xs) (p, h) =
        (All-take (λ y. key x ≤ key y) n xs p, IsAscending-take n xs h)

    All-key_le :
        (k : ℕ) (a : A) (xs : List (ℕ × A))
        → k ≡ key a
        → All (λ e. e.0 ≡ key e.1) xs
        → All (λ e. k ≤ e.0) xs
        → All (λ y. key a ≤ key y) (map (λ e. e.1) xs)
    All-key_le k a [] e keyed h = tt
    All-key_le k a (x ∷ xs) e (same, keyed) (p, h) =
        (omega (arith, e, same, p), All-key_le k a xs e keyed h)

    IsSorted-IsAscending :
        (xs : List (ℕ × A))
        → All (λ e. e.0 ≡ key e.1) xs
        → IsSorted xs
        → IsAscending (map (λ e. e.1) xs)
    IsSorted-IsAscending [] keyed h = tt
    IsSorted-IsAscending ((k, a) ∷ xs) (same, keyed) (p, h) =
        (All-key_le k a xs same keyed p, IsSorted-IsAscending xs keyed h)

module _ (keep : EarthquakeEventRow → Bool) (key : EarthquakeEventRow → ℕ) where
  -- What holds of the kept rows of a table, with their keys.
  All-keyed_rows :
      (P : ℕ × EarthquakeEventRow → Type 0) (rows : Rows)
      → All (λ e. keep e.1 ≡ true → P (key e.1, e.1)) rows
      → All P (keyed_rows keep key rows)
  unfolding keyed_rows
  All-keyed_rows P [] h = tt
  All-keyed_rows P ((id, row) ∷ rows) (p, h) = elim (Bool-cases (keep row)) [
    | inl kept ↦ rw kept (p kept, All-keyed_rows P rows h)
    | inr left ↦ rw left (All-keyed_rows P rows h)
  ]

All-tabulate {ℓ κ} : {A : Type ℓ} {P : A → Type κ} → ((a : A) → P a) → (xs : List A) → All P xs
All-tabulate p [] = tt
All-tabulate p (x ∷ xs) = (p x, All-tabulate p xs)

-- The rows that a pass of the watcher lists at a time are at most the limit, in the order of their
-- last update, and each of them is due and past its retry time or its deadline.
pub list_due-due :
    (repo : Repository) (now limit : ℕ)
    → (length (list_due repo now limit) ≤ limit)
      × IsAscending (λ row. row.updated_at_ms) (list_due repo now limit)
      × All (λ row. is_listed now row ≡ true) (list_due repo now limit)
unfolding list_due
list_due-due repo now limit =
    let listed = keyed_rows (is_listed now) (λ row. row.updated_at_ms) repo.rows in
    let sorted : List (ℕ × EarthquakeEventRow) = sort_from [] listed in
    (
      omega (arith, length-take limit (map (λ e. e.1) sorted)),
      IsAscending-take (λ row. row.updated_at_ms) limit _
          (IsSorted-IsAscending (λ row. row.updated_at_ms) sorted
            (All-sort_from (λ e. e.0 ≡ e.1.updated_at_ms) [] listed tt
              (All-keyed_rows (is_listed now) (λ row. row.updated_at_ms) _ repo.rows
                (All-tabulate (λ e kept. refl) repo.rows)))
            (sort_from-IsSorted [] listed tt)),
      All-take (λ row. is_listed now row ≡ true) limit _
          (All-map_value (λ row. is_listed now row ≡ true) sorted
            (All-sort_from (λ e. is_listed now e.1 ≡ true) [] listed tt
              (All-keyed_rows (is_listed now) (λ row. row.updated_at_ms) _ repo.rows
                (All-tabulate (λ e kept. kept) repo.rows)))),
    )
